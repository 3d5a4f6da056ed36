-- ===== src/Updater/Signed/Sound.antt =====
-- updater/signify.go: where an update that is found comes from.
use wireguard_windows.Base.{
  Bool, true, not, ◌||◌, List, [], ◌∷◌, Option, some, if◌then◌else◌, ℕ, ◌*◌, ◌==◌, length, take,
  drop, Result, ok, err, panic, or_err, >>=-eq-ok, ok-injective, ◌≡◌, refl, ap, ◌∙◌, inl, inr, All,
  IsIn, subst, Bool-cases, Option-cases, arith,
}
use wireguard_windows.Base.Text.{Text, codes, is_empty, split, cut_at, has_prefix, text_eq}
use wireguard_windows.Base.Hex.{hex_decode}
use wireguard_windows.Updater.{VersionError, UpdateFound, find_candidate}
use wireguard_windows.Updater.Order.{IsUpdate, IsAmong, find_candidate-IsUpdate}
use wireguard_windows.Updater.Signed.{
  Crypto, byte_is, bad_public_key, no_comment, bad_signature_bytes, bad_signature,
  release_public_key_base64, hash_size, put, hash_of, read_line, read_lines, some_files, split_3,
  public_key, signed_body, read_file_list, versioned, check_for_update,
}

-- A line of the text gives the file's hash in front of two spaces, and its name.
pub record IsListed (lines : List Text) (f : UpdateFound) : Type 0 where
  pub line : Text
  pub first : Text
  pub in_list : IsIn line lines
  pub components : cut_at (codes "  ") line ≡ some (first, f.name)
  pub digits : hex_decode first ≡ some f.hash
  pub size : length f.hash ≡ hash_size

put-All :
    (P : UpdateFound → Type 0) (name : Text) (hash : List ℕ) (fs : List UpdateFound)
    → P (record { name = name; hash = hash })
    → All P fs
    → All P (put name hash fs)
unfolding put
put-All P name hash [] p h = (p, tt)
put-All P name hash (f ∷ fs) p h = elim (Bool-cases (text_eq f.name name)) [
  | inl y ↦ rw y (p, h.1)
  | inr n ↦ rw n (h.0, put-All P name hash fs p h.1)
]

hash_of-ok :
    (first : Text) {hash : List ℕ}
    → hash_of first ≡ ok hash
    → (hex_decode first ≡ some hash) × (length hash ≡ hash_size)
unfolding hash_of
hash_of-ok first h = elim (Option-cases (hex_decode first)) [
  | inl e ↦ let f = rw (e, hash_of) at h in cc
  | inr (k, e) ↦ elim (Bool-cases (length k == hash_size)) [
    | inl y ↦
        let same = ok-injective (rw (e, hash_of, y) at h) in
        (e ∙ ap some same, subst (λ x. length x ≡ hash_size) same (ground arith))
    | inr n ↦ let f = rw (e, hash_of, n) at h in cc
  ]
]

read_line-IsListed :
    (lines : List Text) (line : Text) (hashes : List UpdateFound) {more : List UpdateFound}
    → IsIn line lines
    → All (IsListed lines) hashes
    → read_line line hashes ≡ ok more
    → All (IsListed lines) more
unfolding read_line
read_line-IsListed lines line hashes i h k = elim (Option-cases (cut_at (codes "  ") line)) [
  | inl e ↦ let f = rw (e, read_line) at k in cc
  | inr ((first, second), e) ↦
      let (hash, d, last) = >>=-eq-ok (hash_of first) _ (rw (e, read_line) at k) in
      let (digits, size) = hash_of-ok first d in
      subst (All (IsListed lines)) (ok-injective last) (
        put-All (IsListed lines) second hash hashes
          (record {
            line = line;
            first = first;
            in_list = i;
            components = e;
            digits = digits;
            size = size;
          })
          h)
]

read_lines-IsListed :
    (all lines : List Text) (hashes : List UpdateFound) {files : List UpdateFound}
    → ((line : Text) → IsIn line lines → IsIn line all)
    → All (IsListed all) hashes
    → read_lines lines hashes ≡ ok files
    → All (IsListed all) files
unfolding read_lines
read_lines-IsListed all [] hashes sub h k = subst (All (IsListed all)) (ok-injective k) h
read_lines-IsListed all (line ∷ []) hashes sub h k = elim (Bool-cases (is_empty line)) [
  | inl y ↦ subst (All (IsListed all)) (ok-injective (rw y at k)) h
  | inr n ↦ read_line-IsListed all line hashes (sub line (inl refl)) h (rw n at k)
]
read_lines-IsListed all (line ∷ next ∷ lines) hashes sub h k =
    let (more, e, last) = >>=-eq-ok (read_line line hashes) _ k in
    read_lines-IsListed all (next ∷ lines) more (λ l i. sub l (inr i))
      (read_line-IsListed all line hashes (sub line (inl refl)) h e) last

-- The release key, as the code holds it, signed the text.
pub record IsSigned (crypto : Crypto) (body : Text) : Type 0 where
  pub key : List ℕ
  pub signature : List ℕ
  pub is_release_key : crypto.base64_decode release_public_key_base64 ≡ some key
  pub verified : crypto.verify (drop 10 key) body signature ≡ true

module _ (crypto : Crypto) where
  public_key-ok :
      {key : List ℕ}
      → public_key crypto ≡ ok key
      → crypto.base64_decode release_public_key_base64 ≡ some key
  unfolding public_key
  public_key-ok {key} h = elim (Option-cases (crypto.base64_decode release_public_key_base64)) [
    | inl e ↦ let f = rw (e, public_key) at h in cc
    | inr (k, e) ↦ e ∙ ap some (same k (rw (e, public_key) at h))
  ]
    where
      same :
          (k : List ℕ)
          → (if not (length k == 42) || not (byte_is 0 b'E' k) || not (byte_is 1 b'd' k)
              then err bad_public_key
              else ok k)
            ≡ ok key
          → k ≡ key
      same k q = ground arith

  signed_body-IsSigned :
      (key : List ℕ) (lines : Text × Text × Text) {body : Text}
      → crypto.base64_decode release_public_key_base64 ≡ some key
      → signed_body crypto key lines ≡ ok body
      → IsSigned crypto body
  unfolding signed_body
  signed_body-IsSigned key (comment, signature, body) is_key h =
      elim (Option-cases (crypto.base64_decode signature)) [
        | inl e ↦ let q = rw (e, signed_body) at h in absurd (ground arith)
        | inr (bytes, e) ↦
            let (same, v) = checked bytes (rw (e, signed_body) at h) in
            subst (IsSigned crypto) same (record {
              key = key;
              signature = drop 10 bytes;
              is_release_key = is_key;
              verified = v;
            })
      ]
    where
      checked :
          (bytes : List ℕ) {out : Text}
          → (if not (has_prefix comment (codes "untrusted comment: "))
              then err no_comment
              else if not (length bytes == 74) || not (text_eq (take 10 bytes) (take 10 key))
              then err bad_signature_bytes
              else if not (crypto.verify (drop 10 key) body (drop 10 bytes))
              then err bad_signature
              else ok body)
            ≡ ok out
          → (body ≡ out) × (crypto.verify (drop 10 key) body (drop 10 bytes) ≡ true)
      checked bytes q = ground arith

  -- A list that was read: its text was signed, and it lists the files.
  read_file_list-IsListed :
      (input : Text) {files : List UpdateFound}
      → read_file_list crypto input ≡ ok files
      → (body : Text) × IsSigned crypto body × All (IsListed (split 10 body)) files
  unfolding read_file_list
  read_file_list-IsListed input h =
      let (key, e, h1) = >>=-eq-ok (public_key crypto) _ h in
      let (lines, e1, h2) = >>=-eq-ok (or_err (split_3 input) _) _ h1 in
      let (body, e2, h3) = >>=-eq-ok (signed_body crypto key lines) _ h2 in
      let (hashes, e3, h4) = >>=-eq-ok (read_lines (split 10 body) []) _ h3 in
      let listed = read_lines-IsListed (split 10 body) (split 10 body) [] (λ l i. i) tt e3 in
      (
        body,
        signed_body-IsSigned key lines (public_key-ok e) e2,
        subst (All (IsListed (split 10 body))) (some_files-ok hashes h4) listed,
      )
    where
      some_files-ok :
          (hashes : List UpdateFound) {files : List UpdateFound}
          → some_files hashes ≡ ok files
          → hashes ≡ files
      some_files-ok [] q = cc
      some_files-ok (f ∷ fs) q = ok-injective q

All-IsAmong :
    (P : UpdateFound → Type 0) (fs : List UpdateFound) {f : UpdateFound}
    → All P fs
    → IsAmong f fs
    → P f
All-IsAmong P [] h i = absurd i
All-IsAmong P (g ∷ fs) h (inl e) = subst P e h.0
All-IsAmong P (g ∷ fs) h (inr i) = All-IsAmong P fs h.1 i

versioned-ok :
    (crypto : Crypto) (r : Result VersionError (Option UpdateFound)) {o : Option UpdateFound}
    → versioned crypto r ≡ ok o
    → r ≡ ok o
versioned-ok crypto (ok a) h = ap ok (ok-injective h)
versioned-ok crypto (err e) h = cc
versioned-ok crypto panic h = cc

-- An update that `checkForUpdate` finds is in a text which the release key signed, in a line that
-- gives its name and the 32 bytes of its hash, and it is a package of our architecture with a
-- version that is newer than ours; the build is official.
pub check_for_update-IsSigned :
    (crypto : Crypto) (ours arch : Text) (official : Bool) (response : Option Text)
    {f : UpdateFound}
    → check_for_update crypto ours arch official response ≡ ok (some f)
    → (body : Text) × IsSigned crypto body
      × IsListed (split 10 body) f
      × IsUpdate ours arch f
      × (official ≡ true)
unfolding check_for_update
check_for_update-IsSigned crypto ours arch official response {f} h = elim (Bool-cases official) [
  | inr n ↦ let q = rw n at h in absurd (ground arith)
  | inl y ↦
      let (sent, e, h1) = >>=-eq-ok (or_err response _) _ (rw y at h) in
      let (files, e1, h2) = >>=-eq-ok (read_file_list crypto (take (1024 * 512) sent)) _ h1 in
      let (body, signed, listed) = read_file_list-IsListed crypto (take (1024 * 512) sent) e1 in
      let (among, update) =
        find_candidate-IsUpdate ours arch files
          (versioned-ok crypto (find_candidate ours arch files) h2) in
      (body, signed, All-IsAmong (IsListed (split 10 body)) files listed among, update, y)
]
