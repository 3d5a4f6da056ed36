-- ===== src/Updater/Signed.antt =====
-- updater/signify.go: the signed list of files, and the part of `checkForUpdate` of
-- updater/downloader.go behind the download. base64 and ed25519 are arguments.
pub mod Sound
use wireguard_windows.Base.{
  ℕ, zero, suc, ◌+◌, ◌*◌, ◌-◌, Bool, true, false, not, ◌&&◌, ◌||◌, List, [], ◌∷◌, ◌++◌, Option,
  none, some, if◌then◌else◌, ◌==◌, length, take, drop, Result, ok, err, panic, ◌>>=◌, or_err,
  >>=-eq-ok, ok-injective, ◌≡◌, refl, inl, inr, ◌⊎◌, All, All-weaken, IsIn, subst, Bool-cases,
  Option-cases, arith,
}
use wireguard_windows.Base.Text.{Text, codes, is_empty, split, cut, cut_at, has_prefix, text_eq}
use wireguard_windows.Base.Hex.{hex_decode}
use wireguard_windows.Updater.{VersionError, UpdateFound, find_candidate}
use wireguard_windows.Updater.Order.{IsUpdate, IsAmong, find_candidate-IsUpdate}

pub record Crypto : Type 0 where
  pub base64_decode : Text → Option (List ℕ)
  pub verify : List ℕ → Text → List ℕ → Bool

pub data UpdateError : Type 0 where
  not_official no_response bad_public_key too_few_lines no_comment not_base64 bad_signature_bytes
        bad_signature :
      UpdateError
  too_few_components bad_hash no_files : UpdateError
  bad_version : VersionError → UpdateError

abbrev pub Checked : Type 0 → Type 0
Checked = Result UpdateError

abbrev pub release_public_key_base64 : Text
release_public_key_base64 = codes "RWRNqGKtBXftKTKPpBPGDMe8jHLnFQ0EdRy8Wg0apV6vTDFLAODD83G4"

-- blake2b.Size256, ed25519.PublicKeySize and ed25519.SignatureSize
abbrev pub hash_size : ℕ
hash_size = 32

abbrev public_key_size : ℕ
public_key_size = 32

abbrev signature_size : ℕ
signature_size = 64

abbrev pub byte_is : ℕ → ℕ → List ℕ → Bool
byte_is i b [] = false
byte_is zero b (c ∷ s) = c == b
byte_is (suc i) b (c ∷ s) = byte_is i b s

-- `fileHashes[name] = hash`
unfoldable pub put : Text → List ℕ → List UpdateFound → List UpdateFound
put name hash [] = record { name = name; hash = hash } ∷ []
put name hash (f ∷ fs) =
    let rest = put name hash fs in
    if text_eq f.name name then record { name = name; hash = hash } ∷ fs else f ∷ rest

unfoldable pub hash_of : Text → Checked (List ℕ)
hash_of first = elim (hex_decode first) [
  | none ↦ err bad_hash
  | some hash ↦ if length hash == hash_size then ok hash else err bad_hash
]

unfoldable pub read_line : Text → List UpdateFound → Checked (List UpdateFound)
read_line line hashes = elim (cut_at (codes "  ") line) [
  | none ↦ err too_few_components
  | some (first, second) ↦ hash_of first >>= λ hash. ok (put second hash hashes)
]

-- The loop over the lines; an empty line ends it if it is the last.
unfoldable pub read_lines : List Text → List UpdateFound → Checked (List UpdateFound)
read_lines [] hashes = ok hashes
read_lines (line ∷ []) hashes = if is_empty line then ok hashes else read_line line hashes
read_lines (line ∷ next ∷ lines) hashes =
    read_line line hashes >>= λ more. read_lines (next ∷ lines) more

abbrev pub some_files : List UpdateFound → Checked (List UpdateFound)
some_files [] = err no_files
some_files (f ∷ fs) = ok (f ∷ fs)

-- bytes.SplitN at the first two newlines.
unfoldable pub split_3 : Text → Option (Text × Text × Text)
split_3 input = elim (cut 10 input).1 [
  | none ↦ none
  | some rest ↦ elim (cut 10 rest).1 [
    | none ↦ none
    | some body ↦ some ((cut 10 input).0, (cut 10 rest).0, body)
  ]
]

module _ (crypto : Crypto) where
  unfoldable pub public_key : Checked (List ℕ)
  public_key = elim (crypto.base64_decode release_public_key_base64) [
    | none ↦ err bad_public_key
    | some key ↦
        if not (length key == public_key_size + 10)
          || not (byte_is 0 b'E' key)
          || not (byte_is 1 b'd' key)
        then err bad_public_key
        else ok key
  ]

  -- The checks of the signature, up to the text that it signs.
  unfoldable pub signed_body : List ℕ → Text × Text × Text → Checked Text
  signed_body key (comment, signature, body) =
      if not (has_prefix comment (codes "untrusted comment: "))
      then err no_comment
      else elim (crypto.base64_decode signature) [
        | none ↦ err not_base64
        | some bytes ↦
            if not (length bytes == signature_size + 10)
              || not (text_eq (take 10 bytes) (take 10 key))
            then err bad_signature_bytes
            else if not (crypto.verify (drop 10 key) body (drop 10 bytes))
            then err bad_signature
            else ok body
      ]

  -- `readFileList`
  unfoldable pub read_file_list : Text → Checked (List UpdateFound)
  read_file_list input = public_key >>= λ key. or_err (split_3 input) too_few_lines >>= λ lines.
      signed_body key lines >>= λ body.
      read_lines (split 10 body) [] >>= λ hashes. some_files hashes

  abbrev pub versioned : {A : Type 0} → Result VersionError A → Checked A
  versioned (ok a) = ok a
  versioned (err e) = err (bad_version e)
  versioned panic = panic

  -- `checkForUpdate`, with what the server sent, if it answered; 512 KiB of it are read.
  unfoldable pub check_for_update : Text → Text → Bool → Option Text → Checked (Option UpdateFound)
  check_for_update ours arch official response =
      if not official
      then err not_official
      else or_err response no_response >>= λ sent.
          read_file_list (take (1024 * 512) sent) >>= λ files.
          versioned (find_candidate ours arch files)
