-- ===== src/Updater/Order.antt =====
-- updater/versions.go: versions as lists of numbers.
use wireguard_windows.Base.{
  ℕ, zero, suc, ◌≤◌, Bool, true, false, List, [], ◌∷◌, some, if◌then◌else◌, ◌==◌, ltb, ◌⊎◌, ◌≡◌,
  arith, length, ok, ◌>>=◌, >>=-eq-ok, subst, inl, inr, Bool-cases,
}
use wireguard_windows.Base.Text.{Text, split}
use wireguard_windows.Updater.{
  Checked, part, rest_of, newer_parts, UpdateFound, is_msi, version_in, check_version,
  find_candidate, max_length, version_newer,
}

-- The numbers of a version, if all its parts are numbers.
unfoldable pub numbers : List Text → Checked (List ℕ)
numbers [] = ok []
numbers (s ∷ ps) = part s >>= λ n. numbers ps >>= λ ns. ok (n ∷ ns)

abbrev head_of : List ℕ → ℕ
head_of [] = 0
head_of (n ∷ _) = n

abbrev tail_of : List ℕ → List ℕ
tail_of [] = []
tail_of (_ ∷ ns) = ns

-- The first `k` numbers of one list come before those of another; missing numbers are 0.
unfoldable pub number_lt : ℕ → List ℕ → List ℕ → Bool
number_lt zero ms ns = false
number_lt (suc k) ms ns =
    let later = number_lt k (tail_of ms) (tail_of ns) in
    if head_of ms == head_of ns then later else ltb (head_of ms) (head_of ns)

max_length_comm : (cs os : List Text) → max_length cs os ≡ max_length os cs
max_length_comm cs os = ground arith

newer_parts_asymm :
    (k : ℕ) (cs os : List Text) → newer_parts k cs os ≡ ok true → newer_parts k os cs ≡ ok false
unfolding newer_parts
newer_parts_asymm zero cs os h = cc
newer_parts_asymm (suc k) cs os h = ground (arith, newer_parts_asymm k (rest_of cs) (rest_of os))

-- If a candidate is newer than our version, then ours is not newer than the candidate, and the
-- comparison the other way round does not fail: an update is never offered in both directions.
pub version_newer_asymm :
    (candidate ours : Text)
    → version_newer candidate ours ≡ ok true
    → version_newer ours candidate ≡ ok false
version_newer_asymm candidate ours h =
    let cs = split b'.' candidate in
    let os = split b'.' ours in
    unfold version_newer in
    rw (max_length_comm os cs) (newer_parts_asymm (max_length cs os) cs os (open_newer h))
  where
    open_newer :
        version_newer candidate ours ≡ ok true
        → newer_parts
            (max_length (split b'.' candidate) (split b'.' ours))
            (split b'.' candidate)
            (split b'.' ours)
          ≡ ok true
    open_newer h = unfold version_newer in h

-- What `findCandidate` asks of a file.
pub record IsUpdate (ours arch : Text) (f : UpdateFound) : Type 0 where
  pub is_package : is_msi arch f.name ≡ true
  pub not_long : length (version_in arch f.name) ≤ 128
  pub newer : version_newer (version_in arch f.name) ours ≡ ok true

check_version-IsUpdate :
    (ours arch : Text) (g : UpdateFound)
    → is_msi arch g.name ≡ true
    → check_version ours arch (version_in arch g.name) ≡ ok true
    → IsUpdate ours arch g
unfolding check_version
check_version-IsUpdate ours arch g y c = record {
  is_package = y;
  not_long = ground arith;
  newer = ground arith;
}

abbrev pub IsAmong : UpdateFound → List UpdateFound → Type 0
IsAmong f [] = ⊥
IsAmong f (g ∷ fs) = (g ≡ f) ⊎ IsAmong f fs

pub find_candidate-IsUpdate :
    (ours arch : Text) (fs : List UpdateFound) {f : UpdateFound}
    → find_candidate ours arch fs ≡ ok (some f)
    → IsAmong f fs × IsUpdate ours arch f
unfolding find_candidate
find_candidate-IsUpdate ours arch [] h = cc
find_candidate-IsUpdate ours arch (g ∷ fs) {f} h = elim (Bool-cases (is_msi arch g.name)) [
  | inr n ↦ behind (find_candidate-IsUpdate ours arch fs (rw n at h))
  | inl y ↦
      let (newer, c, last) =
        >>=-eq-ok (check_version ours arch (version_in arch g.name)) _ (rw y at h) in
      chosen newer y c (find_candidate-IsUpdate ours arch fs) last
]
  where
    behind : IsAmong f fs × IsUpdate ours arch f → IsAmong f (g ∷ fs) × IsUpdate ours arch f
    behind (a, u) = (inr a, u)

    chosen :
        (newer : Bool)
        → is_msi arch g.name ≡ true
        → check_version ours arch (version_in arch g.name) ≡ ok newer
        → (find_candidate ours arch fs ≡ ok (some f) → IsAmong f fs × IsUpdate ours arch f)
        → (if newer then ok (some g) else find_candidate ours arch fs) ≡ ok (some f)
        → IsAmong f (g ∷ fs) × IsUpdate ours arch f
    chosen false y c ih last = behind (ih last)
    chosen true y c ih last =
        let same : g ≡ f = ground arith in
        (inl same, subst (IsUpdate ours arch) same (check_version-IsUpdate ours arch g y c))
