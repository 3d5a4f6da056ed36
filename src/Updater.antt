-- ===== src/Updater.antt =====
-- updater/versions.go: whether a version is newer than ours, and the choice of an update.
pub mod Order
pub mod Signed
use wireguard_windows.Base.{
  ℕ, zero, suc, ◌+◌, Bool, true, false, not, ◌&&◌, List, [], ◌∷◌, ◌++◌, Option, none, some,
  if◌then◌else◌, ◌==◌, ltb, length, take, drop, ◌-◌, Result, ok, err, panic, ◌>>=◌, or_err,
}
use wireguard_windows.Base.Text.{Text, codes, is_empty, split, has_prefix, text_eq}
use wireguard_windows.Base.Decimal.{parse_uint}

pub data VersionError : Type 0 where
  empty_version_part invalid_part too_long : VersionError

abbrev pub Checked : Type 0 → Type 0
Checked = Result VersionError

-- A part of a version that is there.
unfoldable pub part : Text → Checked ℕ
part s = if is_empty s then err empty_version_part else or_err (parse_uint 16 s) invalid_part

-- The parts at one index; a version without one has 0 there.
abbrev pub part_at : List Text → Checked ℕ
part_at [] = ok 0
part_at (s ∷ _) = part s

abbrev pub rest_of : List Text → List Text
rest_of [] = []
rest_of (_ ∷ ps) = ps

-- The loop of `versionNewerThanUs` over what is left of the parts, `n` rounds.
unfoldable pub newer_parts : ℕ → List Text → List Text → Checked Bool
newer_parts zero cs os = ok false
newer_parts (suc n) cs os =
    let later = newer_parts n (rest_of cs) (rest_of os) in
    part_at cs >>= λ c. part_at os >>= λ o. if c == o then later else ok (ltb o c)

abbrev pub max_length : List Text → List Text → ℕ
max_length cs os = if ltb (length os) (length cs) then length cs else length os

-- `versionNewerThanUs`, with our version as an argument. `strings.Split` gives at least one part.
unfoldable pub version_newer : Text → Text → Checked Bool
unfolding newer_parts
version_newer candidate ours =
    let cs = split b'.' candidate in
    let os = split b'.' ours in newer_parts (max_length cs os) cs os

-- strings.HasSuffix, and strings.TrimSuffix of such a text.
abbrev has_suffix : Text → Text → Bool
has_suffix s suffix =
    not (ltb (length s) (length suffix)) && text_eq (drop (length s - length suffix) s) suffix

abbrev trim_prefix : Text → Text → Text
trim_prefix s prefix = if has_prefix s prefix then drop (length prefix) s else s

abbrev trim_suffix : Text → Text → Text
trim_suffix s suffix = if has_suffix s suffix then take (length s - length suffix) s else s

-- `UpdateFound`: the name of a file and its hash.
pub record UpdateFound : Type 0 where
  pub name : Text
  pub hash : List ℕ

abbrev pub msi_prefix : Text → Text
msi_prefix arch = codes "wireguard-" ++ (arch ++ codes "-")

abbrev pub msi_suffix : Text
msi_suffix = codes ".msi"

abbrev pub is_msi : Text → Text → Bool
is_msi arch name = has_prefix name (msi_prefix arch) && has_suffix name msi_suffix

abbrev pub version_in : Text → Text → Text
version_in arch name = trim_suffix (trim_prefix name (msi_prefix arch)) msi_suffix

module _ (ours arch : Text) where
  -- The check of the version that a file's name holds.
  unfoldable pub check_version : Text → Checked Bool
  check_version version =
      if ltb 128 (length version) then err too_long else version_newer version ours

  -- The loop of `findCandidate`, over the files in the order in which the map gives them.
  unfoldable pub find_candidate : List UpdateFound → Checked (Option UpdateFound)
  unfolding check_version
  find_candidate [] = ok none
  find_candidate (f ∷ fs) =
      let later = find_candidate fs in
      if is_msi arch f.name
      then (check_version (version_in arch f.name) >>= λ newer.
          if newer then ok (some f) else later)
      else later
