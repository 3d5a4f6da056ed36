-- ===== src/Tests/Signed.antt =====
-- The theorem about the signed list of files at a list of one file.
use wireguard_windows.Base.{
  ℕ, ◌==◌, true, [], ◌∷◌, ◌++◌, some, ok, ◌≡◌, refl, replicate, List, if◌then◌else◌, length,
}
use wireguard_windows.Base.Text.{Text, codes, split, cut, cut_at, has_prefix, text_eq}
use wireguard_windows.Base.Decimal.{parse_uint}
use wireguard_windows.Base.Hex.{hex_decode}
use wireguard_windows.Updater.{
  UpdateFound, find_candidate, check_version, version_newer, newer_parts, part,
}
use wireguard_windows.Updater.Order.{IsUpdate}
use wireguard_windows.Updater.Signed.{
  Crypto, check_for_update, read_file_list, public_key, split_3, signed_body, read_lines, read_line,
  hash_of, put,
}
use wireguard_windows.Updater.Signed.Sound.{IsSigned, IsListed, check_for_update-IsSigned}

-- Every text of the key's length is the key, every other one a signature, and all are valid.
abbrev signer : Crypto
signer = record {
  base64_decode =
      λ s. some (codes "Ed" ++ replicate 8 1 ++ replicate (if length s == 56 then 32 else 64) 7);
  verify = λ key body signature. length key == 32;
}

abbrev response : Text
response =
    codes "untrusted comment: x\nRWRN\n"
    ++ codes
        "00112233445566778899aabbccddeeff00112233445566778899aabbccddeeff  wireguard-amd64-0.10.msi\n"

abbrev half : List ℕ
half = 0 ∷ 17 ∷ 34 ∷ 51 ∷ 68 ∷ 85 ∷ 102 ∷ 119 ∷ 136 ∷ 153 ∷ 170 ∷ 187 ∷ 204 ∷ 221 ∷ 238 ∷ 255 ∷ []

abbrev newest : UpdateFound
newest = record { name = codes "wireguard-amd64-0.10.msi"; hash = half ++ half }

finds_signed :
    check_for_update signer (codes "0.9.7") (codes "amd64") true (some response) ≡ ok (some newest)
unfolding check_for_update read_file_list public_key split_3 signed_body read_lines read_line
    hash_of put find_candidate check_version version_newer newer_parts split part parse_uint
    has_prefix text_eq cut cut_at hex_decode
finds_signed = refl

check_for_update-IsSigned_example :
    (body : Text) × IsSigned signer body
    × IsListed (split 10 body) newest
    × IsUpdate (codes "0.9.7") (codes "amd64") newest
    × (true ≡ true)
check_for_update-IsSigned_example =
    check_for_update-IsSigned signer (codes "0.9.7") (codes "amd64") true (some response)
      finds_signed
