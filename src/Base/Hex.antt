-- ===== src/Base/Hex.antt =====
-- encoding/hex: two digits for each byte.
use wireguard_windows.Base.{
  ℕ, ◌+◌, ◌-◌, ◌*◌, ◌/◌, ◌%◌, ◌&&◌, List, [], ◌∷◌, Option, none, some, if◌then◌else◌, leb, ltb,
}
use wireguard_windows.Base.Text.{Text}

abbrev digit : ℕ → ℕ
digit n = if ltb n 10 then b'0' + n else b'a' + (n - 10)

unfoldable pub hex_encode : List ℕ → Text
hex_encode [] = []
hex_encode (c ∷ cs) = digit (c / 16) ∷ digit (c % 16) ∷ hex_encode cs

abbrev value_of_digit : ℕ → Option ℕ
value_of_digit c =
    if leb b'0' c && leb c b'9'
    then some (c - b'0')
    else if leb b'a' c && leb c b'f'
    then some (c - b'a' + 10)
    else if leb b'A' c && leb c b'F'
    then some (c - b'A' + 10)
    else none

abbrev byte_of : Option ℕ → Option ℕ → Option (List ℕ) → Option (List ℕ)
byte_of (some h) (some l) (some bytes) = some ((16 * h + l) ∷ bytes)
byte_of _ _ _ = none

-- hex.DecodeString: digits in either case, an even number of them.
unfoldable pub hex_decode : Text → Option (List ℕ)
hex_decode [] = some []
hex_decode (_ ∷ []) = none
hex_decode (h ∷ l ∷ s) = byte_of (value_of_digit h) (value_of_digit l) (hex_decode s)
