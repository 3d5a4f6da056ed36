-- ===== src/Syntax.antt =====
-- ui/syntax/highlighter.go: the spans of the text and the tests that colour them. `b` is the text
-- of the editor; the NUL behind it, and what would lie behind that, reads as 0.
pub mod Accept
pub mod Fields
pub mod Highlight
pub mod Scan
pub mod Names
pub mod Numbers
pub mod Order
use wireguard_windows.Base.{
  ℕ, zero, suc, ◌+◌, ◌-◌, ◌*◌, ◌/◌, ◌%◌, ◌^◌, Bool, true, false, not, ◌&&◌, ◌||◌, List, [], ◌∷◌,
  Option, none, some, if◌then◌else◌, ◌==◌, ltb, leb, length, get_elem?,
}
use wireguard_windows.Base.Text.{Text, codes, is_digit, is_lower}

-- `c | 32` on a byte.
abbrev pub or_32 : ℕ → ℕ
or_32 c = if c / 32 % 2 == 1 then c else c + 32

abbrev pub is_hexadecimal : ℕ → Bool
is_hexadecimal c = is_digit c || (leb b'a' (or_32 c) && leb (or_32 c) b'f')

abbrev pub is_alphabet : ℕ → Bool
is_alphabet c = leb b'a' (or_32 c) && leb (or_32 c) b'z'

-- `stringSpan`: where it begins in the text, and its length.
pub record StringSpan : Type 0 where
  pub s : ℕ
  pub len : ℕ

abbrev byte_or_nul : Option ℕ → ℕ
byte_or_nul none = 0
byte_or_nul (some c) = c

-- `c & 95` of a lower case letter.
abbrev pub upper : ℕ → ℕ
upper c = if is_lower c then c - 32 else c

module _ (b : Text) where
  -- The byte at a position of the text.
  abbrev pub byte_at : ℕ → ℕ
  byte_at p = byte_or_nul (get_elem? b p)

  abbrev pub at : StringSpan → ℕ → ℕ
  at s i = byte_at (s.s + i)

  -- `n` bytes from a position on pass a test.
  unfoldable pub every_at : (ℕ → Bool) → ℕ → ℕ → Bool
  every_at test zero p = true
  every_at test (suc n) p =
      let rest = every_at test n (p + 1) in if test (byte_at p) then rest else false

  unfoldable pub same_at : (ℕ → ℕ) → ℕ → Text → Bool
  same_at fold p [] = true
  same_at fold p (c ∷ cs) =
      let rest = same_at fold (p + 1) cs in if fold (byte_at p) == fold c then rest else false

  unfoldable pub is_same : StringSpan → Text → Bool
  unfolding same_at
  is_same s c = if s.len == length c then same_at (λ x. x) s.s c else false

  unfoldable pub is_caseless_same : StringSpan → Text → Bool
  unfolding same_at
  is_caseless_same s c = if s.len == length c then same_at upper s.s c else false

  abbrev is_key_byte : ℕ → Bool
  is_key_byte c = is_digit c || is_alphabet c || c == b'/' || c == b'+'

  -- The last byte of a key before the '=': its two low bits are 0.
  abbrev ends_key : ℕ → Bool
  ends_key c =
      c == b'A'
      || c == b'E'
      || c == b'I'
      || c == b'M'
      || c == b'Q'
      || c == b'U'
      || c == b'Y'
      || c == b'c'
      || c == b'g'
      || c == b'k'
      || c == b'o'
      || c == b's'
      || c == b'w'
      || c == b'4'
      || c == b'8'
      || c == b'0'

  unfoldable pub is_valid_key : StringSpan → Bool
  unfolding every_at
  is_valid_key s =
      if not (s.len == 44) || not (at s 43 == b'=')
      then false
      else every_at is_key_byte 42 s.s && ends_key (at s 42)

  -- The loop of `isValidHostname`: `n` bytes are left, from `i` on.
  hostname_loop : StringSpan → ℕ → ℕ → ℕ → ℕ → Bool
  hostname_loop s zero i digits entity = not (digits == entity)
  hostname_loop s (suc n) i digits entity =
      let c = at s i in
      let rest =
        hostname_loop s n (i + 1) (if is_digit c then digits + 1 else digits)
          (if c == b'.' then entity - 1 else entity) in
      if is_digit c || c == b'.'
      then rest
      else if not (is_alphabet c) && not (c == b'-')
      then false
      else if not (i == 0) && (c == b'.' && at s (i - 1) == b'.')
      then false
      else rest

  unfoldable pub is_valid_hostname : StringSpan → Bool
  unfolding hostname_loop
  is_valid_hostname s =
      if ltb 63 s.len || s.len == 0
      then false
      else if at s 0 == b'-' || at s (s.len - 1) == b'-'
      then false
      else if at s 0 == b'.' || at s (s.len - 1) == b'.'
      then false
      else hostname_loop s s.len 0 0 s.len

  -- At most `n` more digits of a number, and its value.
  octet : StringSpan → ℕ → ℕ → ℕ → ℕ → ℕ × ℕ
  octet s zero pos j val = (j, val)
  octet s (suc n) pos j val =
      let c = at s (pos + j) in
      let rest = octet s n pos (j + 1) (10 * val + (c - b'0')) in
      if ltb (pos + j) s.len && is_digit c then rest else (j, val)

  -- The loop of `isValidIPv4`: `k` numbers are left.
  ipv4_loop : StringSpan → ℕ → ℕ → Bool
  unfolding octet
  ipv4_loop s zero pos = false
  ipv4_loop s (suc k) pos =
      let (j, val) = octet s 3 pos 0 0 in
      let rest = ipv4_loop s k (pos + (j + 1)) in
      if not (ltb pos s.len)
      then false
      else if j == 0 || (ltb 1 j && at s pos == b'0') || ltb 255 val
      then false
      else if pos + j == s.len && k == 0
      then true
      else if not (at s (pos + j) == b'.')
      then false
      else rest

  unfoldable pub is_valid_ipv4 : StringSpan → Bool
  unfolding ipv4_loop
  is_valid_ipv4 s = ipv4_loop s 4 0

  -- How many of at most `n` more bytes are hexadecimal.
  hex_run : StringSpan → ℕ → ℕ → ℕ → ℕ
  hex_run s zero pos j = j
  hex_run s (suc n) pos j =
      let rest = hex_run s n pos (j + 1) in
      if ltb (pos + j) s.len && is_hexadecimal (at s (pos + j)) then rest else j

  -- The loop of `isValidIPv6`. Each round moves `pos` on, so that `len` rounds reach the end.
  ipv6_loop : StringSpan → ℕ → ℕ → ℕ → Bool → Bool
  unfolding hex_run
  ipv6_loop s zero i pos seen_colon = true
  ipv6_loop s (suc n) i pos seen_colon =
      let colon = at s pos == b':' && not seen_colon in
      let j = hex_run s 4 pos 0 in
      let rest =
        ipv6_loop s n (i + 1) (if colon then pos + 1 else pos + (j + 1)) (colon || seen_colon) in
      if not (ltb pos s.len)
      then true
      else if colon
      then (if pos + 1 == s.len then true else if i == 7 then false else rest)
      else if j == 0
      then false
      else if pos + j == s.len && (seen_colon || i == 7)
      then true
      else if i == 7
      then false
      else if not (at s (pos + j) == b':')
      then (if not (at s (pos + j) == b'.') || (ltb i 6 && not seen_colon)
          then false
          else is_valid_ipv4 (record { s = s.s + pos; len = s.len - pos }))
      else rest

  unfoldable pub is_valid_ipv6 : StringSpan → Bool
  unfolding ipv6_loop
  is_valid_ipv6 s =
      if ltb s.len 2
      then false
      else if at s 0 == b':' && not (at s 1 == b':')
      then false
      else if at s (s.len - 1) == b':' && not (at s (s.len - 2) == b':')
      then false
      else ipv6_loop s s.len 0 (if at s 0 == b':' then 1 else 0) false
