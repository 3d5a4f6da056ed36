-- ===== src/Conf/Name.antt =====
-- conf/name.go: which names a tunnel may have, and the order in which tunnels are listed.
pub mod Valid
pub mod Sorting
use wireguard_windows.Base.{
  any, every, ℕ, Bool, true, false, not, ◌&&◌, ◌||◌, List, [], ◌∷◌, ◌++◌, Option, none, some,
  if◌then◌else◌, length, leb, ltb, ◌==◌, map,
}
use wireguard_windows.Base.Text.{
  Text, codes, text_eq, is_empty, is_digit, is_lower, is_upper, to_lower, cut, has_prefix, join,
  is_space, cons_first,
}
use wireguard_windows.Base.Decimal.{ℤ, pos, negsuc, atoi}

abbrev reserved_names : List Text
reserved_names =
    codes "CON"
    ∷ codes "PRN"
    ∷ codes "AUX"
    ∷ codes "NUL"
    ∷ codes "COM1"
    ∷ codes "COM2"
    ∷ codes "COM3"
    ∷ codes "COM4"
    ∷ codes "COM5"
    ∷ codes "COM6"
    ∷ codes "COM7"
    ∷ codes "COM8"
    ∷ codes "COM9"
    ∷ codes "LPT1"
    ∷ codes "LPT2"
    ∷ codes "LPT3"
    ∷ codes "LPT4"
    ∷ codes "LPT5"
    ∷ codes "LPT6"
    ∷ codes "LPT7"
    ∷ codes "LPT8"
    ∷ codes "LPT9"
    ∷ []

-- strings.EqualFold, on ASCII text.
abbrev equal_fold : Text → Text → Bool
equal_fold s t = text_eq (to_lower s) (to_lower t)

-- The part before the first '.' is the name of a device, in any case.
unfoldable pub is_reserved : Text → Bool
unfolding any
is_reserved name = any (λ reserved. equal_fold (cut b'.' name).0 reserved) reserved_names

abbrev netshell_dll_forbidden : ℕ → Bool
netshell_dll_forbidden c =
    c == b'\\'
    || c == b'/'
    || c == b':'
    || c == b'*'
    || c == b'?'
    || c == 34
    || c == b'<'
    || c == b'>'
    || c == b'|'
    || c == 9

abbrev special_chars : ℕ → Bool
special_chars c =
    c == b'/'
    || c == b'\\'
    || c == b'<'
    || c == b'>'
    || c == b':'
    || c == 34
    || c == b'|'
    || c == b'?'
    || c == b'*'
    || leb c 31

abbrev service_name_forbidden : ℕ → Bool
service_name_forbidden c = c == b'$'

abbrev last_is : ℕ → Text → Bool
last_is b [] = false
last_is b (c ∷ []) = c == b
last_is b (c ∷ d ∷ s) = last_is b (d ∷ s)

unfoldable pub has_special_chars : Text → Bool
unfolding any has_prefix
has_special_chars name =
    any special_chars name
    || any netshell_dll_forbidden name
    || any service_name_forbidden name
    || has_prefix name (codes ".")
    || last_is b'.' name

-- The class [a-zA-Z0-9_=+.-].
abbrev is_allowed : ℕ → Bool
is_allowed c =
    is_lower c
    || is_upper c
    || is_digit c
    || c == b'_'
    || c == b'='
    || c == b'+'
    || c == b'.'
    || c == b'-'

-- ^[a-zA-Z0-9_=+.-]{1,32}$
unfoldable pub allowed_name_format : Text → Bool
unfolding every
allowed_name_format name = leb 1 (length name) && leb (length name) 32 && every is_allowed name

unfoldable pub tunnel_name_is_valid : Text → Bool
tunnel_name_is_valid name =
    if is_reserved name || has_special_chars name then false else allowed_name_format name

unfoldable pub service_name_of_tunnel : Text → Option Text
service_name_of_tunnel name =
    if not (tunnel_name_is_valid name) then none else some (codes "WireGuardWSTunnel$" ++ name)

-- A token is a number, or the text of one that is no int64, or a text without digits.
pub record Token : Type 0 where
  pub maybe_string : Text
  pub maybe_number : ℕ

-- strings.Fields, joined by one space and in lower case.
fields : Text → List Text
fields [] = []
fields (c ∷ []) = if is_space c then [] else (c ∷ []) ∷ []
fields (c ∷ d ∷ s) =
    let later = fields (d ∷ s) in
    if is_space c then later else if is_space d then (c ∷ []) ∷ later else cons_first c later

-- The matches of \d+|\D+.
runs : Text → List Text
runs [] = []
runs (c ∷ []) = (c ∷ []) ∷ []
runs (c ∷ d ∷ s) =
    let later = runs (d ∷ s) in
    elim (is_digit c) [
      | true ↦ if is_digit d then cons_first c later else (c ∷ []) ∷ later
      | false ↦ if is_digit d then (c ∷ []) ∷ later else cons_first c later
    ]

-- A run has no sign, so its number is never negative.
abbrev token_of : Text → Option ℤ → Token
token_of s none = record { maybe_string = s; maybe_number = 0 }
token_of s (some (pos n)) = record { maybe_string = []; maybe_number = n }
token_of s (some (negsuc n)) = record { maybe_string = s; maybe_number = 0 }

unfoldable pub tokens : Text → List Token
unfolding fields runs
tokens s = map (λ t. token_of t (atoi t)) (runs (to_lower (join (codes " ") (fields s))))

-- The byte order of Go strings.
unfoldable pub text_lt : Text → Text → Bool
text_lt [] [] = false
text_lt [] (d ∷ t) = true
text_lt (c ∷ s) [] = false
text_lt (c ∷ s) (d ∷ t) = ltb c d || (c == d && text_lt s t)

-- The results -1, 0 and 1 of `Cmp`.
pub data Order : Type 0 where
  less same greater : Order

unfoldable pub cmp : Token → Token → Order
unfolding text_lt
cmp f1 f2 =
    if is_empty f1.maybe_string
    then if not (is_empty f2.maybe_string) || ltb f1.maybe_number f2.maybe_number
      then less
      else if ltb f2.maybe_number f1.maybe_number
      then greater
      else same
    else if is_empty f2.maybe_string || text_lt f2.maybe_string f1.maybe_string
    then greater
    else if text_lt f1.maybe_string f2.maybe_string
    then less
    else same

-- The loop of `TunnelNameIsLess` over the tokens of `b`.
unfoldable pub tokens_less : List Token → List Token → Bool
tokens_less na [] = false
tokens_less [] (t ∷ nb) = true
tokens_less (u ∷ na) (t ∷ nb) =
    let later = tokens_less na nb in elim (cmp u t) [ less ↦ true | greater ↦ false | same ↦ later ]

unfoldable pub tunnel_name_is_less : Text → Text → Bool
unfolding tokens_less
tunnel_name_is_less a b = if text_eq a b then false else tokens_less (tokens a) (tokens b)
