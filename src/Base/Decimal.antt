-- ===== src/Base/Decimal.antt =====
-- Decimal numbers: strconv.Atoi, strconv.ParseUint and the formatting of an unsigned number.
use wireguard_windows.Base.Tests.{leb, ltb, ◌==◌, if◌then◌else◌, Bool-cases}
use wireguard_windows.Base.Text.{Text, is_digit}
use Prim.Native.Nat.{ℕ, zero, suc, ◌+◌, ◌-◌, ◌*◌, ◌/◌, ◌%◌, ◌^◌, ◌≤◌, ◌<◌}
use mathlib.Core.Path.{◌≡◌, refl, ap, ◌∙◌}
use mathlib.Core.Logic.{◌≢◌, inl, inr}
use mathlib.Core.Bool.{true}
use mathlib.Core.Option.{Option, none, some}
use mathlib.Core.List.{[], ◌∷◌, ◌++◌}
use native.Mathlib.Omega.{arith}
use wireguard_windows.Base.Lists.{All, All-append}

-- `negsuc n` is -(n + 1).
pub data ℤ : Type 0 where
  pos : ℕ → ℤ
  negsuc : ℕ → ℤ

unfoldable pub parse_digits : ℕ → Text → Option ℕ
parse_digits acc [] = some acc
parse_digits acc (c ∷ s) =
    let rest = parse_digits (acc * 10 + (c - b'0')) s in if is_digit c then rest else none

-- The digits of a non-empty text.
unfoldable pub parse_nat : Text → Option ℕ
unfolding parse_digits
parse_nat [] = none
parse_nat (c ∷ s) = parse_digits 0 (c ∷ s)

abbrev pub bounded : ℕ → Option ℕ → Option ℕ
bounded limit none = none
bounded limit (some n) = if leb n limit then some n else none

-- strconv.ParseUint(s, 10, bits): neither a sign nor an underscore is taken.
unfoldable pub parse_uint : ℕ → Text → Option ℕ
unfolding parse_nat
parse_uint bits s = bounded (2 ^ bits - 1) (parse_nat s)

abbrev pub negate : ℕ → ℤ
negate zero = pos 0
negate (suc n) = negsuc n

abbrev positive : Option ℕ → Option ℤ
positive none = none
positive (some n) = if leb n (2 ^ 63 - 1) then some (pos n) else none

abbrev negative : Option ℕ → Option ℤ
negative none = none
negative (some n) = if leb n (2 ^ 63) then some (negate n) else none

-- strconv.Atoi: one sign, then digits; `none` is a syntax error or a value outside int64.
unfoldable pub atoi : Text → Option ℤ
unfolding parse_nat
atoi [] = none
atoi (c ∷ s) =
    if c == b'-'
    then negative (parse_nat s)
    else if c == b'+'
    then positive (parse_nat s)
    else positive (parse_nat (c ∷ s))

-- fmt's %d of an unsigned number, on fuel above the number.
unfoldable pub decimal_fuel : ℕ → ℕ → Text
decimal_fuel zero n = []
decimal_fuel (suc f) n =
    let high = decimal_fuel f (n / 10) in
    if ltb n 10 then (b'0' + n) ∷ [] else high ++ ((b'0' + n % 10) ∷ [])

unfoldable pub decimal : ℕ → Text
unfolding decimal_fuel
decimal n = decimal_fuel (suc n) n

snoc_digit : ℕ → Option ℕ → Option ℕ
snoc_digit d none = none
snoc_digit d (some v) = some (v * 10 + d)

parse_digits-concat :
    (s : Text) (acc d : ℕ)
    → d < 10
    → parse_digits acc (s ++ (b'0' + d) ∷ []) ≡ snoc_digit d (parse_digits acc s)
unfolding parse_digits snoc_digit
parse_digits-concat [] acc d h = ground arith
parse_digits-concat (c ∷ s) acc d h =
    ground (arith, parse_digits-concat s (acc * 10 + (c - b'0')) d h)

parse_digits-decimal_fuel : (f n : ℕ) → n < f → parse_digits 0 (decimal_fuel f n) ≡ some n
unfolding decimal_fuel parse_digits snoc_digit
parse_digits-decimal_fuel zero n h = elim h [ ]
parse_digits-decimal_fuel (suc f) n h = ground (
  arith,
  parse_digits-concat (decimal_fuel f (n / 10)) 0 (n % 10) (omega arith),
  parse_digits-decimal_fuel f (n / 10),
)

abbrev pub IsNumeral : Text → Type 0
IsNumeral = All (λ c. is_digit c ≡ true)

decimal_fuel-IsNumeral : (f n : ℕ) → IsNumeral (decimal_fuel f n)
unfolding decimal_fuel
decimal_fuel-IsNumeral zero n = tt
decimal_fuel-IsNumeral (suc f) n = elim (Bool-cases (ltb n 10)) [
  | inl small ↦ rw small (ground arith, tt)
  | inr big ↦ rw big (
      All-append (λ c. is_digit c ≡ true) (decimal_fuel f (n / 10)) ((b'0' + n % 10) ∷ [])
        (decimal_fuel-IsNumeral f (n / 10)) (ground arith, tt))
]

-- Only digits are written.
pub decimal-IsNumeral : (n : ℕ) → IsNumeral (decimal n)
unfolding decimal
decimal-IsNumeral n = decimal_fuel-IsNumeral (suc n) n

concat-ne-nil : (s : Text) (c : ℕ) → s ++ c ∷ [] ≢ []
concat-ne-nil [] c = λ e. cc
concat-ne-nil (d ∷ s) c = λ e. cc

decimal-ne-nil : (n : ℕ) → decimal n ≢ []
unfolding decimal
decimal-ne-nil n = elim (Bool-cases (ltb n 10)) [
  | inl small ↦ rw small (λ e. cc)
  | inr big ↦ rw big (concat-ne-nil (decimal_fuel n (n / 10)) (b'0' + n % 10))
]

parse_nat_of_digits : (s : Text) {n : ℕ} → parse_digits 0 s ≡ some n → s ≢ [] → parse_nat s ≡ some n
parse_nat_of_digits [] h k = absurd (k refl)
parse_nat_of_digits (c ∷ s) h k = unfold parse_nat in h

-- What is written is read back.
pub parse_nat-decimal : (n : ℕ) → parse_nat (decimal n) ≡ some n
parse_nat-decimal n =
    parse_nat_of_digits (decimal n)
      (unfold decimal in parse_digits-decimal_fuel (suc n) n (omega arith)) (decimal-ne-nil n)

pub parse_uint-decimal : (bits n : ℕ) → n ≤ 2 ^ bits - 1 → parse_uint bits (decimal n) ≡ some n
parse_uint-decimal bits n h =
    unfold parse_uint in (ap (bounded (2 ^ bits - 1)) (parse_nat-decimal n) ∙ ground arith)

atoi_of_numeral :
    (s : Text) {n : ℕ} → IsNumeral s → parse_nat s ≡ some n → n < 2 ^ 63 → atoi s ≡ some (pos n)
unfolding atoi
atoi_of_numeral [] d e h = cc
atoi_of_numeral (c ∷ s) d e h = ground arith

-- The numeral of an int64 is what Atoi reads it as.
pub atoi-decimal : (n : ℕ) → n < 2 ^ 63 → atoi (decimal n) ≡ some (pos n)
atoi-decimal n h = atoi_of_numeral (decimal n) (decimal-IsNumeral n) (parse_nat-decimal n) h
