-- ===== src/Base/Text.antt =====
-- Go strings as lists of bytes, and the functions of package strings that the program calls.
-- `is_space` and `to_lower` are those of ASCII text.
pub mod Cuts
use Prim.Native.Char.{code}
use Prim.Native.String.{String}
use Prim.Native.Nat.{ℕ, suc, ◌+◌}
use mathlib.Core.Path.{◌≡◌, refl, ap, ◌∙◌}
use mathlib.Core.Logic.{◌↔◌, inl, inr}
use mathlib.Core.Bool.{Bool, true, false, ◌&&◌, ◌||◌}
use mathlib.Core.Option.{Option, none, some}
use mathlib.Core.List.{List, [], ◌∷◌, ◌++◌, map}
use native.Mathlib.Omega.{arith}
use wireguard_windows.Base.Tests.{leb, ◌==◌, if◌then◌else◌, Bool-cases}
use wireguard_windows.Base.Lists.{All, length, drop}

abbrev pub Text : Type 0
Text = List ℕ

-- The bytes of an ASCII literal.
abbrev pub codes : String → Text
codes String.[] = []
codes (String.◌∷◌ c s) = code c ∷ codes s

unfoldable pub text_eq : Text → Text → Bool
text_eq [] [] = true
text_eq (x ∷ s) (y ∷ t) = x == y && text_eq s t
text_eq _ _ = false

pub text_eq_iff : (s t : Text) → (text_eq s t ≡ true) ↔ (s ≡ t)
unfolding text_eq
text_eq_iff (x ∷ s) (y ∷ t) = ground (arith, text_eq_iff s t)
text_eq_iff _ _ = ground arith

pub text_eq_refl : (s : Text) → text_eq s s ≡ true
text_eq_refl s = (text_eq_iff s s).1 refl

abbrev pub is_empty {ℓ} : {A : Type ℓ} → List A → Bool
is_empty [] = true
is_empty (x ∷ s) = false

abbrev pub is_digit : ℕ → Bool
is_digit c = leb b'0' c && leb c b'9'

abbrev pub is_lower : ℕ → Bool
is_lower c = leb b'a' c && leb c b'z'

abbrev pub is_upper : ℕ → Bool
is_upper c = leb b'A' c && leb c b'Z'

-- strings.ToLower
unfoldable pub lower : ℕ → ℕ
lower c = if is_upper c then c + 32 else c

abbrev pub to_lower : Text → Text
to_lower = map lower

pub lower_idem : (c : ℕ) → lower (lower c) ≡ lower c
unfolding lower
lower_idem c = ground arith

pub to_lower_idem : (s : Text) → to_lower (to_lower s) ≡ to_lower s
to_lower_idem [] = refl
to_lower_idem (c ∷ s) = cc (lower_idem c, to_lower_idem s)

-- unicode.IsSpace
unfoldable pub is_space : ℕ → Bool
is_space c = c == b' ' || (leb 9 c && leb c 13)

-- The cut set " \t\r" of the parser.
unfoldable pub is_blank : ℕ → Bool
is_blank c = c == b' ' || c == 9 || c == 13

-- strings.TrimLeft and strings.TrimRight for a set of bytes.
unfoldable pub trim_left : (ℕ → Bool) → Text → Text
trim_left p [] = []
trim_left p (c ∷ s) = if p c then trim_left p s else c ∷ s

abbrev pub cons_trimmed : (ℕ → Bool) → ℕ → Text → Text
cons_trimmed p c [] = if p c then [] else c ∷ []
cons_trimmed p c (d ∷ s) = c ∷ d ∷ s

unfoldable pub trim_right : (ℕ → Bool) → Text → Text
trim_right p [] = []
trim_right p (c ∷ s) = cons_trimmed p c (trim_right p s)

-- strings.TrimSpace
unfoldable pub trim_space : Text → Text
unfolding trim_left trim_right is_space
trim_space s = trim_left is_space (trim_right is_space s)

-- A text that neither begins nor ends with a byte of `p`.
abbrev pub EndsWell : (ℕ → Bool) → Text → Type 0
EndsWell p [] = Unit
EndsWell p (c ∷ []) = p c ≡ false
EndsWell p (c ∷ d ∷ s) = EndsWell p (d ∷ s)

abbrev pub StartsWell : (ℕ → Bool) → Text → Type 0
StartsWell p [] = Unit
StartsWell p (c ∷ s) = p c ≡ false

abbrev pub IsTrimmed : Text → Type 0
IsTrimmed s = StartsWell is_space s × EndsWell is_space s

module _ (p : ℕ → Bool) where
  pub trim_left_id : (s : Text) → StartsWell p s → trim_left p s ≡ s
  unfolding trim_left
  trim_left_id [] h = refl
  trim_left_id (c ∷ s) h = rw h

  pub trim_right_id : (s : Text) → EndsWell p s → trim_right p s ≡ s
  unfolding trim_right
  trim_right_id [] h = refl
  trim_right_id (c ∷ []) h = rw h
  trim_right_id (c ∷ d ∷ s) h = ap (cons_trimmed p c) (unfold trim_right in trim_right_id (d ∷ s) h)

  pub trim_left-All : (s t : Text) → All (λ c. p c ≡ true) s → trim_left p (s ++ t) ≡ trim_left p t
  unfolding trim_left
  trim_left-All [] t h = refl
  trim_left-All (c ∷ s) t h = rw h.0 (trim_left-All s t h.1)

  trim_right_nil : (s : Text) → All (λ c. p c ≡ true) s → trim_right p s ≡ []
  unfolding trim_right
  trim_right_nil [] h = refl
  trim_right_nil (c ∷ s) h = rw (trim_right_nil s h.1, h.0)

  pub trim_right-All :
      (s t : Text) → EndsWell p s → All (λ c. p c ≡ true) t → trim_right p (s ++ t) ≡ s
  unfolding trim_right
  trim_right-All [] t e h = trim_right_nil t h
  trim_right-All (c ∷ []) t e h = rw (trim_right_nil t h, e)
  trim_right-All (c ∷ d ∷ s) t e h =
      ap (cons_trimmed p c) (unfold trim_right in trim_right-All (d ∷ s) t e h)

  -- What is trimmed on the right ends well, and the left end is kept.
  cons_trimmed-EndsWell : (c : ℕ) (s : Text) → EndsWell p s → EndsWell p (cons_trimmed p c s)
  cons_trimmed-EndsWell c [] h = elim (Bool-cases (p c)) [ inl e ↦ rw e tt | inr e ↦ rw e e ]
  cons_trimmed-EndsWell c (d ∷ s) h = h

  pub trim_right-EndsWell : (s : Text) → EndsWell p (trim_right p s)
  unfolding trim_right
  trim_right-EndsWell [] = tt
  trim_right-EndsWell (c ∷ s) = cons_trimmed-EndsWell c (trim_right p s) (trim_right-EndsWell s)

  pub trim_left-StartsWell : (s : Text) → StartsWell p (trim_left p s)
  unfolding trim_left
  trim_left-StartsWell [] = tt
  trim_left-StartsWell (c ∷ s) = elim (Bool-cases (p c)) [
    | inl e ↦ rw e (trim_left-StartsWell s)
    | inr e ↦ rw e e
  ]

  EndsWell-tail : (c : ℕ) (s : Text) → EndsWell p (c ∷ s) → EndsWell p s
  EndsWell-tail c [] h = tt
  EndsWell-tail c (d ∷ s) h = h

  pub trim_left-EndsWell : (s : Text) → EndsWell p s → EndsWell p (trim_left p s)
  unfolding trim_left
  trim_left-EndsWell [] h = tt
  trim_left-EndsWell (c ∷ s) h = elim (Bool-cases (p c)) [
    | inl e ↦ rw e (trim_left-EndsWell s (EndsWell-tail c s h))
    | inr e ↦ rw e h
  ]

pub trim_space_id : (s : Text) → IsTrimmed s → trim_space s ≡ s
trim_space_id s h =
    unfold trim_space in
    (ap (trim_left is_space) (trim_right_id is_space s h.1) ∙ trim_left_id is_space s h.0)

pub trim_space-IsTrimmed : (s : Text) → IsTrimmed (trim_space s)
trim_space-IsTrimmed s =
    unfold trim_space in
    (
      trim_left-StartsWell is_space (trim_right is_space s),
      trim_left-EndsWell is_space (trim_right is_space s) (trim_right-EndsWell is_space s),
    )

-- strings.HasPrefix
unfoldable pub has_prefix : Text → Text → Bool
has_prefix s [] = true
has_prefix [] (p ∷ ps) = false
has_prefix (c ∷ s) (p ∷ ps) = c == p && has_prefix s ps

-- strings.IndexByte and strings.LastIndexByte; `none` is -1.
abbrev pub occurs : Option ℕ → Bool
occurs none = false
occurs (some _) = true

abbrev next_index : Option ℕ → Option ℕ
next_index none = none
next_index (some i) = some (suc i)

unfoldable pub index_byte : ℕ → Text → Option ℕ
index_byte b [] = none
index_byte b (c ∷ s) = let later = index_byte b s in if c == b then some 0 else next_index later

abbrev last_of : Bool → Option ℕ → Option ℕ
last_of here (some i) = some (suc i)
last_of true none = some 0
last_of false none = none

unfoldable pub last_index_byte : ℕ → Text → Option ℕ
last_index_byte b [] = none
last_index_byte b (c ∷ s) = last_of (c == b) (last_index_byte b s)

-- strings.Cut at one byte: what stands before it, and what stands behind it if it was found.
abbrev pub cons_cut : ℕ → Text × Option Text → Text × Option Text
cons_cut c (s, after) = (c ∷ s, after)

unfoldable pub cut : ℕ → Text → Text × Option Text
cut b [] = ([], none)
cut b (c ∷ s) = let later = cut b s in if c == b then ([], some s) else cons_cut c later

-- The same at the last such byte: `s[:i]` and `s[i+1:]` for i = strings.LastIndexByte(s, b).
abbrev cons_last : Bool → ℕ → Text → Option (Text × Text) → Option (Text × Text)
cons_last here c s (some (before, after)) = some (c ∷ before, after)
cons_last true c s none = some ([], s)
cons_last false c s none = none

unfoldable pub cut_last : ℕ → Text → Option (Text × Text)
cut_last b [] = none
cut_last b (c ∷ s) = cons_last (c == b) c s (cut_last b s)

-- strings.Split at one byte.
abbrev pub cons_first : ℕ → List Text → List Text
cons_first c [] = (c ∷ []) ∷ []
cons_first c (t ∷ ts) = (c ∷ t) ∷ ts

unfoldable pub split : ℕ → Text → List Text
split b [] = [] ∷ []
split b (c ∷ s) = let later = split b s in if c == b then [] ∷ later else cons_first c later

-- strings.Join
unfoldable pub join : Text → List Text → Text
join sep [] = []
join sep (t ∷ []) = t
join sep (t ∷ u ∷ ts) = t ++ (sep ++ join sep (u ∷ ts))

-- strings.Cut at a text.
unfoldable pub cut_at : Text → Text → Option (Text × Text)
unfolding has_prefix
cut_at sep [] = if has_prefix [] sep then some ([], []) else none
cut_at sep (c ∷ s) =
    let later = cut_at sep s in
    if has_prefix (c ∷ s) sep
    then some ([], drop (length sep) (c ∷ s))
    else elim later [ none ↦ none | some (before, after) ↦ some (c ∷ before, after) ]

trim_left-cons_trimmed :
    (p : ℕ → Bool) (c : ℕ) (s : Text)
    → p c ≡ true
    → trim_left p (cons_trimmed p c s) ≡ trim_left p s
unfolding trim_left
trim_left-cons_trimmed p c [] h = rw h
trim_left-cons_trimmed p c (d ∷ s) h = rw h

-- A space in front changes nothing.
pub trim_space_cons : (c : ℕ) (s : Text) → is_space c ≡ true → trim_space (c ∷ s) ≡ trim_space s
trim_space_cons c s h =
    unfold trim_space in trim_left-cons_trimmed is_space c (trim_right is_space s) h

-- What holds of every byte holds of every byte that is left.
module _ {ℓ} (P : ℕ → Type ℓ) (p : ℕ → Bool) where
  pub All-trim_left : (s : Text) → All P s → All P (trim_left p s)
  unfolding trim_left
  All-trim_left [] h = tt
  All-trim_left (c ∷ s) h = elim (Bool-cases (p c)) [
    | inl y ↦ rw y (All-trim_left s h.1)
    | inr n ↦ rw n h
  ]

  All-cons_trimmed : (c : ℕ) (s : Text) → P c → All P s → All P (cons_trimmed p c s)
  All-cons_trimmed c [] h k = elim (Bool-cases (p c)) [ inl y ↦ rw y tt | inr n ↦ rw n (h, tt) ]
  All-cons_trimmed c (d ∷ s) h k = (h, k)

  pub All-trim_right : (s : Text) → All P s → All P (trim_right p s)
  unfolding trim_right
  All-trim_right [] h = tt
  All-trim_right (c ∷ s) h = All-cons_trimmed c (trim_right p s) h.0 (All-trim_right s h.1)

pub All-trim_space {ℓ} : (P : ℕ → Type ℓ) (s : Text) → All P s → All P (trim_space s)
All-trim_space P s h =
    unfold trim_space in
    All-trim_left P is_space (trim_right is_space s) (All-trim_right P is_space s h)
