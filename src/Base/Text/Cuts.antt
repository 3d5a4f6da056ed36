-- ===== src/Base/Text/Cuts.antt =====
-- Where a text is cut: a byte that does not occur, the parts on both sides of one that does.
use Prim.Native.Nat.{ℕ}
use mathlib.Core.Path.{◌≡◌, refl, ap}
use mathlib.Core.Bool.{false}
use mathlib.Core.Option.{none, some}
use mathlib.Core.Logic.{inl, inr}
use mathlib.Core.List.{List, [], ◌∷◌, ◌++◌}
use native.Mathlib.Omega.{arith}
use wireguard_windows.Base.Tests.{◌==◌, ==_refl, Bool-cases}
use wireguard_windows.Base.Lists.{All}
use wireguard_windows.Base.Text.{
  Text, occurs, index_byte, cut, cut_last, split, cons_first, cons_cut,
}

-- `b` does not occur.
abbrev pub Lacks : ℕ → Text → Type 0
Lacks b = All (λ c. (c == b) ≡ false)

pub cut_last-none : (b : ℕ) (t : Text) → Lacks b t → cut_last b t ≡ none
unfolding cut_last
cut_last-none b [] h = refl
cut_last-none b (c ∷ t) h = rw (cut_last-none b t h.1, h.0)

pub cut_last-append : (b : ℕ) (s t : Text) → Lacks b t → cut_last b (s ++ b ∷ t) ≡ some (s, t)
unfolding cut_last
cut_last-append b [] t h = rw (cut_last-none b t h, ==_refl)
cut_last-append b (c ∷ s) t h = rw (cut_last-append b s t h)

pub cut-none : (b : ℕ) (s : Text) → Lacks b s → cut b s ≡ (s, none)
unfolding cut
cut-none b [] h = refl
cut-none b (c ∷ s) h = rw h.0 (ap (cons_cut c) (cut-none b s h.1))

pub cut-append : (b : ℕ) (s t : Text) → Lacks b s → cut b (s ++ b ∷ t) ≡ (s, some t)
unfolding cut
cut-append b [] t h = rw ==_refl
cut-append b (c ∷ s) t h = rw h.0 (ap (cons_cut c) (cut-append b s t h.1))

pub split_none : (b : ℕ) (s : Text) → Lacks b s → split b s ≡ s ∷ []
unfolding split
split_none b [] h = refl
split_none b (c ∷ s) h = rw h.0 (ap (cons_first c) (split_none b s h.1))

pub split-append : (b : ℕ) (s t : Text) → Lacks b s → split b (s ++ b ∷ t) ≡ s ∷ split b t
unfolding split
split-append b [] t h = rw ==_refl
split-append b (c ∷ s) t h = rw h.0 (ap (cons_first c) (split-append b s t h.1))

-- A last byte other than `b` does not change whether `b` occurs.
pub index_byte-concat :
    (b c : ℕ) (s : Text)
    → (c == b) ≡ false
    → occurs (index_byte b (s ++ c ∷ [])) ≡ occurs (index_byte b s)
unfolding index_byte
index_byte-concat b c [] h = ground arith
index_byte-concat b c (d ∷ s) h = ground (arith, index_byte-concat b c s h)

pub Lacks-of_index_byte : (b : ℕ) (s : Text) → occurs (index_byte b s) ≡ false → Lacks b s
unfolding index_byte
Lacks-of_index_byte b [] h = tt
Lacks-of_index_byte b (c ∷ s) h = (ground arith, Lacks-of_index_byte b s (ground arith))

Lacks-cons_first :
    (b c : ℕ) (ts : List Text)
    → (c == b) ≡ false
    → All (Lacks b) ts
    → All (Lacks b) (cons_first c ts)
Lacks-cons_first b c [] h k = ((h, tt), tt)
Lacks-cons_first b c (t ∷ ts) h k = ((h, k.0), k.1)

-- No part of a split holds the separator.
pub split-Lacks : (b : ℕ) (s : Text) → All (Lacks b) (split b s)
unfolding split
split-Lacks b [] = (tt, tt)
split-Lacks b (c ∷ s) = elim (Bool-cases (c == b)) [
  | inl y ↦ rw y (tt, split-Lacks b s)
  | inr n ↦ rw n (Lacks-cons_first b c (split b s) n (split-Lacks b s))
]
