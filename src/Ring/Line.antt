-- ===== src/Ring/Line.antt =====
-- ringlogger/ringlogger.go: what a reader of a line of the log gets.
use wireguard_windows.Base.{
  ℕ, zero, suc, ◌-◌, ◌≤◌, List, [], ◌∷◌, ◌++◌, some, ◌≡◌, refl, ap, arith, length, take, replicate,
}
use wireguard_windows.Base.Text.{Text, index_byte}
use wireguard_windows.Base.Text.Cuts.{Lacks}
use wireguard_windows.Ring.{entry}
use wireguard_windows.Ring.Fill.{cut, shown, line_of, cut-le}

index_byte-append : (s rest : Text) → Lacks 0 s → index_byte 0 (s ++ 0 ∷ rest) ≡ some (length s)
unfolding index_byte
index_byte-append [] rest h = refl
index_byte-append (c ∷ s) rest h = rw (h.0, index_byte-append s rest h.1)

take-append : (s rest : List ℕ) → take (length s) (s ++ rest) ≡ s
take-append [] rest = refl
take-append (c ∷ s) rest = ap (◌∷◌ c) (take-append s rest)

Lacks-append : (b : ℕ) (s t : Text) → Lacks b s → Lacks b t → Lacks b (s ++ t)
Lacks-append b [] t h k = k
Lacks-append b (c ∷ s) t h k = (h.0, Lacks-append b s t h.1 k)

Lacks-take : (b n : ℕ) (s : Text) → Lacks b s → Lacks b (take n s)
Lacks-take b zero s h = tt
Lacks-take b (suc n) [] h = tt
Lacks-take b (suc n) (c ∷ s) h = (h.0, Lacks-take b n s h.1)

-- A reader of a line gets the text that is shown, and the time.
pub entry-line_of :
    (tag p : Text) (ts : ℕ)
    → length tag ≤ 5
    → Lacks 0 tag
    → Lacks 0 p
    → entry (line_of tag p ts) ≡ record { text = shown tag p; stamp = ts } ∷ []
entry-line_of tag p ts short ht hp =
    let k = 509 - length tag - length (cut tag p) in
    let e : k ≡ suc (k - 1) = omega (arith, cut-le tag p short) in
    let f : (line_of tag p ts).line ≡ shown tag p ++ 0 ∷ replicate (k - 1) 0 =
      ap (λ n. shown tag p ++ replicate n 0) e in
    let clean : Lacks 0 (shown tag p) = (
      refl,
      Lacks-append 0 tag (b']' ∷ b' ' ∷ cut tag p) ht
          (refl, (refl, Lacks-take 0 (508 - length tag) p hp)),
    ) in
    unfold entry in
    rw (f, index_byte-append (shown tag p) (replicate (k - 1) 0) clean)
      (rw (take-append (shown tag p) (0 ∷ replicate (k - 1) 0)))
