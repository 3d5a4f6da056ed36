-- ===== src/Ring/Fill.antt =====
-- ringlogger/ringlogger.go: the bytes that a write leaves in its line of the log.
use wireguard_windows.Base.{
  ok, true, false, length-replicate, ◌<◌, ℕ, zero, suc, ◌+◌, ◌-◌, ◌≤◌, List, [], ◌∷◌, ◌++◌, ltb,
  ◌≡◌, refl, sym, ap, ◌∙◌, inl, inr, Bool-cases, arith, length, set, take, replicate, length-append,
  length-take, append_assoc,
}
use wireguard_windows.Base.Text.{Text}
use wireguard_windows.Ring.{LogLine, copy_at, fit, store, store_from, fill}

copy_front :
    (src : List ℕ) (k : ℕ)
    → length src ≤ k
    → copy_at 0 src (replicate k 0) ≡ src ++ replicate (k - length src) 0
unfolding copy_at
copy_front [] k h = let e : k - 0 ≡ k = omega arith in rw e
copy_front (c ∷ src) zero h = absurd (omega arith)
copy_front (c ∷ src) (suc k) h =
    let e : suc k - suc (length src) ≡ k - length src = omega arith in
    rw e (ap (◌∷◌ c) (copy_front src k (omega arith)))

copy_at-append :
    (pre src : List ℕ) (k : ℕ)
    → length src ≤ k
    → copy_at (length pre) src (pre ++ replicate k 0) ≡ pre ++ (src ++ replicate (k - length src) 0)
unfolding copy_at
copy_at-append [] src k h = copy_front src k h
copy_at-append (x ∷ pre) src k h = ap (◌∷◌ x) (copy_at-append pre src k h)

set-append : (pre rest : List ℕ) (c v : ℕ) → set (pre ++ c ∷ rest) (length pre) v ≡ pre ++ v ∷ rest
set-append [] rest c v = refl
set-append (x ∷ pre) rest c v = ap (◌∷◌ x) (set-append pre rest c v)

set-replicate : (k i v : ℕ) → set (replicate k v) i v ≡ replicate k v
set-replicate zero i v = refl
set-replicate (suc k) zero v = refl
set-replicate (suc k) (suc i) v = ap (◌∷◌ v) (set-replicate k i v)

-- What of a message is shown: a line has 511 bytes of text, three of them around the tag.
abbrev pub cut : Text → Text → Text
cut tag p = take (508 - length tag) p

-- The line that is shown for a message.
abbrev pub shown : Text → Text → Text
shown tag p = b'[' ∷ (tag ++ (b']' ∷ b' ' ∷ cut tag p))

-- The line of a message, once it is written.
abbrev pub line_of : Text → Text → ℕ → LogLine
line_of tag p ts = record {
  time_ns = ts;
  line = shown tag p ++ replicate (509 - length tag - length (cut tag p)) 0;
}

take_all : (n : ℕ) (p : Text) → length p ≤ n → take n p ≡ p
take_all zero [] h = refl
take_all zero (c ∷ p) h = absurd (omega arith)
take_all (suc n) [] h = refl
take_all (suc n) (c ∷ p) h = ap (◌∷◌ c) (take_all n p (omega arith))

pub cut-le : (tag p : Text) → length tag ≤ 5 → length (cut tag p) + length tag ≤ 508
cut-le tag p h = omega (arith, length-take (508 - length tag) p)

store-ok :
    (at c : ℕ) (bytes : List ℕ) {result : List ℕ}
    → at < length bytes
    → set bytes at c ≡ result
    → store at c bytes ≡ ok result
unfolding store
store-ok at c bytes lt e = let y : ltb at (length bytes) ≡ true = ground arith in rw y (ap ok e)

store_from-ok :
    (at : ℕ) (src bytes : List ℕ) {result : List ℕ}
    → at ≤ length bytes
    → copy_at at src bytes ≡ result
    → store_from at src bytes ≡ ok result
unfolding store_from
store_from-ok at src bytes le e =
    let n : ltb (length bytes) at ≡ false = ground arith in rw n (ap ok e)

module _ (tag p : Text) (short : length tag ≤ 5) where
  -- The steps of `fill`: behind the tag, behind the bracket, behind the space, behind the message.
  with_tag : copy_at 1 tag (replicate 512 0) ≡ 0 ∷ (tag ++ replicate (511 - length tag) 0)
  with_tag = copy_at-append (0 ∷ []) tag 511 (omega arith)

  -- A write at the position behind `pre`, whatever way that position is written.
  set_behind :
      (pre : List ℕ) (k i v : ℕ)
      → i ≡ length pre
      → 1 ≤ k
      → set (pre ++ replicate k 0) i v ≡ pre ++ v ∷ replicate (k - 1) 0
  set_behind pre k i v e h =
      let f : k ≡ suc (k - 1) = omega arith in
      rw e (
        ap (λ n. set (pre ++ replicate n 0) (length pre) v) f
        ∙ set-append pre (replicate (k - 1) 0) 0 v)

  abbrev behind_tag : List ℕ
  behind_tag = 0 ∷ tag

  abbrev behind_bracket : List ℕ
  behind_bracket = 0 ∷ (tag ++ b']' ∷ [])

  abbrev behind_space : List ℕ
  behind_space = 0 ∷ ((tag ++ b']' ∷ []) ++ b' ' ∷ [])

  with_bracket :
      set (0 ∷ (tag ++ replicate (511 - length tag) 0)) (1 + length tag) b']'
      ≡ behind_bracket ++ replicate (510 - length tag) 0
  with_bracket =
      let e : 511 - length tag - 1 ≡ 510 - length tag = omega arith in
      set_behind behind_tag (511 - length tag) (1 + length tag) b']' (omega arith) (omega arith)
      ∙ rw (e, append_assoc)

  with_space :
      set (behind_bracket ++ replicate (510 - length tag) 0) (2 + length tag) b' '
      ≡ behind_space ++ replicate (509 - length tag) 0
  with_space =
      let e : 510 - length tag - 1 ≡ 509 - length tag = omega arith in
      set_behind behind_bracket (510 - length tag) (2 + length tag) b' '
        (omega (arith, length-append {0} tag (b']' ∷ []))) (omega arith)
      ∙ rw e (
          ap (◌∷◌ 0)
            (sym (append_assoc (tag ++ b']' ∷ []) (b' ' ∷ []) (replicate (509 - length tag) 0))))

  with_message :
      copy_at (3 + length tag) (cut tag p) (behind_space ++ replicate (509 - length tag) 0)
      ≡ behind_space ++ (cut tag p ++ replicate (509 - length tag - length (cut tag p)) 0)
  with_message =
      let e : 3 + length tag ≡ length behind_space = omega (
        arith,
        length-append {0} (tag ++ b']' ∷ []) (b' ' ∷ []),
        length-append {0} tag (b']' ∷ []),
      ) in
      rw e (
        copy_at-append behind_space (cut tag p) (509 - length tag)
          (omega (arith, cut-le tag p short)))

  abbrev zeros : List ℕ
  zeros = replicate 512 0

  fit-cut : (n : ℕ) × (fit tag p ≡ ok (cut tag p, n)) × (n < 512)
  fit-cut = elim (Bool-cases (ltb (512 - 1) (3 + length p + length tag))) [
    | inl y ↦
        let n : ltb (512 - 1) (3 + length tag) ≡ false = ground arith in
        (511, unfold fit in rw (y, n) refl, omega arith)
    | inr n ↦
        let all : cut tag p ≡ p = take_all (508 - length tag) p (ground arith) in
        (3 + length p + length tag, unfold fit in rw (n, all) refl, ground arith)
  ]

  length-behind : (pre : List ℕ) (k : ℕ) → length (pre ++ replicate k 0) ≡ length pre + k
  length-behind pre k =
      length-append {0} pre (replicate k 0) ∙ ap (◌+◌ (length pre)) (length-replicate {0} k 0)

  store_bracket :
      store (1 + length tag) b']' (copy_at 1 tag (set zeros 0 0))
      ≡ ok (behind_bracket ++ replicate (510 - length tag) 0)
  store_bracket =
      ap (store (1 + length tag) b']') with_tag
      ∙ store-ok (1 + length tag) b']' (behind_tag ++ replicate (511 - length tag) 0)
          (omega (arith, length-behind behind_tag (511 - length tag))) with_bracket

  store_space :
      store (2 + length tag) b' ' (behind_bracket ++ replicate (510 - length tag) 0)
      ≡ ok (behind_space ++ replicate (509 - length tag) 0)
  store_space =
      store-ok (2 + length tag) b' ' (behind_bracket ++ replicate (510 - length tag) 0)
        (omega (
          arith,
          length-behind behind_bracket (510 - length tag),
          length-append {0} tag (b']' ∷ []),
        ))
        with_space

  store_message :
      store_from (3 + length tag) (cut tag p) (behind_space ++ replicate (509 - length tag) 0)
      ≡ ok (behind_space ++ (cut tag p ++ replicate (509 - length tag - length (cut tag p)) 0))
  store_message =
      store_from-ok (3 + length tag) (cut tag p) (behind_space ++ replicate (509 - length tag) 0)
        (omega (
          arith,
          length-behind behind_space (509 - length tag),
          length-append {0} (tag ++ b']' ∷ []) (b' ' ∷ []),
          length-append {0} tag (b']' ∷ []),
        ))
        with_message

  -- The bytes of a line: the text that is shown, and NUL bytes up to its end.
  abbrev written : List ℕ
  written = (line_of tag p 0).line

  -- Every access of a write is in range.
  pub fill-written : fill tag p ≡ ok written
  unfolding fill
  fill-written =
      let (n, fits, lt) = fit-cut in
      let full : length zeros ≡ 512 = length-replicate {A = ℕ} 512 0 in
      let end = store-ok n 0 zeros (omega (arith, full, lt)) (set-replicate 512 n 0) in
      rw (fits, end, store_bracket, store_space, store_message)
        (store-ok 0 b'['
          (behind_space ++ (cut tag p ++ replicate (509 - length tag - length (cut tag p)) 0))
          (omega arith) (simp append_assoc))
