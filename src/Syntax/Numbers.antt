-- ===== src/Syntax/Numbers.antt =====
-- ui/syntax/highlighter.go: its tests of numbers, beside the parser's.
use wireguard_windows.Base.{
  ℕ, zero, suc, ◌+◌, ◌*◌, ◌-◌, ◌≤◌, ◌<◌, ◌^◌, true, false, [], ◌∷◌, none, some, length, take, drop,
  ok, ◌≡◌, ◌≢◌, refl, ◌∙◌, sym, arith, inl, inr, Bool-cases, Option-cases,
}
use wireguard_windows.Base.Text.{Text, codes, is_digit, text_eq, text_eq_refl}
use wireguard_windows.Base.Decimal.{pos, parse_digits, parse_nat, atoi}
use wireguard_windows.Conf.Values.{parse_port, parse_mtu, parse_persistent_keepalive}
use wireguard_windows.Syntax.{StringSpan, byte_at, same_at, is_same}
use wireguard_windows.Syntax.Accept.{
  decimal_loop, is_valid_uint, is_valid_port, is_valid_mtu, is_valid_persistent_keep_alive,
}

-- The bytes of a span.
abbrev pub text_of : Text → StringSpan → Text
text_of b s = take s.len (drop s.s b)

take-drop :
    (b : Text) (p n : ℕ)
    → p < length b
    → take (suc n) (drop p b) ≡ byte_at b p ∷ take n (drop (p + 1) b)
take-drop [] p n h = absurd (omega arith)
take-drop (c ∷ b) zero n h = refl
take-drop (c ∷ b) (suc p) n h =
    let e : suc p + 1 ≡ suc (p + 1) = omega arith in rw e (take-drop b p n (omega arith))

same_at-take :
    (b : Text) (p : ℕ) (c : Text)
    → p + length c ≤ length b
    → same_at b (λ x. x) p c ≡ true
    → take (length c) (drop p b) ≡ c
unfolding same_at
same_at-take b p [] h e = refl
same_at-take b p (c ∷ cs) h e =
    let step = take-drop b p (length cs) (omega arith) in
    let first : byte_at b p ≡ c = ground arith in
    let later = same_at-take b (p + 1) cs (omega arith) (ground arith) in
    step ∙ rw (first, later) refl

decimal_loop-parse_digits :
    (b : Text) (n p val : ℕ) {v : ℕ}
    → p + n ≤ length b
    → decimal_loop b n p val ≡ some v
    → parse_digits val (take n (drop p b)) ≡ some v
unfolding decimal_loop parse_digits
decimal_loop-parse_digits b zero p val h e = e
decimal_loop-parse_digits b (suc n) p val h e =
    let step = take-drop b p n (omega arith) in
    let digit : is_digit (byte_at b p) ≡ true = ground arith in
    let turn : val * 10 + (byte_at b p - b'0') ≡ 10 * val + (byte_at b p - b'0') = omega arith in
    let later =
      decimal_loop-parse_digits b n (p + 1) (10 * val + (byte_at b p - b'0')) (omega arith)
        (ground arith) in
    rw (step, digit, turn) later

first_digit : (acc c : ℕ) (t : Text) {v : ℕ} → parse_digits acc (c ∷ t) ≡ some v → is_digit c ≡ true
unfolding parse_digits
first_digit acc c t h = ground arith

atoi_of_digits :
    (c : ℕ) (t : Text) {v : ℕ}
    → parse_digits 0 (c ∷ t) ≡ some v
    → v < 2 ^ 63
    → atoi (c ∷ t) ≡ some (pos v)
unfolding atoi parse_nat
atoi_of_digits c t h lt = ground (arith, first_digit 0 c t h)

atoi_of_text :
    (t : Text) {v : ℕ} → t ≢ [] → parse_digits 0 t ≡ some v → v < 2 ^ 63 → atoi t ≡ some (pos v)
atoi_of_text [] ne h lt = absurd (ne refl)
atoi_of_text (c ∷ t) ne h lt = atoi_of_digits c t h lt

take-drop-ne-nil : (b : Text) (p n : ℕ) → p + n ≤ length b → 1 ≤ n → take n (drop p b) ≢ []
take-drop-ne-nil b p zero h one _ = absurd (omega arith)
take-drop-ne-nil b p (suc n) h one e =
    let f : byte_at b p ∷ take n (drop (p + 1) b) ≡ [] = sym (take-drop b p n (omega arith)) ∙ e in
    cc

-- A decimal number that the highlighter accepts is read by strconv.Atoi as a number in the range.
pub is_valid_uint-atoi :
    (b : Text) (s : StringSpan) (min max : ℕ)
    → max < 2 ^ 63
    → s.s + s.len ≤ length b
    → is_valid_uint b s false min max ≡ true
    → (n : ℕ) × (atoi (text_of b s) ≡ some (pos n)) × (min ≤ n) × (n ≤ max)
unfolding is_valid_uint
is_valid_uint-atoi b s min max small inside h = elim (Option-cases (decimal_loop b s.len s.s 0)) [
  | inl e ↦ absurd (contradiction e)
  | inr (v, e) ↦
      let digits = decimal_loop-parse_digits b s.len s.s 0 inside e in
      let le : v ≤ max = ground arith in
      (
        v,
        atoi_of_text (text_of b s) (take-drop-ne-nil b s.s s.len inside (ground arith)) digits
            (omega arith),
        ground arith,
        le,
      )
]
  where
    contradiction : decimal_loop b s.len s.s 0 ≡ none → ⊥
    contradiction e = ground arith

-- A port that the highlighter accepts, in a span of the text, is read by the parser of ports.
pub is_valid_port-parse_port :
    (b : Text) (s : StringSpan)
    → s.s + s.len ≤ length b
    → is_valid_port b s ≡ true
    → (n : ℕ) × (parse_port (text_of b s) ≡ ok n)
unfolding is_valid_port parse_port
is_valid_port-parse_port b s inside h =
    let (n, e, lo, hi) = is_valid_uint-atoi b s 0 65535 (omega arith) inside h in
    (n, rw e (ground arith))

-- An MTU that the highlighter accepts, in a span of the text, is read by the parser of MTUs.
pub is_valid_mtu-parse_mtu :
    (b : Text) (s : StringSpan)
    → s.s + s.len ≤ length b
    → is_valid_mtu b s ≡ true
    → (n : ℕ) × (parse_mtu (text_of b s) ≡ ok n)
unfolding is_valid_mtu parse_mtu
is_valid_mtu-parse_mtu b s inside h =
    let (n, e, lo, hi) = is_valid_uint-atoi b s 576 65535 (omega arith) inside h in
    (n, rw e (ground arith))

is_same-text_of :
    (b : Text) (s : StringSpan) (c : Text)
    → s.s + s.len ≤ length b
    → is_same b s c ≡ true
    → text_of b s ≡ c
unfolding is_same
is_same-text_of b s c inside h =
    let e : s.len ≡ length c = ground arith in
    let same : same_at b (λ x. x) s.s c ≡ true = ground arith in
    rw e (same_at-take b s.s c (omega arith) same)

-- A keepalive that the highlighter accepts, a number or `off`, in a span of the text, is read by
-- the parser of keepalives.
pub is_valid_persistent_keep_alive-parse_persistent_keepalive :
    (b : Text) (s : StringSpan)
    → s.s + s.len ≤ length b
    → is_valid_persistent_keep_alive b s ≡ true
    → (n : ℕ) × (parse_persistent_keepalive (text_of b s) ≡ ok n)
unfolding is_valid_persistent_keep_alive parse_persistent_keepalive
is_valid_persistent_keep_alive-parse_persistent_keepalive b s inside h =
    elim (Bool-cases (text_eq (text_of b s) (codes "off"))) [
      | inl y ↦ (0, rw y refl)
      | inr f ↦ elim (Bool-cases (is_same b s (codes "off"))) [
        | inl y ↦
            let t = is_same-text_of b s (codes "off") inside y in
            let e : text_eq (text_of b s) (codes "off") ≡ true =
              rw t (text_eq_refl (codes "off")) in
            cc
        | inr g ↦
            let (n, e, lo, hi) = is_valid_uint-atoi b s 0 65535 (omega arith) inside (rw g at h) in
            (n, rw (f, e) (ground arith))
      ]
    ]
