-- ===== src/Syntax/Order.antt =====
-- The spans of `highlightConfig` are put one behind the other: its steps. The text as a whole is in
-- `Lines`.
pub mod Values
pub mod Lines
use wireguard_windows.Base.{
  ℕ, zero, suc, ◌+◌, ◌-◌, ◌≤◌, ◌<◌, Bool, true, false, not, ◌&&◌, ◌||◌, List, [], ◌∷◌, ◌++◌, Option,
  none, some, if◌then◌else◌, ◌==◌, ltb, length, Result, ok, err, panic, ◌>>=◌, ◌≡◌, refl, arith,
  inl, inr, Bool-cases, Option-cases,
}
use wireguard_windows.Base.Text.{Text}
use wireguard_windows.Syntax.{
  StringSpan, byte_at, at, is_valid_hostname, is_valid_ipv4, is_valid_ipv6,
}
use wireguard_windows.Syntax.Accept.{
  find_byte, is_valid_endpoint, is_valid_network, is_valid_ws_url,
}
use wireguard_windows.Syntax.Fields.{
  Field, invalid, private_key, listen_port, address, dns, mtu, table, pre_up, post_up, pre_down,
  post_down, public_key, preshared_key, allowed_ips, endpoint, persistent_keepalive, ws_mode,
  ws_tunnel_target, ws_bearer, ws_mask, ws_tls_ca, ws_tls_cert, ws_tls_key, ws_tls_insecure,
  ws_ping_interval, ws_backoff_min, ws_backoff_max,
}
use wireguard_windows.Syntax.Highlight.{
  Highlight, delimiter, error, ip, cidr, host, port, HighlightSpan, Spans, is_delimiter, append,
  mark_last, span, append_around, last_colon, network_value, highlight_multivalue_value,
  multivalue_loop, highlight_multivalue, highlight_endpoint, highlight_value,
}

-- The spans are not empty, stand one behind the other from `lo` on, and end by `hi`.
abbrev pub Within : ℕ → Spans → ℕ → Type 0
Within lo [] hi = lo ≤ hi
Within lo (x ∷ hsa) hi = (lo ≤ x.s) × (1 ≤ x.len) × Within (x.s + x.len) hsa hi

pub Within-widen : (lo : ℕ) (hsa : Spans) (m hi : ℕ) → Within lo hsa m → m ≤ hi → Within lo hsa hi
Within-widen lo [] m hi h le = omega arith
Within-widen lo (x ∷ hsa) m hi h le = (h.0, h.1, Within-widen (x.s + x.len) hsa m hi h.2 le)

Within-concat :
    (lo : ℕ) (hsa : Spans) (m : ℕ) (x : HighlightSpan) (hi : ℕ)
    → Within lo hsa m
    → m ≤ x.s
    → 1 ≤ x.len
    → x.s + x.len ≤ hi
    → Within lo (hsa ++ x ∷ []) hi
Within-concat lo [] m x hi h le len end = (omega arith, len, end)
Within-concat lo (y ∷ hsa) m x hi h le len end =
    (h.0, h.1, Within-concat (y.s + y.len) hsa m x hi h.2 le len end)

length-concat : (hsa : Spans) (x : HighlightSpan) → length (hsa ++ x ∷ []) ≡ length hsa + 1
length-concat [] x = refl
length-concat (y ∷ hsa) x = let e = length-concat hsa x in omega arith

-- At least `n` spans, in order, that end by `hi`.
pub record Good (n : ℕ) (hsa : Spans) (hi : ℕ) : Type 0 where
  pub within : Within 0 hsa hi
  pub at_least : n ≤ length hsa

pub Good-widen : {n : ℕ} {hsa : Spans} {m hi : ℕ} → Good n hsa m → m ≤ hi → Good n hsa hi
Good-widen {n} {hsa} {m} {hi} h le = record {
  within = Within-widen 0 hsa m hi h.within le;
  at_least = h.at_least;
}

pub append-Good :
    {n : ℕ} {hsa : Spans} {m hi : ℕ} (s : StringSpan) (t : Highlight)
    → Good n hsa m
    → m ≤ s.s
    → s.s + s.len ≤ hi
    → Good n (append hsa s t) hi
unfolding append
append-Good {n} {hsa} {m} {hi} s t h le end = elim (Bool-cases (s.len == 0)) [
  | inl y ↦ rw y (Good-widen h (omega arith))
  | inr f ↦
      let x : HighlightSpan = record { t = t; s = s.s; len = s.len } in
      rw f (record {
        within = Within-concat 0 hsa m x hi h.within le (ground arith) end;
        at_least = let e = length-concat hsa x in let g = h.at_least in omega arith;
      })
]

-- A span of one byte is there afterwards.
pub append-one :
    {n : ℕ} {hsa : Spans} {m : ℕ} (p hi : ℕ) (t : Highlight)
    → Good n hsa m
    → m ≤ p
    → p + 1 ≤ hi
    → Good 1 (append hsa (span p 1) t) hi
unfolding append
append-one {n} {hsa} {m} p hi t h le end =
    let x : HighlightSpan = record { t = t; s = p; len = 1 } in
    record {
      within = Within-concat 0 hsa m x hi h.within le (omega arith) end;
      at_least = let e = length-concat hsa x in omega arith;
    }

append_around-Good :
    {n : ℕ} {hsa : Spans} {m hi : ℕ} (s : StringSpan) (i : ℕ) (before after : Highlight)
    → Good n hsa m
    → m ≤ s.s
    → s.s + s.len ≤ hi
    → i < s.len
    → Good n (append_around hsa s i before after) hi
unfolding append_around
append_around-Good s i before after h le end lt =
    append-Good {m = s.s + i + 1} (span (s.s + (i + 1)) (s.len - i - 1)) after
      (append-Good {m = s.s + i} (span (s.s + i) 1) delimiter
        (append-Good (span s.s i) before h le (omega arith)) (omega arith) (omega arith))
      (omega arith) (omega arith)

-- A result that is there, with what holds of it.
abbrev pub Yields {ℓ κ} : {A : Type ℓ} → (A → Type κ) → Result ⊥ A → Type (ℓ ⊔ κ)
Yields {A} P m = (a : A) × (m ≡ ok a) × P a

pub Yields->>= {ℓ κ μ ν} :
    {A : Type ℓ} {B : Type κ} (P : A → Type μ) (Q : B → Type ν) (m : Result ⊥ A)
    (f : A → Result ⊥ B)
    → Yields P m
    → ((a : A) → P a → Yields Q (f a))
    → Yields Q (m >>= f)
Yields->>= P Q m f (a, e, p) k = rw e (k a p)

last_colon-lt : (b : Text) (s : StringSpan) (n : ℕ) → 1 ≤ n → last_colon b s n < n
last_colon-lt b s zero h = absurd (omega arith)
last_colon-lt b s (suc zero) h = ground arith
last_colon-lt b s (suc (suc n)) h = let l = last_colon-lt b s (suc n) (omega arith) in ground arith

find_byte-lt :
    (b : Text) (c : ℕ) (s : StringSpan) (n i : ℕ) {k : ℕ} → find_byte b c s n i ≡ some k → k < i + n
unfolding find_byte
find_byte-lt b c s zero i h = cc
find_byte-lt b c s (suc n) i {k} h = elim (Bool-cases (at b s i == c)) [
  | inl y ↦ let e : some i ≡ some k = rw y at h in ground arith
  | inr f ↦ let l = find_byte-lt b c s n (i + 1) (rw f at h) in omega arith
]

pub mark_last-Within :
    (lo : ℕ) (hsa : Spans) (hi : ℕ)
    → Within lo hsa hi
    → 1 ≤ length hsa
    → Yields (λ r. Within lo r hi × (1 ≤ length r)) (mark_last hsa)
unfolding mark_last
mark_last-Within lo [] hi h one = absurd (omega arith)
mark_last-Within lo (x ∷ []) hi h one = elim (Bool-cases (is_delimiter x.t)) [
  | inl y ↦ rw y (_, refl, (h, omega arith))
  | inr f ↦ rw f (_, refl, (h, omega arith))
]
mark_last-Within lo (x ∷ y ∷ hsa) hi h one =
    let (r, e, (w, l)) = mark_last-Within (x.s + x.len) (y ∷ hsa) hi h.2 (omega arith) in
    rw e (x ∷ r, refl, ((h.0, h.1, w), omega arith))

module _ (b : Text) where
  network_value-Good :
      {hsa : Spans} {m hi : ℕ} (s : StringSpan)
      → Good 1 hsa m
      → m ≤ s.s
      → s.s + s.len ≤ hi
      → Good 1 (network_value b hsa s) hi
  unfolding network_value
  network_value-Good {hsa} {m} {hi} s h le end = elim (Bool-cases (is_valid_network b s)) [
    | inr f ↦ rw f (append-Good s error h le end)
    | inl y ↦ elim (Option-cases (find_byte b b'/' s s.len 0)) [
      | inl e ↦ rw (y, e) (append-Good s ip h le end)
      | inr (k, e) ↦
          let lt = find_byte-lt b b'/' s s.len 0 e in
          rw (y, e) (append_around-Good s k ip cidr h le end (omega arith))
    ]
  ]

  pub highlight_multivalue_value-Good :
      {hsa : Spans} {m hi : ℕ} (s : StringSpan) (f : Field)
      → Good 1 hsa m
      → m ≤ s.s
      → s.s + s.len ≤ hi
      → Good 1 (highlight_multivalue_value b hsa s f) hi
  unfolding highlight_multivalue_value
  highlight_multivalue_value-Good s dns h le end = append-Good s _ h le end
  highlight_multivalue_value-Good s address h le end = network_value-Good s h le end
  highlight_multivalue_value-Good s allowed_ips h le end = network_value-Good s h le end
  highlight_multivalue_value-Good s _ h le end = append-Good s error h le end

  is_valid_endpoint-le : (s : StringSpan) → is_valid_endpoint b s ≡ true → 1 ≤ s.len
  unfolding is_valid_endpoint
  is_valid_endpoint-le s y = ground arith

  pub highlight_endpoint-Good :
      {hsa : Spans} {m hi : ℕ} (s : StringSpan)
      → Good 1 hsa m
      → m ≤ s.s
      → s.s + s.len ≤ hi
      → Good 1 (highlight_endpoint b hsa s) hi
  unfolding highlight_endpoint
  highlight_endpoint-Good s h le end = elim (Bool-cases (is_valid_ws_url b s)) [
    | inl y ↦ rw y (append-Good s host h le end)
    | inr f ↦ elim (Bool-cases (is_valid_endpoint b s)) [
      | inr g ↦ rw (f, g) (append-Good s error h le end)
      | inl y ↦
          rw (f, y)
            (append_around-Good s (last_colon b s s.len) host port h le end
              (last_colon-lt b s s.len (is_valid_endpoint-le s y)))
    ]
  ]
