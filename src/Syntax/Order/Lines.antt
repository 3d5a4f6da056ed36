-- ===== src/Syntax/Order/Lines.antt =====
-- The spans of `highlightConfig` lie in the text, one behind the other, and no index of the list of
-- spans is out of range.
use wireguard_windows.Base.{
  ℕ, zero, suc, ◌+◌, ◌≤◌, ◌<◌, true, not, ◌&&◌, ◌||◌, ◌==◌, length, ok, ◌≡◌, refl, arith, inl, inr,
  Bool-cases,
}
use wireguard_windows.Base.Text.{Text}
use wireguard_windows.Syntax.{byte_at}
use wireguard_windows.Syntax.Highlight.{delimiter, error, comment, Spans, span}
use wireguard_windows.Syntax.Scan.{
  State, on_none, on_key, on_value, on_comment, on_section, Scanner, initial, is_comment, is_key,
  flush, start_line, longer, on_blank, on_equals, on_other, next_state, scan_byte, scan_loop,
  highlight_config,
}
use wireguard_windows.Syntax.Order.{
  Within, Good, Good-widen, append-Good, append-one, Yields, Yields->>=,
}
use wireguard_windows.Syntax.Order.Values.{highlight_value-Good}

-- The spans end in front of the current item; of a value, in front of its '=', and its length up to
-- the last space counts once the item is not empty.
abbrev StateInv : State → Scanner → Type 0
StateInv on_value k =
    Good 0 k.ret k.equals_location
    × (k.equals_location < k.current_span.s)
    × (1 ≤ k.current_span.len → k.len_at_last_space ≤ k.current_span.len)
StateInv _ k = Good 0 k.ret k.current_span.s × (k.len_at_last_space ≤ k.current_span.len)

-- In front of the byte at `i`, where the current item ends.
record ScanInv (i : ℕ) (k : Scanner) : Type 0 where
  known : StateInv k.state k
  item : k.current_span.s + k.current_span.len ≡ i

forget : {hsa : Spans} {hi : ℕ} → Good 1 hsa hi → Good 0 hsa hi
forget h = record { within = h.within; at_least = omega arith }

module _ (b : Text) where
  flush-Good :
      (st : State) (i : ℕ) (k : Scanner)
      → StateInv st k
      → k.current_span.s + k.current_span.len ≡ i
      → Yields (λ k'. Good 0 k'.ret i) (flush b st k)
  unfolding flush
  flush-Good on_none i k (g, s) l = (_, refl, Good-widen g (omega arith))
  flush-Good on_key i k (g, s) l = (
    _,
    refl,
    append-Good (span k.current_span.s k.len_at_last_space) error g (omega arith) (omega arith),
  )
  flush-Good on_section i k (g, s) l = (
    _,
    refl,
    append-Good (span k.current_span.s k.len_at_last_space) _ g (omega arith) (omega arith),
  )
  flush-Good on_comment i k (g, s) l =
      (_, refl, append-Good k.current_span comment g (omega arith) (omega arith))
  flush-Good on_value i k (g, lt, s) l = elim (Bool-cases (k.current_span.len == 0)) [
    | inl y ↦
        rw y (_, refl, forget (append-one k.equals_location i error g (omega arith) (omega arith)))
    | inr f ↦
        let behind =
          append-one k.equals_location k.current_span.s delimiter g (omega arith) (omega arith) in
        let shorter = s (ground arith) in
        let (r, e, h) =
          highlight_value-Good b {hi = i} (span k.current_span.s k.len_at_last_space)
            k.current_field behind (omega arith) (omega arith) in
        rw (f, e) (_, refl, forget h)
  ]

  start_line-ScanInv : (i : ℕ) (k : Scanner) → Good 0 k.ret i → ScanInv (i + 1) (start_line b i k)
  unfolding start_line
  start_line-ScanInv i k g = elim (Bool-cases (byte_at b i == b'#')) [
    | inl y ↦ rw y (record { known = (g, omega arith); item = omega arith })
    | inr f ↦
        rw f (record { known = (Good-widen g (omega arith), omega arith); item = omega arith })
  ]

  longer-StateInv :
      (st : State) (k : Scanner) → 1 ≤ k.current_span.len → StateInv st k → StateInv st (longer b k)
  unfolding longer
  longer-StateInv on_value k one (g, lt, s) = (g, lt, λ _. let h = s one in omega arith)
  longer-StateInv on_none k one (g, s) = (g, omega arith)
  longer-StateInv on_key k one (g, s) = (g, omega arith)
  longer-StateInv on_section k one (g, s) = (g, omega arith)
  longer-StateInv on_comment k one (g, s) = (g, omega arith)

  skip-StateInv :
      (st : State) (k : Scanner)
      → k.current_span.len ≡ 0
      → StateInv st k
      → StateInv st (record k { current_span = span (k.current_span.s + 1) k.current_span.len })
  skip-StateInv on_value k e (g, lt, s) = (g, omega arith, λ h. absurd (omega arith))
  skip-StateInv on_none k e (g, s) = (Good-widen g (omega arith), s)
  skip-StateInv on_key k e (g, s) = (Good-widen g (omega arith), s)
  skip-StateInv on_section k e (g, s) = (Good-widen g (omega arith), s)
  skip-StateInv on_comment k e (g, s) = (Good-widen g (omega arith), s)

  comment-StateInv :
      (st : State) (k : Scanner) → is_comment st ≡ true → StateInv st k → StateInv st (longer b k)
  unfolding longer is_comment
  comment-StateInv on_comment k e (g, s) = (g, omega arith)
  comment-StateInv _ k e v = cc

  on_blank-ScanInv : (i : ℕ) (k : Scanner) → ScanInv i k → ScanInv (i + 1) (on_blank b i k)
  unfolding on_blank
  on_blank-ScanInv i k v =
      let l = v.item in
      elim (Bool-cases (i == k.current_span.s && k.current_span.len == 0)) [
        | inl y ↦
            rw y (record {
              known = skip-StateInv k.state k (ground arith) v.known;
              item = omega arith;
            })
        | inr f ↦ rw f (record {
          known = longer-StateInv k.state k (ground arith) v.known;
          item = unfold longer in omega arith;
        })
      ]

  on_equals-ScanInv :
      (i : ℕ) (k : Scanner)
      → StateInv on_key k
      → k.current_span.s + k.current_span.len ≡ i
      → ScanInv (i + 1) (on_equals b i k)
  unfolding on_equals
  on_equals-ScanInv i k (g, s) l = record {
    known = (
      append-Good (span k.current_span.s k.len_at_last_space) _ g (omega arith) (omega arith),
      omega arith,
      λ h. absurd (omega arith),
    );
    item = omega arith;
  }

  on_other-StateInv :
      (st : State) (i : ℕ) (k : Scanner)
      → StateInv st k
      → StateInv (next_state b (byte_at b i) st) (record k {
        state = next_state b (byte_at b i) st;
        current_span = span k.current_span.s (k.current_span.len + 1);
        len_at_last_space = k.current_span.len + 1;
      })
  on_other-StateInv on_value i k (g, lt, s) = (g, lt, λ h. omega arith)
  on_other-StateInv on_none i k (g, s) = elim (Bool-cases (byte_at b i == b'[')) [
    | inl y ↦ rw y (g, omega arith)
    | inr f ↦ rw f (g, omega arith)
  ]
  on_other-StateInv on_key i k (g, s) = (g, omega arith)
  on_other-StateInv on_section i k (g, s) = (g, omega arith)
  on_other-StateInv on_comment i k (g, s) = (g, omega arith)

  equals-ScanInv :
      (st : State) (i : ℕ) (k : Scanner)
      → is_key st ≡ true
      → StateInv st k
      → k.current_span.s + k.current_span.len ≡ i
      → ScanInv (i + 1) (on_equals b i k)
  unfolding is_key
  equals-ScanInv on_key i k e v l = on_equals-ScanInv i k v l
  equals-ScanInv _ i k e v l = cc

  scan_byte-ScanInv :
      (i : ℕ) (k : Scanner) → ScanInv i k → Yields (ScanInv (i + 1)) (scan_byte b i k)
  unfolding scan_byte
  scan_byte-ScanInv i k v =
      let c = byte_at b i in
      let l = v.item in
      elim (Bool-cases (c == 10 || (not (is_comment k.state) && c == b'#'))) [
        | inl y ↦ rw y (
            Yields->>= (λ k'. Good 0 k'.ret i) (ScanInv (i + 1)) (flush b k.state k) _
              (flush-Good k.state i k v.known l) (λ k' g. (_, refl, start_line-ScanInv i k' g)))
        | inr f ↦ elim (Bool-cases (is_comment k.state)) [
          | inl y ↦
              rw (f, y)
                (
                  _,
                  refl,
                  record {
                    known = comment-StateInv k.state k y v.known;
                    item = unfold longer in omega arith;
                  },
                )
          | inr g ↦ elim (Bool-cases (c == b' ' || c == 9)) [
            | inl y ↦ rw (f, g, y) (_, refl, on_blank-ScanInv i k v)
            | inr h ↦ elim (Bool-cases (c == b'=' && is_key k.state)) [
              | inl y ↦
                  rw (f, g, h, y) (_, refl, equals-ScanInv k.state i k (ground arith) v.known l)
              | inr m ↦
                  rw (f, g, h, m)
                    (
                      _,
                      refl,
                      unfold on_other in
                          record {
                            known = on_other-StateInv k.state i k v.known;
                            item = omega arith;
                          },
                    )
            ]
          ]
        ]
      ]

  scan_loop-ScanInv :
      (n i hi : ℕ) (k : Scanner)
      → i + n ≡ hi
      → ScanInv i k
      → Yields (ScanInv hi) (scan_loop b n i k)
  unfolding scan_loop
  scan_loop-ScanInv zero i hi k e v = (k, refl, let h : i ≡ hi = omega arith in rw h at v)
  scan_loop-ScanInv (suc n) i hi k e v =
      Yields->>= (ScanInv (i + 1)) (ScanInv hi) (scan_byte b i k) _ (scan_byte-ScanInv i k v)
        (λ k' w. scan_loop-ScanInv n (i + 1) hi k' (omega arith) w)

-- On every text `highlightConfig` returns, without an index out of range, and its spans are not
-- empty, lie in the text and stand one behind the other.
pub highlight_config-Within :
    (s : Text) → (spans : Spans) × (highlight_config s ≡ ok spans) × Within 0 spans (length s)
unfolding highlight_config
highlight_config-Within s =
    let start : ScanInv 0 initial = record {
      known = (record { within = omega arith; at_least = omega arith }, omega arith);
      item = omega arith;
    } in
    Yields->>= (ScanInv (length s)) (λ spans. Within 0 spans (length s))
      (scan_loop s (length s) 0 initial) _
      (scan_loop-ScanInv s (length s) 0 (length s) initial (omega arith) start)
      (λ k v.
        Yields->>= (λ k'. Good 0 k'.ret (length s)) (λ spans. Within 0 spans (length s))
          (flush s k.state k) _ (flush-Good s k.state (length s) k v.known v.item)
          (λ k' g. (_, refl, g.within)))
