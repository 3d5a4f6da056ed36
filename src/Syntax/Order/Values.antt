-- ===== src/Syntax/Order/Values.antt =====
-- The spans of one value, `highlightValue`, stand behind those that were there.
use wireguard_windows.Base.{
  ℕ, zero, suc, ◌+◌, ◌≤◌, ◌&&◌, ◌||◌, ◌==◌, ◌≡◌, refl, arith, inl, inr, Bool-cases,
}
use wireguard_windows.Base.Text.{Text}
use wireguard_windows.Syntax.{StringSpan, byte_at}
use wireguard_windows.Syntax.Fields.{Field, address, dns, allowed_ips, endpoint}
use wireguard_windows.Syntax.Highlight.{
  delimiter, Spans, span, multivalue_loop, highlight_multivalue, highlight_value,
}
use wireguard_windows.Syntax.Order.{
  Within-widen, Good, Good-widen, append-Good, append-one, Yields, mark_last-Within,
  highlight_multivalue_value-Good, highlight_endpoint-Good,
}

-- In front of the byte at `p`: the spans end where the current item begins, and the item is read
-- up to `p`.
record MultiInv (p : ℕ) (hsa : Spans) (current : StringSpan) (last_space : ℕ) : Type 0 where
  spans : Good 1 hsa current.s
  shorter : last_space ≤ current.len
  item : current.s + current.len ≤ p

-- The list and the last item of a loop that ended by `hi`.
record MultiEnd (hi : ℕ) (r : Spans × StringSpan) : Type 0 where
  spans : Good 1 r.0 r.1.s
  item : r.1.s + r.1.len ≤ hi

module _ (b : Text) where
  multivalue_loop-MultiEnd :
      (section : Field) (n p : ℕ) (hi : ℕ) (hsa : Spans) (current : StringSpan) (last_space : ℕ)
      → p + n ≡ hi
      → MultiInv p hsa current last_space
      → MultiEnd hi (multivalue_loop b section n p hsa current last_space)
  unfolding multivalue_loop
  multivalue_loop-MultiEnd section zero p hi hsa current last_space e v = record {
    spans = v.spans;
    item = let h = v.shorter in let i = v.item in omega arith;
  }
  multivalue_loop-MultiEnd section (suc n) p hi hsa current last_space e v =
      let h = v.shorter in
      let i = v.item in
      let later : (r : Spans) (c : StringSpan) (l : ℕ)
          → MultiInv (p + 1) r c l
          → MultiEnd hi (multivalue_loop b section n (p + 1) r c l) =
        λ r c l. multivalue_loop-MultiEnd section n (p + 1) hi r c l (omega arith) in
      let value =
        highlight_multivalue_value-Good b {hi = p} (span current.s last_space) section v.spans
          (omega arith) (omega arith) in
      elim (Bool-cases (byte_at b p == b',')) [
        | inl y ↦ rw y (
            later _ _ _ (record {
              spans = append-one p (p + 1) delimiter value (omega arith) (omega arith);
              shorter = omega arith;
              item = omega arith;
            }))
        | inr f ↦ elim (Bool-cases (byte_at b p == b' ' || byte_at b p == 9)) [
          | inr g ↦
              rw (f, g)
                (later _ _ _
                  (record { spans = v.spans; shorter = omega arith; item = omega arith }))
          | inl y ↦ elim (Bool-cases (p == current.s && current.len == 0)) [
            | inl z ↦
                rw (f, y, z)
                  (later _ _ _ (record {
                    spans = Good-widen v.spans (omega arith);
                    shorter = h;
                    item = ground arith;
                  }))
            | inr z ↦
                rw (f, y, z)
                  (later _ _ _
                    (record { spans = v.spans; shorter = omega arith; item = omega arith }))
          ]
        ]
      ]

  highlight_multivalue-Good :
      {hsa : Spans} {m hi : ℕ} (s : StringSpan) (f : Field)
      → Good 1 hsa m
      → m ≤ s.s
      → s.s + s.len ≤ hi
      → Yields (λ r. Good 1 r hi) (highlight_multivalue b hsa s f)
  unfolding highlight_multivalue
  highlight_multivalue-Good {hsa} {m} {hi} s f h le end =
      let (r, c) = multivalue_loop b f s.len s.s hsa (span s.s 0) 0 in
      let v =
        multivalue_loop-MultiEnd f s.len s.s (s.s + s.len) hsa (span s.s 0) 0 refl
          (record { spans = Good-widen h le; shorter = omega arith; item = omega arith }) in
      let i = v.item in
      elim (Bool-cases (c.len == 0)) [
        | inr g ↦
            rw g
              (_, refl, highlight_multivalue_value-Good b c f v.spans (omega arith) (omega arith))
        | inl y ↦
            let (marked, e, (w, l)) =
              mark_last-Within 0 r hi (Within-widen 0 r c.s hi v.spans.within (omega arith))
                v.spans.at_least in
            rw (y, e) (marked, refl, record { within = w; at_least = l })
      ]

  pub highlight_value-Good :
      {hsa : Spans} {m hi : ℕ} (s : StringSpan) (f : Field)
      → Good 1 hsa m
      → m ≤ s.s
      → s.s + s.len ≤ hi
      → Yields (λ r. Good 1 r hi) (highlight_value b hsa s f)
  unfolding highlight_value
  highlight_value-Good s address h le end = highlight_multivalue-Good s address h le end
  highlight_value-Good s dns h le end = highlight_multivalue-Good s dns h le end
  highlight_value-Good s allowed_ips h le end = highlight_multivalue-Good s allowed_ips h le end
  highlight_value-Good s endpoint h le end = (_, refl, highlight_endpoint-Good b s h le end)
  highlight_value-Good s _ h le end = (_, refl, append-Good s _ h le end)
