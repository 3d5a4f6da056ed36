-- ===== src/Tunnel/Gateways.antt =====
-- `findDefaultGateway` of tunnel/defaultroutemonitor.go, `findDefaultLUID` of tunnel/mtumonitor.go.
use wireguard_windows.Base.{
  ℕ, ◌-◌, ◌^◌, ◌≤◌, ◌<◌, false, ◌&&◌, List, [], ◌∷◌, Option, none, some, if◌then◌else◌, ltb, ◌==◌,
  Result, ok, err, panic, ◌>>=◌, ok-injective, All-IsIn, ◌≡◌, refl, sym, ap, ap₂, subst, ◌∙◌, ◌⊎◌,
  inl, inr, arith, IsIn, All, Bool-cases, Option-cases, ltb→lt,
}
use wireguard_windows.Tunnel.Usable.{
  IsFrom, AreFrom, IsMetric, IsRow, IsUsable, IsUnusable, IsNoBetter, candidate-IsUsable,
  candidate-IsUnusable, candidates-IsNoBetter,
}
use wireguard_windows.Tunnel.{
  Row, Gateway, no_gateway, candidate, gateway_of, find_gateway_loop, find_default_gateway,
  find_luid_loop, find_default_luid,
}

-- What the loop finds below a bound: nothing, and then the gateway is as it was, or a row with
-- the lowest metric.
abbrev LoopFinds : ℕ → List Row → ℕ → Gateway → Gateway → Type 0
LoopFinds our_luid rows lowest g found =
    (AreFrom our_luid lowest rows × (found ≡ g))
    ⊎ ((r : Row) × (m : ℕ) × IsIn r rows
        × (candidate our_luid r ≡ some m)
        × (m < lowest)
        × (found ≡ gateway_of r)
        × AreFrom our_luid m rows)

IsFrom-weaken : (m k : ℕ) (o : Option ℕ) → m ≤ k → IsFrom k o → IsFrom m o
IsFrom-weaken m k none h f = tt
IsFrom-weaken m k (some j) h f = omega (arith, h, f)

module _ (our_luid : ℕ) (r : Row) (rs : List Row) (lowest : ℕ) (g found : Gateway) where
  after_skip :
      IsFrom lowest (candidate our_luid r)
      → LoopFinds our_luid rs lowest g found
      → LoopFinds our_luid (r ∷ rs) lowest g found
  after_skip f (inl (a, q)) = inl ((f, a), q)
  after_skip f (inr (s, m, i, c, l, q, a)) = inr (
    s,
    m,
    inr i,
    c,
    l,
    q,
    (IsFrom-weaken m lowest (candidate our_luid r) (omega (arith, l)) f, a),
  )

  after_take :
      (m : ℕ)
      → candidate our_luid r ≡ some m
      → m < lowest
      → LoopFinds our_luid rs m (gateway_of r) found
      → LoopFinds our_luid (r ∷ rs) lowest g found
  after_take m e h (inl (a, q)) =
      inr (r, m, inl refl, e, h, q, (subst (IsFrom m) (sym e) (omega arith), a))
  after_take m e h (inr (s, k, i, c, l, q, a)) =
      inr (s, k, inr i, c, omega (arith, l, h), q, (subst (IsFrom k) (sym e) (omega (arith, l)), a))

find_gateway_loop-LoopFinds :
    (our_luid : ℕ) (rows : List Row) (lowest : ℕ) (g : Gateway)
    → LoopFinds our_luid rows lowest g (find_gateway_loop our_luid rows lowest g)
unfolding find_gateway_loop
find_gateway_loop-LoopFinds our_luid [] lowest g = inl (tt, refl)
find_gateway_loop-LoopFinds our_luid (r ∷ rs) lowest g =
    let finds = LoopFinds our_luid (r ∷ rs) lowest g in
    let rest = find_gateway_loop our_luid rs lowest g in
    elim (Option-cases (candidate our_luid r)) [
      | inl e ↦
          let skips : find_gateway_loop our_luid (r ∷ rs) lowest g ≡ rest =
            rw (e, find_gateway_loop) refl in
          subst finds (sym skips) (
            after_skip our_luid r rs lowest g rest (subst (IsFrom lowest) (sym e) tt)
              (find_gateway_loop-LoopFinds our_luid rs lowest g))
      | inr (m, e) ↦ elim (Bool-cases (ltb m lowest)) [
        | inl y ↦
            let better = find_gateway_loop our_luid rs m (gateway_of r) in
            let takes : find_gateway_loop our_luid (r ∷ rs) lowest g ≡ better =
              rw (e, find_gateway_loop, y) refl in
            subst finds (sym takes) (
              after_take our_luid r rs lowest g better m e (ltb→lt m lowest y)
                (find_gateway_loop-LoopFinds our_luid rs m (gateway_of r)))
        | inr n ↦
            let skips : find_gateway_loop our_luid (r ∷ rs) lowest g ≡ rest =
              rw (e, find_gateway_loop, n) refl in
            subst finds (sym skips) (
              after_skip our_luid r rs lowest g rest (subst (IsFrom lowest) (sym e) (not_below n))
                (find_gateway_loop-LoopFinds our_luid rs lowest g))
      ]
    ]
  where
    not_below : {m : ℕ} → ltb m lowest ≡ false → lowest ≤ m
    not_below n = ground arith

-- The gateway of a usable row, every row being unusable or of a metric that is not lower.
pub record IsLowest (our_luid : ℕ) (rows : List Row) (g : Gateway) : Type 0 where
  pub row : Row
  pub combined : ℕ
  pub in_table : IsIn row rows
  pub usable : IsUsable our_luid row combined
  pub lowest : All (IsNoBetter our_luid combined) rows
  pub is_gateway : g ≡ gateway_of row

unusable :
    (our_luid : ℕ) (rows : List Row)
    → All IsRow rows
    → AreFrom our_luid (2 ^ 64 - 1) rows
    → All (IsUnusable our_luid) rows
unusable our_luid [] b a = tt
unusable our_luid (r ∷ rows) b a = elim (Option-cases (candidate our_luid r)) [
  | inl e ↦ (candidate-IsUnusable our_luid r e, unusable our_luid rows b.1 a.1)
  | inr (m, e) ↦
      absurd
        (too_large m e (candidate-IsUsable our_luid r b.0 e) (subst (IsFrom (2 ^ 64 - 1)) e a.0))
]
  where
    too_large : (m : ℕ) → candidate our_luid r ≡ some m → IsUsable our_luid r m → 2 ^ 64 - 1 ≤ m → ⊥
    too_large m e u h =
        let small : u.interface_metric < 2 ^ 32 = subst IsMetric u.replied b.0.1 in
        omega (arith, h, u.is_sum, b.0.0)

-- In a route table whose metrics have 32 bits: `findDefaultGateway` finds the gateway of a
-- default route of another interface than the tunnel's, which is up, and every other row is no
-- such route or has a sum of the route's and the interface's metric that is not lower; or it finds
-- none, and then every row is no default route, the tunnel's own, not up or without a metric.
pub find_default_gateway-IsLowest :
    (our_luid : ℕ) (rows : List Row) {g : Gateway}
    → All IsRow rows
    → find_default_gateway (ok rows) our_luid ≡ ok g
    → IsLowest our_luid rows g ⊎ ((g ≡ no_gateway) × All (IsUnusable our_luid) rows)
unfolding find_default_gateway
find_default_gateway-IsLowest our_luid rows b h =
    elim (find_gateway_loop-LoopFinds our_luid rows (2 ^ 64 - 1) no_gateway) [
      | inl (a, q) ↦ inr (sym (ok-injective h) ∙ q, unusable our_luid rows b a)
      | inr (r, m, i, c, l, q, a) ↦ inl (record {
        row = r;
        combined = m;
        in_table = i;
        usable = candidate-IsUsable our_luid r (All-IsIn IsRow rows b i) c;
        lowest = candidates-IsNoBetter our_luid m rows b a;
        is_gateway = sym (ok-injective h) ∙ q;
      })
    ]

find_luid_loop-find_gateway_loop :
    (our_luid : ℕ) (rows : List Row) (lowest : ℕ) (g : Gateway)
    → find_luid_loop our_luid rows lowest (g.luid, g.index) ≡ (
      (find_gateway_loop our_luid rows lowest g).luid,
      (find_gateway_loop our_luid rows lowest g).index,
    )
unfolding find_luid_loop find_gateway_loop
find_luid_loop-find_gateway_loop our_luid [] lowest g = refl
find_luid_loop-find_gateway_loop our_luid (r ∷ rs) lowest g =
    elim (Option-cases (candidate our_luid r)) [
      | inl e ↦
          rw (e, find_luid_loop, find_gateway_loop)
            (find_luid_loop-find_gateway_loop our_luid rs lowest g)
      | inr (m, e) ↦ elim (Bool-cases (ltb m lowest)) [
        | inl y ↦
            rw (e, find_luid_loop, find_gateway_loop, y)
              (find_luid_loop-find_gateway_loop our_luid rs m (gateway_of r))
        | inr n ↦
            rw (e, find_luid_loop, find_gateway_loop, n)
              (find_luid_loop-find_gateway_loop our_luid rs lowest g)
      ]
    ]

abbrev finds : ℕ × ℕ → Result ℕ (ℕ × ℕ)
finds = ok

-- The interface that the MTU monitor follows is the one that the route monitor routes through: the
-- LUID and the index that `findDefaultLUID` leaves, whatever they were before, are those of the
-- gateway that `findDefaultGateway` finds, and it fails with the same error.
pub find_default_luid-find_default_gateway :
    (rows : Result ℕ (List Row)) (our_luid : ℕ) (last : ℕ × ℕ)
    → find_default_luid rows our_luid last
      ≡ (find_default_gateway rows our_luid >>= λ g. ok (g.luid, g.index))
unfolding find_default_luid find_default_gateway
find_default_luid-find_default_gateway (err e) our_luid last = refl
find_default_luid-find_default_gateway panic our_luid last = refl
find_default_luid-find_default_gateway (ok rows) our_luid last =
    kept (find_luid_loop our_luid rows (2 ^ 64 - 1) (0, 0))
    ∙ ap ok (find_luid_loop-find_gateway_loop our_luid rows (2 ^ 64 - 1) no_gateway)
  where
    kept :
        (found : ℕ × ℕ)
        → (if found.0 == last.0 && found.1 == last.1 then finds last else finds found) ≡ finds found
    kept found = elim (Bool-cases (found.0 == last.0 && found.1 == last.1)) [
      | inl y ↦ rw y (ap finds (ap₂ (λ a b. (a, b)) (ground arith) (ground arith)))
      | inr n ↦ rw n refl
    ]
