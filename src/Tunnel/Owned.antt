-- ===== src/Tunnel/Owned.antt =====
-- tunnel/defaultroutemonitor.go: the host routes that were added and not deleted.
use wireguard_windows.Base.{
  ℕ, Bool, true, false, ◌&&◌, List, [], ◌∷◌, if◌then◌else◌, ◌==◌, any, ◌≡◌, refl, sym, ap, ap₂,
  subst, ◌∙◌, ◌⊎◌, inl, inr, arith, IsIn, Bool-cases, ==_refl, ==_iff,
}
use wireguard_windows.Base.Text.{text_eq_refl, text_eq_iff}
use wireguard_windows.Conf.Types.{Addr, none_addr, v4, v6, Prefix}
use wireguard_windows.Conf.Config.{addr_eq, prefix_eq}
use wireguard_windows.Tunnel.{Gateway, gateway_eq}
use wireguard_windows.Tunnel.Monitor.{
  Route, added, already_exists, refused, Reply, add_route, delete_route, Trace, System,
  route_through, delete_routes, own, add_routes,
}

addr_eq_iff : (a b : Addr) → (addr_eq a b ≡ true → a ≡ b) × (addr_eq a a ≡ true)
unfolding addr_eq
addr_eq_iff none_addr none_addr = (λ h. refl, refl)
addr_eq_iff none_addr (v4 b) = (λ h. cc, refl)
addr_eq_iff none_addr (v6 b w) = (λ h. cc, refl)
addr_eq_iff (v4 a) none_addr = (λ h. cc, ==_refl a)
addr_eq_iff (v4 a) (v4 b) = (λ h. ap v4 ((==_iff a b).0 h), ==_refl a)
addr_eq_iff (v4 a) (v6 b w) = (λ h. cc, ==_refl a)
addr_eq_iff (v6 a z) none_addr = (λ h. cc, ground (arith, text_eq_refl z))
addr_eq_iff (v6 a z) (v4 b) = (λ h. cc, ground (arith, text_eq_refl z))
addr_eq_iff (v6 a z) (v6 b w) =
    (λ h. ground (arith, text_eq_iff z w), ground (arith, text_eq_refl z))

abbrev pair : Addr → ℕ → Prefix
pair a n = record { addr = a; bits = n }

pub prefix_eq_sound : (p q : Prefix) → prefix_eq p q ≡ true → p ≡ q
unfolding prefix_eq
prefix_eq_sound p q h =
    let e : p.addr ≡ q.addr = (addr_eq_iff p.addr q.addr).0 (ground arith) in
    let b : p.bits ≡ q.bits = ground arith in ap₂ (λ a n. pair a n) e b

pub prefix_eq_refl : (p : Prefix) → prefix_eq p p ≡ true
unfolding prefix_eq
prefix_eq_refl p = ground (arith, (addr_eq_iff p.addr p.addr).1)

abbrev pub route_eq : Route → Route → Bool
route_eq r s = r.luid == s.luid && prefix_eq r.host s.host && addr_eq r.next_hop s.next_hop

route_eq_refl : (r : Route) → route_eq r r ≡ true
route_eq_refl r = ground (arith, prefix_eq_refl r.host, (addr_eq_iff r.next_hop r.next_hop).1)

-- The routes but one.
unfoldable pub without : Route → List Route → List Route
without r [] = []
without r (s ∷ rs) = let rest = without r rs in if route_eq r s then rest else s ∷ rest

-- The routes that calls of the monitor added, and that it did not ask to delete afterwards.
unfoldable pub outstanding : Trace → List Route
outstanding [] = []
outstanding (add_route r added ∷ t) = r ∷ outstanding t
outstanding (delete_route r ∷ t) = without r (outstanding t)
outstanding (_ ∷ t) = outstanding t

IsIn-without :
    (r : Route) (rs : List Route) (x : Route) → IsIn x (without r rs) → IsIn x rs × ((r ≡ x) → ⊥)
unfolding without
IsIn-without r [] x i = absurd i
IsIn-without r (s ∷ rs) x i = elim (Bool-cases (route_eq r s)) [
  | inl y ↦ let (j, n) = IsIn-without r rs x (rw y at i) in (inr j, n)
  | inr n ↦ elim (rw n at i) [
    | inl e ↦ (inl e, λ q. differ n (q ∙ sym e))
    | inr j ↦ let (k, d) = IsIn-without r rs x j in (inr k, d)
  ]
]
  where
    differ : route_eq r s ≡ false → (r ≡ s) → ⊥
    differ n q =
        let b : route_eq r r ≡ false = subst (λ z. route_eq r z ≡ false) (sym q) n in
        cc (b, route_eq_refl r)

module _ (g : Gateway) where
  -- Deleting them all leaves none of them.
  outstanding-delete_routes :
      (owned : List Prefix) (t : Trace) (x : Route)
      → IsIn x (outstanding (delete_routes g owned t))
      → IsIn x (outstanding t)
        × ((host : Prefix) → IsIn host owned → (route_through g host ≡ x) → ⊥)
  unfolding delete_routes outstanding
  outstanding-delete_routes [] t x i = (i, λ host h. absurd h)
  outstanding-delete_routes (o ∷ owned) t x i =
      let (j, later) = outstanding-delete_routes owned (delete_route (route_through g o) ∷ t) x i in
      let (k, first) = IsIn-without (route_through g o) (outstanding t) x j in
      (
        k,
        λ host h e. elim h [
          | inl q ↦ first (subst (λ z. route_through g z ≡ x) (sym q) e)
          | inr m ↦ later host m e
        ],
      )

-- A route that goes through the gateway to one of the hosts.
abbrev pub IsThrough : Gateway → List Prefix → Route → Type 0
IsThrough g owned r = (host : Prefix) × IsIn host owned × (route_through g host ≡ r)

pub any-IsIn :
    (host : Prefix) (owned : List Prefix)
    → any (λ o. prefix_eq o host) owned ≡ true
    → IsIn host owned
unfolding any
any-IsIn host [] h = cc
any-IsIn host (o ∷ owned) h = elim (Bool-cases (prefix_eq o host)) [
  | inl y ↦ inl (prefix_eq_sound o host y)
  | inr n ↦ inr (any-IsIn host owned (ground arith))
]

own_self : (host : Prefix) (owned : List Prefix) → IsIn host (own host owned)
unfolding own
own_self host owned = elim (Bool-cases (any (λ o. prefix_eq o host) owned)) [
  | inl y ↦ rw y (any-IsIn host owned y)
  | inr n ↦ rw n (inl refl)
]

own-keeps :
    (host : Prefix) (owned : List Prefix) (o : Prefix) → IsIn o owned → IsIn o (own host owned)
unfolding own
own-keeps host owned o i = elim (Bool-cases (any (λ o. prefix_eq o host) owned)) [
  | inl y ↦ rw y i
  | inr n ↦ rw n (inr i)
]

pub route_through-gateway_eq :
    (g h : Gateway) (host : Prefix)
    → gateway_eq g h ≡ true
    → route_through g host ≡ route_through h host
unfolding gateway_eq
route_through-gateway_eq g h host e =
    let l : g.luid ≡ h.luid = ground arith in
    let n : g.next_hop ≡ h.next_hop = (addr_eq_iff g.next_hop h.next_hop).0 (ground arith) in
    ap₂ (λ a b. route_through (record g { luid = a; next_hop = b }) host) l n

Reply-cases : (r : Reply) → (r ≡ added) ⊎ ((r ≡ already_exists) ⊎ ((k : ℕ) × (r ≡ refused k)))
Reply-cases added = inl refl
Reply-cases already_exists = inr (inl refl)
Reply-cases (refused k) = inr (inr (k, refl))

module _ (R : Route → Type 0) where
  -- Every outstanding route is one of `R`, or goes through the gateway to a host that is owned.
  abbrev pub IsCovered : Gateway → List Prefix → Trace → Type 0
  IsCovered g owned t = (r : Route) → IsIn r (outstanding t) → R r ⊎ IsThrough g owned r

  pub delete_routes-IsCovered :
      (g next : Gateway) (owned : List Prefix) (t : Trace)
      → IsCovered g owned t
      → IsCovered next [] (delete_routes g owned t)
  delete_routes-IsCovered g next owned t c r i =
      let (j, none_left) = outstanding-delete_routes g owned t r i in
      elim (c r j) [ inl q ↦ inl q | inr (host, h, e) ↦ absurd (none_left host h e) ]

  own-IsCovered :
      (g : Gateway) (host : Prefix) (owned : List Prefix) (t : Trace)
      → IsCovered g owned t
      → IsCovered g (own host owned) (add_route (route_through g host) added ∷ t)
  unfolding outstanding
  own-IsCovered g host owned t c r (inl e) = inr (host, own_self host owned, e)
  own-IsCovered g host owned t c r (inr i) = elim (c r i) [
    | inl q ↦ inl q
    | inr (h, j, e) ↦ inr (h, own-keeps host owned h j, e)
  ]

  pub add_routes-IsCovered :
      (sys : System) (g : Gateway) (hosts owned : List Prefix) (moved : Bool) (t : Trace)
      → IsCovered g owned t
      → IsCovered g
          (add_routes sys g hosts owned moved t).owned
          (add_routes sys g hosts owned moved t).trace
  unfolding add_routes outstanding
  add_routes-IsCovered sys g [] owned moved t c = c
  add_routes-IsCovered sys g (host ∷ hosts) owned moved t c = elim (Bool-cases (g.luid == 0)) [
    | inl y ↦ rw (y, add_routes) (add_routes-IsCovered sys g hosts owned moved t c)
    | inr n ↦ elim (Reply-cases (sys.add_reply t (route_through g host))) [
      | inl e ↦
          rw (n, add_routes, e)
            (add_routes-IsCovered sys g hosts (own host owned) true _
              (own-IsCovered g host owned t c))
      | inr (inl e) ↦ rw (n, add_routes, e) (add_routes-IsCovered sys g hosts owned moved _ c)
      | inr (inr (k, e)) ↦ rw (n, add_routes, e) c
    ]
  ]
