-- ===== src/Tunnel/Covered.antt =====
-- tunnel/defaultroutemonitor.go: outstanding routes and the families that own them.
use wireguard_windows.Base.{
  ℕ, Bool, true, not, ◌&&◌, ◌||◌, List, [], ◌∷◌, Option, Result, ok, err, panic, ◌≡◌, sym, ◌∙◌, ◌⊎◌,
  inl, inr, IsIn, Bool-cases,
}
use wireguard_windows.Base.Text.{is_empty}
use wireguard_windows.Tunnel.{Gateway, gateway_eq, find_default_gateway}
use wireguard_windows.Tunnel.Monitor.{
  Route, Trace, System, RouteFamily, delete_routes, after_adding, after_finding, move_to,
  update_family, update_locked, remove_host_routes,
}
use wireguard_windows.Tunnel.Owned.{
  outstanding, IsThrough, IsCovered, route_through-gateway_eq, delete_routes-IsCovered,
  add_routes-IsCovered,
}

abbrev pub IsThroughOne : List RouteFamily → Route → Type 0
IsThroughOne [] r = ⊥
IsThroughOne (f ∷ fs) r = IsThrough f.gateway f.owned r ⊎ IsThroughOne fs r

-- Every outstanding route is one of `R`, or is owned by a family.
abbrev pub AreCovered : (Route → Type 0) → List RouteFamily → Trace → Type 0
AreCovered R fs t = (r : Route) → IsIn r (outstanding t) → R r ⊎ IsThroughOne fs r

module _ (R : Route → Type 0) (sys : System) where
  move_to-IsCovered :
      (f : RouteFamily) (g : Gateway) (moved : Bool) (error : Option ℕ) (t : Trace)
      → IsCovered R f.gateway f.owned t
      → IsCovered R
          (move_to sys f g moved error t).route_family.gateway
          (move_to sys f g moved error t).route_family.owned
          (move_to sys f g moved error t).trace
  unfolding move_to after_adding
  move_to-IsCovered f g moved error t c =
      elim (Bool-cases (gateway_eq g f.gateway && not f.incomplete)) [
        | inl y ↦ rw (y, move_to) c
        | inr n ↦ elim (Bool-cases (gateway_eq f.gateway g)) [
          | inl same ↦
              rw (n, move_to, same)
                (add_routes-IsCovered R sys g f.hosts f.owned moved t (kept same))
          | inr other ↦
              rw (n, move_to, other)
                (add_routes-IsCovered R sys g f.hosts [] (moved || not (is_empty f.hosts))
                  (delete_routes f.gateway f.owned t)
                  (delete_routes-IsCovered R f.gateway g f.owned t c))
        ]
      ]
    where
      kept : gateway_eq f.gateway g ≡ true → IsCovered R g f.owned t
      kept same r i = elim (c r i) [
        | inl q ↦ inl q
        | inr (host, h, e) ↦ inr (host, h, sym (route_through-gateway_eq f.gateway g host same) ∙ e)
      ]

  after_finding-IsCovered :
      (f : RouteFamily) (found : Result ℕ Gateway) (moved : Bool) (error : Option ℕ) (t : Trace)
      → IsCovered R f.gateway f.owned t
      → IsCovered R
          (after_finding sys f found moved error t).route_family.gateway
          (after_finding sys f found moved error t).route_family.owned
          (after_finding sys f found moved error t).trace
  after_finding-IsCovered f (ok g) moved error t c = move_to-IsCovered f g moved error t c
  after_finding-IsCovered f (err e) moved error t c = c
  after_finding-IsCovered f panic moved error t c = c

pub update_locked-AreCovered :
    (R : Route → Type 0) (sys : System) (our_luid : ℕ) (fs : List RouteFamily) (moved : Bool)
    (error : Option ℕ) (t : Trace)
    → AreCovered R fs t
    → AreCovered R
        (update_locked sys our_luid fs moved error t).0
        (update_locked sys our_luid fs moved error t).3
unfolding update_locked update_family
update_locked-AreCovered R sys our_luid [] moved error t c = c
update_locked-AreCovered R sys our_luid (f ∷ fs) moved error t c =
    let u = update_family sys our_luid f moved error t in
    let one : IsCovered (λ r. R r ⊎ IsThroughOne fs r) u.route_family.gateway u.route_family.owned
        u.trace =
      after_finding-IsCovered (λ r. R r ⊎ IsThroughOne fs r) sys f
        (find_default_gateway (sys.forward_table f.family) our_luid) moved error t
        (λ r i. elim (c r i) [
          | inl q ↦ inl (inl q)
          | inr (inl k) ↦ inr k
          | inr (inr k) ↦ inl (inr k)
        ]) in
    let rest =
      update_locked-AreCovered (λ r. R r ⊎ IsThrough u.route_family.gateway u.route_family.owned r)
        sys our_luid fs u.moved u.error u.trace
        (λ r i. elim (one r i) [
          | inl (inl q) ↦ inl (inl q)
          | inr k ↦ inl (inr k)
          | inl (inr k) ↦ inr k
        ]) in
    λ r i. elim (rest r i) [ inl (inl q) ↦ inl q | inl (inr k) ↦ inr (inl k) | inr k ↦ inr (inr k) ]

pub remove_host_routes-AreCovered :
    (R : Route → Type 0) (fs : List RouteFamily) (t : Trace)
    → AreCovered R fs t
    → (r : Route) → IsIn r (outstanding (remove_host_routes fs t).1)
    → R r
unfolding remove_host_routes
remove_host_routes-AreCovered R [] t c r i = elim (c r i) [ inl q ↦ q | inr k ↦ absurd k ]
remove_host_routes-AreCovered R (f ∷ fs) t c r i =
    remove_host_routes-AreCovered R fs (delete_routes f.gateway f.owned t)
      (λ r i.
        elim (delete_routes-IsCovered (λ r. R r ⊎ IsThroughOne fs r) f.gateway f.gateway f.owned t
          (λ r i. elim (c r i) [
            | inl q ↦ inl (inl q)
            | inr (inl k) ↦ inr k
            | inr (inr k) ↦ inl (inr k)
          ])
          r i) [ inl q ↦ q | inr (host, h, e) ↦ absurd h ])
      r i
