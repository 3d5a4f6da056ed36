-- ===== src/Conf/Config/Routes.antt =====
-- `IntersectsWith` compares two sets of routes.
use wireguard_windows.Base.{
  any, Bool, false, ◌||◌, List, [], ◌∷◌, ◌++◌, map, ◌≡◌, refl, sym, ap, ap₂, ◌∙◌, arith, fun_ext,
}
use wireguard_windows.Base.Text.{text_eq_iff}
use wireguard_windows.Conf.Types.{Addr, v4, v6, Prefix, masked, Peer, Config}
use wireguard_windows.Conf.Config.{
  addr_eq, prefix_eq, host_route, has_route, address_routes, peer_routes, all_routes,
  intersects_with,
}

addr_eq_comm : (a b : Addr) → addr_eq a b ≡ addr_eq b a
unfolding addr_eq
addr_eq_comm (v6 a z) (v6 b w) = ground (arith, text_eq_iff z w, text_eq_iff w z)
addr_eq_comm (v4 a) (v4 b) = ground arith
addr_eq_comm _ _ = ground arith

prefix_eq_comm : (p q : Prefix) → prefix_eq p q ≡ prefix_eq q p
unfolding prefix_eq
prefix_eq_comm p q = ground (arith, addr_eq_comm p.addr q.addr)

module _ {ℓ} {A : Type ℓ} where
  any-append : (p : A → Bool) (xs ys : List A) → any p (xs ++ ys) ≡ any p xs || any p ys
  unfolding any
  any-append p [] ys = refl
  any-append p (x ∷ xs) ys = ground (arith, any-append p xs ys)

  any-false : (xs : List A) → any (λ _. false) xs ≡ false
  unfolding any
  any-false [] = refl
  any-false (x ∷ xs) = any-false xs

  any-or : (p q : A → Bool) (xs : List A) → any (λ x. p x || q x) xs ≡ any p xs || any q xs
  unfolding any
  any-or p q [] = refl
  any-or p q (x ∷ xs) = ground (arith, any-or p q xs)

-- Two searches may change places.
any-any {ℓ κ} :
    {A : Type ℓ} {B : Type κ} (f : A → B → Bool) (xs : List A) (ys : List B)
    → any (λ x. any (f x) ys) xs ≡ any (λ y. any (λ x. f x y) xs) ys
unfolding any
any-any f [] ys = sym (any-false ys)
any-any f (x ∷ xs) ys = ap (λ b. any (f x) ys || b) (any-any f xs ys) ∙ sym (any-or (f x) _ ys)

any-address_routes :
    (h : Prefix → Bool) (rs : List Prefix)
    → any h (address_routes rs) ≡ any (λ a. h (host_route a) || h (masked a)) rs
unfolding any address_routes
any-address_routes h [] = refl
any-address_routes h (a ∷ rs) = ground (arith, any-address_routes h rs)

any-map :
    (h : Prefix → Bool) (rs : List Prefix) → any h (map masked rs) ≡ any (λ a. h (masked a)) rs
unfolding any
any-map h [] = refl
any-map h (a ∷ rs) = ap (λ b. h (masked a) || b) (any-map h rs)

any-peer_routes :
    (h : Prefix → Bool) (ps : List Peer)
    → any h (peer_routes ps) ≡ any (λ p. any (λ a. h (masked a)) p.allowed_ips) ps
unfolding peer_routes any
any-peer_routes h [] = refl
any-peer_routes h (p ∷ ps) =
    any-append h (map masked p.allowed_ips) (peer_routes ps)
    ∙ ap₂ (λ a b. a || b) (any-map h p.allowed_ips) (any-peer_routes h ps)

-- The code's loops over the other configuration find a route of `conf` among its routes.
pub intersects_with-eq :
    (conf other : Config)
    → intersects_with conf other ≡ any (has_route (all_routes conf)) (all_routes other)
intersects_with-eq conf other =
    unfold intersects_with in
    sym (
      any-append h (address_routes other.interface.addresses) (peer_routes other.peers)
      ∙ ap₂ (λ a b. a || b) (any-address_routes h other.interface.addresses)
          (any-peer_routes h other.peers))
  where
    h : Prefix → Bool
    h = has_route (all_routes conf)

-- Whether two configurations intersect does not depend on which one is asked.
pub intersects_with_comm :
    (conf other : Config) → intersects_with conf other ≡ intersects_with other conf
intersects_with_comm conf other =
    intersects_with-eq conf other
    ∙ unfold has_route in
      any-any (λ r q. prefix_eq q r) (all_routes other) (all_routes conf)
      ∙ ap (λ f. any f (all_routes conf)) (fun_ext turn)
      ∙ sym (intersects_with-eq other conf)
  where
    turn :
        (q : Prefix) → any (λ r. prefix_eq q r) (all_routes other) ≡ has_route (all_routes other) q
    turn q = unfold has_route in ap (λ f. any f (all_routes other)) (fun_ext (prefix_eq_comm q))
