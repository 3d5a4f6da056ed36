-- ===== src/Firewall/Passes.antt =====
-- Which packets the filters let pass once `EnableFirewall` has restricted the traffic.
use wireguard_windows.Base.{
  ℕ, ◌≤◌, Bool, true, false, List, [], ◌∷◌, ok, ◌≡◌, ◌⊎◌, refl, inl, inr, All, All-IsIn, IsIn,
  subst, arith,
}
use wireguard_windows.Conf.Types.{Addr, none_addr, v4, v6}
use wireguard_windows.Firewall.{
  ip_local_interface, uint64, flags, match_flags_all_set, uint32, Condition, ip_remote_address,
  Layer, permit, equal, Filter, Trace, Os,
}
use wireguard_windows.Firewall.Platform.{matches, Decides}
use wireguard_windows.Firewall.Rules.{tun_condition, loopback_condition}
use wireguard_windows.Firewall.Narrow.{
  dhcp_v4_out, dhcp_v4_in, dhcp_v6_out, dhcp_v6_in, ndp_definitions,
}
use wireguard_windows.Firewall.Dns.{conditions_v4, conditions_v6}
use wireguard_windows.Firewall.Blocker.{enable_firewall}
use wireguard_windows.Firewall.Installs.{
  IsRule, service, dns_denied, dns_v4, dns_v6, loopback, tun, dhcp, ndp,
}
use wireguard_windows.Firewall.Local.{IsDhcp, IsNdp, matches-IsDhcp, matches-IsNdp}
use wireguard_windows.Firewall.Met.{
  IsOfService, IsToServer, matches-one, matches-service, matches-server, conditions_v4-IsToServer,
  conditions_v6-IsToServer,
}
use wireguard_windows.Firewall.Atomic.{in_force_at}
use wireguard_windows.Firewall.Leaks.{enable_firewall-Restricts}

-- What may pass a firewall that restricts.
pub data MayPass (os : Os) (luid : ℕ) (dns : List Addr) (meets : Condition → Bool) (layer : Layer)
    : Type 0 where
  by_service : IsOfService os meets → MayPass os luid dns meets layer
  by_server : IsToServer dns meets → MayPass os luid dns meets layer
  by_loopback :
      meets (record { field_key = flags; match_type = match_flags_all_set; value = uint32 1 })
        ≡ true
      → MayPass os luid dns meets layer
  by_tun : meets (equal ip_local_interface (uint64 luid)) ≡ true → MayPass os luid dns meets layer
  by_dhcp :
      (cs : List Condition)
      → IsIn cs (dhcp_v4_out ∷ dhcp_v4_in ∷ dhcp_v6_out ∷ dhcp_v6_in ∷ [])
      → matches meets cs ≡ true
      → IsDhcp meets
      → MayPass os luid dns meets layer
  by_ndp :
      (cs : List Condition)
      → IsIn (cs, layer) ndp_definitions
      → matches meets cs ≡ true
      → IsNdp meets
      → MayPass os luid dns meets layer

conditions_v4-address :
    (dns : List Addr) → All (λ c. c.field_key ≡ ip_remote_address) (conditions_v4 dns)
unfolding conditions_v4
conditions_v4-address [] = tt
conditions_v4-address (v4 n ∷ dns) = (refl, conditions_v4-address dns)
conditions_v4-address (v6 n zone ∷ dns) = conditions_v4-address dns
conditions_v4-address (none_addr ∷ dns) = conditions_v4-address dns

conditions_v6-address :
    (dns : List Addr) → All (λ c. c.field_key ≡ ip_remote_address) (conditions_v6 dns)
unfolding conditions_v6
conditions_v6-address [] = tt
conditions_v6-address (v4 n ∷ dns) = conditions_v6-address dns
conditions_v6-address (v6 n zone ∷ dns) = (refl, conditions_v6-address dns)
conditions_v6-address (none_addr ∷ dns) = conditions_v6-address dns

module _ (os : Os) (luid : ℕ) (dns : List Addr) (meets : Condition → Bool) (layer : Layer) where
  -- A filter of this firewall that permits a packet which it matches.
  IsRule-MayPass :
      (f : Filter)
      → IsRule os luid dns f
      → f.layer_key ≡ layer
      → matches meets f.conditions ≡ true
      → f.action ≡ permit
      → MayPass os luid dns meets layer
  IsRule-MayPass f (service app_id sd r q w c) l m a =
      by_service
        (matches-service meets os app_id sd r q (subst (λ cs. matches meets cs ≡ true) c m))
  IsRule-MayPass f (dns_denied b) l m a = cc
  IsRule-MayPass f (dns_v4 w ne c) l m a =
      let (d, i, e) =
        matches-server meets (conditions_v4 dns) ne (conditions_v4-address dns)
          (subst (λ cs. matches meets cs ≡ true) c m) in
      by_server (conditions_v4-IsToServer meets dns d i e)
  IsRule-MayPass f (dns_v6 w ne c) l m a =
      let (d, i, e) =
        matches-server meets (conditions_v6 dns) ne (conditions_v6-address dns)
          (subst (λ cs. matches meets cs ≡ true) c m) in
      by_server (conditions_v6-IsToServer meets dns d i e)
  IsRule-MayPass f (loopback w c) l m a =
      by_loopback (matches-one meets loopback_condition (subst (λ cs. matches meets cs ≡ true) c m))
  IsRule-MayPass f (tun w c) l m a =
      by_tun (matches-one meets (tun_condition luid) (subst (λ cs. matches meets cs ≡ true) c m))
  IsRule-MayPass f (dhcp w i) l m a =
      by_dhcp f.conditions i m (matches-IsDhcp meets f.conditions i m)
  IsRule-MayPass f (ndp w i) l m a =
      by_ndp f.conditions (subst (λ x. IsIn (f.conditions, x) ndp_definitions) l i) m
        (matches-IsNdp meets (f.conditions, f.layer_key) i m)

  -- A filter heavier than those that deny lookups.
  pub IsRule-heavy :
      (f : Filter)
      → IsRule os luid dns f
      → matches meets f.conditions ≡ true
      → f.action ≡ permit
      → 14 ≤ f.weight
      → IsOfService os meets ⊎ IsToServer dns meets
  IsRule-heavy f (service app_id sd r q w c) m a h =
      inl (matches-service meets os app_id sd r q (subst (λ cs. matches meets cs ≡ true) c m))
  IsRule-heavy f (dns_denied b) m a h = cc
  IsRule-heavy f (dns_v4 w ne c) m a h =
      let (d, i, e) =
        matches-server meets (conditions_v4 dns) ne (conditions_v4-address dns)
          (subst (λ cs. matches meets cs ≡ true) c m) in
      inr (conditions_v4-IsToServer meets dns d i e)
  IsRule-heavy f (dns_v6 w ne c) m a h =
      let (d, i, e) =
        matches-server meets (conditions_v6 dns) ne (conditions_v6-address dns)
          (subst (λ cs. matches meets cs ≡ true) c m) in
      inr (conditions_v6-IsToServer meets dns d i e)
  IsRule-heavy f (loopback w c) m a h = absurd (omega arith)
  IsRule-heavy f (tun w c) m a h = absurd (omega arith)
  IsRule-heavy f (dhcp w i) m a h = absurd (omega arith)
  IsRule-heavy f (ndp w i) m a h = absurd (omega arith)

-- After `EnableFirewall` succeeded with restrictions, where no filter was in force before: if the
-- filter that decides on a packet permits it, the packet is of the application and the user that
-- the system replies for the current process, goes to a name server of the tunnel, over loopback or
-- over the tunnel, is of DHCP, between the ports of its clients and servers, or is a message of
-- ICMPv6 for neighbour discovery.
pub enable_firewall-MayPass :
    (os : Os) (luid : ℕ) (dns : List Addr) (t : Trace) {t' : Trace} {session : ℕ}
    (meets : Condition → Bool) (layer : Layer) (f : Filter)
    → in_force_at t ≡ []
    → enable_firewall os luid false dns 0 t ≡ ((ok tt, t'), session)
    → Decides meets layer (in_force_at t') f
    → f.action ≡ permit
    → MayPass os luid dns meets layer
enable_firewall-MayPass os luid dns t meets layer f h k d a =
    let r = enable_firewall-Restricts os luid dns t h k in
    IsRule-MayPass os luid dns meets layer f (All-IsIn (IsRule os luid dns) _ r.rules d.there)
      d.at_layer d.matching a
