-- ===== src/Firewall/Installs.antt =====
-- Which filters `objectInstaller` adds: each obeys one of the rules below, and if it succeeds,
-- those that block are there.
use wireguard_windows.Base.{
  ℕ, Bool, true, List, [], ◌∷◌, ◌++◌, if◌then◌else◌, ltb, length, ◌≡◌, ◌≢◌, refl, inl, inr, IsIn,
}
use wireguard_windows.Base.Text.{is_empty}
use wireguard_windows.Conf.Types.{Addr}
use wireguard_windows.Firewall.{
  Condition, Layer, auth_connect_v4, auth_recv_accept_v4, auth_connect_v6, auth_recv_accept_v6,
  permit, block, Filter, BaseObjects, generate_guid, filter_add, current_process_app_id,
  current_process_security_descriptor, Os, pure, request, blank,
}
use wireguard_windows.Firewall.Rules.{
  tun_condition, loopback_condition, service_conditions, add_at, add_everywhere, service_filter,
  permit_tun_interface, permit_wire_guard_service, permit_loopback, block_all,
}
use wireguard_windows.Firewall.Narrow.{
  dhcp_v4_out, dhcp_v4_in, dhcp_v6_out, dhcp_v6_in, ndp_definitions, permit_dhcp_ipv4,
  permit_dhcp_ipv6, add_definitions, permit_ndp,
}
use wireguard_windows.Firewall.Dns.{
  deny_conditions, conditions_v4, conditions_v6, allow_dns, block_dns,
}
use wireguard_windows.Firewall.Blocker.{register_base_objects, restrict_dns, restrict}
use wireguard_windows.Firewall.Runs.{Does, Does-pure, Does-if, Does-weaken, Does->>}
use wireguard_windows.Firewall.Calls.{Replies, Does-request, Does-call, Does-filter_add}

-- What a filter of this firewall is for. The service's application and its descriptor are what the
-- system replies of the process that asks.
pub data IsRule (os : Os) (luid : ℕ) (dns : List Addr) (f : Filter) : Type 0 where
  service :
      (app_id sd : ℕ)
      → Replies os current_process_app_id app_id
      → Replies os current_process_security_descriptor sd
      → f.weight ≡ 15
      → f.conditions ≡ service_conditions app_id sd
      → IsRule os luid dns f
  dns_denied : f.action ≡ block → IsRule os luid dns f
  dns_v4 :
      f.weight ≡ 15
      → conditions_v4 dns ≢ []
      → f.conditions ≡ deny_conditions ++ conditions_v4 dns
      → IsRule os luid dns f
  dns_v6 :
      f.weight ≡ 15
      → conditions_v6 dns ≢ []
      → f.conditions ≡ deny_conditions ++ conditions_v6 dns
      → IsRule os luid dns f
  loopback : f.weight ≡ 13 → f.conditions ≡ loopback_condition ∷ [] → IsRule os luid dns f
  tun : f.weight ≡ 12 → f.conditions ≡ tun_condition luid ∷ [] → IsRule os luid dns f
  dhcp :
      f.weight ≡ 12
      → IsIn f.conditions (dhcp_v4_out ∷ dhcp_v4_in ∷ dhcp_v6_out ∷ dhcp_v6_in ∷ [])
      → IsRule os luid dns f
  ndp : f.weight ≡ 12 → IsIn (f.conditions, f.layer_key) ndp_definitions → IsRule os luid dns f

-- The filters that block at the four layers.
abbrev pub blocks : BaseObjects → ℕ → List Condition → List Filter
blocks bo weight cs =
    record (blank bo weight block auth_connect_v4) { conditions = cs }
    ∷ record (blank bo weight block auth_recv_accept_v4) { conditions = cs }
    ∷ record (blank bo weight block auth_connect_v6) { conditions = cs }
    ∷ record (blank bo weight block auth_recv_accept_v6) { conditions = cs }
    ∷ []

abbrev pub denials : BaseObjects → List Addr → List Filter
denials bo [] = []
denials bo (_ ∷ _) = blocks bo 14 deny_conditions

module _ (os : Os) (session : ℕ) (bo : BaseObjects) (luid : ℕ) (dns : List Addr) where
  add_everywhere-Does :
      (weight : ℕ) (filter : Layer → Filter)
      → ((layer : Layer) → IsRule os luid dns (filter layer))
      → Does
          (IsRule os luid dns)
          (filter auth_connect_v4
            ∷ filter auth_recv_accept_v4
            ∷ filter auth_connect_v6
            ∷ filter auth_recv_accept_v6
            ∷ [])
          (add_everywhere os session bo weight filter)
  unfolding add_everywhere add_at
  add_everywhere-Does weight filter p = Does->> R (one auth_connect_v4) (
      Does->> R (one auth_recv_accept_v4)
        (Does->> R (one auth_connect_v6) (one auth_recv_accept_v6)))
    where
      R : Filter → Type 0
      R = IsRule os luid dns

      one :
          (layer : Layer)
          → Does R (filter layer ∷ []) (request os (filter_add session (filter layer)))
      one layer = Does-filter_add R os session (filter layer) (p layer)

  permit_tun_interface-Does :
      (weight : ℕ)
      → weight ≡ 12
      → Does (IsRule os luid dns) [] (permit_tun_interface os session bo weight luid)
  unfolding permit_tun_interface
  permit_tun_interface-Does weight e =
      Does-weaken _ _ _ (add_everywhere-Does weight _ (λ layer. tun e refl))

  permit_loopback-Does :
      (weight : ℕ)
      → weight ≡ 13
      → Does (IsRule os luid dns) [] (permit_loopback os session bo weight)
  unfolding permit_loopback
  permit_loopback-Does weight e =
      Does-weaken _ _ _ (add_everywhere-Does weight _ (λ layer. loopback e refl))

  pub permit_wire_guard_service-Does :
      (weight : ℕ)
      → weight ≡ 15
      → Does (IsRule os luid dns) [] (permit_wire_guard_service os session bo weight)
  unfolding permit_wire_guard_service
  permit_wire_guard_service-Does weight e =
      Does-call R os [] current_process_app_id _ (λ r st. refl)
        (λ app_id a.
          Does-call R os [] current_process_security_descriptor _ (λ r st. refl)
            (λ sd d. Does-weaken R _ _ (
              add_everywhere-Does weight (service_filter os session bo weight app_id sd)
                (λ layer. service app_id sd a d e refl))))
    where
      R : Filter → Type 0
      R = IsRule os luid dns

  block_all-Does : Does (IsRule os luid dns) (blocks bo 0 []) (block_all os session bo 0)
  unfolding block_all
  block_all-Does = add_everywhere-Does 0 (blank bo 0 block) (λ layer. dns_denied refl)

  -- One filter at a layer.
  add_at-Does :
      (weight : ℕ) (filter : Layer → Filter) (layer : Layer)
      → IsRule os luid dns (filter layer)
      → Does (IsRule os luid dns) [] (add_at os session bo weight filter layer)
  unfolding add_at
  add_at-Does weight filter layer p =
      Does-weaken _ _ _ (Does-filter_add (IsRule os luid dns) os session (filter layer) p)

  permit_dhcp_ipv4-Does : Does (IsRule os luid dns) [] (permit_dhcp_ipv4 os session bo 12)
  unfolding permit_dhcp_ipv4
  permit_dhcp_ipv4-Does =
      Does->> _ (add_at-Does 12 _ auth_connect_v4 (dhcp refl (inl refl)))
        (add_at-Does 12 _ auth_recv_accept_v4 (dhcp refl (inr (inl refl))))

  permit_dhcp_ipv6-Does : Does (IsRule os luid dns) [] (permit_dhcp_ipv6 os session bo 12)
  unfolding permit_dhcp_ipv6
  permit_dhcp_ipv6-Does =
      Does->> _ (add_at-Does 12 _ auth_connect_v6 (dhcp refl (inr (inr (inl refl)))))
        (add_at-Does 12 _ auth_recv_accept_v6 (dhcp refl (inr (inr (inr (inl refl))))))

  add_definitions-Does :
      (defs : List (List Condition × Layer))
      → ((d : List Condition × Layer) → IsIn d defs → IsIn d ndp_definitions)
      → Does (IsRule os luid dns) [] (add_definitions os session bo 12 defs)
  unfolding add_definitions
  add_definitions-Does [] k = Does-pure _ tt
  add_definitions-Does ((cs, layer) ∷ defs) k =
      Does->> _ (add_at-Does 12 _ layer (ndp refl (k (cs, layer) (inl refl))))
        (add_definitions-Does defs (λ d i. k d (inr i)))

  permit_ndp-Does : Does (IsRule os luid dns) [] (permit_ndp os session bo 12)
  unfolding permit_ndp
  permit_ndp-Does = add_definitions-Does ndp_definitions (λ d i. i)

  allow_dns-Does :
      (servers : List Condition) (out inbound : Layer)
      → ((layer : Layer)
          → servers ≢ []
          → IsRule os luid dns
              (record (blank bo 15 permit layer) { conditions = deny_conditions ++ servers }))
      → Does
          (IsRule os luid dns)
          []
          (allow_dns os session bo (deny_conditions ++ servers) 15 out inbound)
  unfolding allow_dns
  allow_dns-Does servers out inbound p =
      Does-if _ (ltb (length deny_conditions) (length (deny_conditions ++ servers))) _
        λ some_server.
          let ne = not_empty servers some_server in
          Does->> _ (add_at-Does 15 _ out (p out ne)) (add_at-Does 15 _ inbound (p inbound ne))
    where
      not_empty :
          (xs : List Condition)
          → ltb (length deny_conditions) (length (deny_conditions ++ xs)) ≡ true
          → xs ≢ []
      not_empty [] h e = cc
      not_empty (x ∷ xs) h e = cc

  block_dns-Does :
      Does (IsRule os luid dns) (blocks bo 14 deny_conditions) (block_dns os session bo dns 15 14)
  unfolding block_dns
  block_dns-Does = Does->> _ (add_everywhere-Does 14 _ (λ layer. dns_denied refl)) (
      Does->> _
        (allow_dns-Does (conditions_v4 dns) auth_connect_v4 auth_recv_accept_v4
          (λ layer ne. dns_v4 refl ne refl))
        (allow_dns-Does (conditions_v6 dns) auth_connect_v6 auth_recv_accept_v6
          (λ layer ne. dns_v6 refl ne refl)))

  restrict_dns-Does :
      (do_not : Bool)
      → Does (IsRule os luid dns) (denials bo dns) (restrict_dns os luid do_not dns session bo)
  unfolding restrict_dns
  restrict_dns-Does do_not = by_dns dns refl
    where
      by_dns :
          (ds : List Addr)
          → dns ≡ ds
          → Does
              (IsRule os luid dns)
              (denials bo ds)
              (if is_empty ds then pure tt else block_dns os session bo dns 15 14)
      by_dns [] e = Does-pure _ tt
      by_dns (d ∷ ds) e = block_dns-Does

  pub restrict-Does :
      (do_not : Bool)
      → Does
          (IsRule os luid dns)
          (denials bo dns ++ blocks bo 0 [])
          (restrict os luid do_not dns session bo)
  unfolding restrict
  restrict-Does do_not = Does->> _ (restrict_dns-Does do_not) (
      Does->> _ (permit_loopback-Does 13 refl) (
        Does->> _ (permit_tun_interface-Does 12 refl) (
          Does->> _ permit_dhcp_ipv4-Does
            (Does->> _ permit_dhcp_ipv6-Does (Does->> _ permit_ndp-Does block_all-Does)))))

  pub register_base_objects-Does : Does (IsRule os luid dns) [] (register_base_objects os session)
  unfolding register_base_objects
  register_base_objects-Does =
      Does-call R os [] generate_guid _ (λ r st. refl)
        (λ provider _.
          Does-call R os [] generate_guid _ (λ r st. refl)
            (λ filters _.
              Does->> R (Does-request R os _ (λ r st. refl))
                (Does->> R (Does-request R os _ (λ r st. refl)) (Does-pure R _))))
    where
      R : Filter → Type 0
      R = IsRule os luid dns
