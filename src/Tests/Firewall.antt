-- ===== src/Tests/Firewall.antt =====
-- The firewall where the system replies 7 to every call, and where it refuses to commit.
use wireguard_windows.Base.{
  false, Bool, List, [], ◌∷◌, true, ◌≡◌, ◌⊎◌, refl, inl, inr, ok, every, any, leb, leb→le, IsIn,
}
use wireguard_windows.Conf.Types.{
  Addr, v4, Prefix, masked, Peer, Config, empty_interface, empty_peer,
}
use wireguard_windows.Conf.Config.{addr_eq, prefix_eq}
use wireguard_windows.Firewall.{
  Condition, auth_connect_v4, Filter, Call, transaction_commit, Reply, done, failed, Trace, Os,
  call, request, attempt,
}
use wireguard_windows.Firewall.Platform.{Decides}
use wireguard_windows.Firewall.Rules.{
  add_at, add_everywhere, service_filter, permit_tun_interface, permit_wire_guard_service,
  permit_loopback, block_all,
}
use wireguard_windows.Firewall.Narrow.{
  permit_dhcp_ipv4, permit_dhcp_ipv6, permit_ndp, add_definitions,
}
use wireguard_windows.Firewall.Dns.{block_dns, allow_dns, conditions_v4, conditions_v6}
use wireguard_windows.Firewall.Blocker.{
  or_abort, run_transaction, register_base_objects, restrict_dns, restrict, object_installer,
  keep_session, with_session, enable_firewall,
}
use wireguard_windows.Firewall.Atomic.{in_force_at}
use wireguard_windows.Firewall.Met.{IsOfService, IsToServer, every-IsIn}
use wireguard_windows.Firewall.Passes.{MayPass, enable_firewall-MayPass}
use wireguard_windows.Firewall.Denies.{enable_firewall-IsToServer, enable_firewall-Decides}
use wireguard_windows.Tunnel.AddressConfig.{is_default, do_not_restrict, enable_tunnel_firewall}
use wireguard_windows.Tunnel.AddressConfig.Restricted.{enable_tunnel_firewall-MayPass}

abbrev willing : Os
willing t c = done 7

abbrev servers : List Addr
servers = v4 8 ∷ []

abbrev enabled : Trace
enabled = (enable_firewall willing 5 false servers 0 []).0.1

enables : enable_firewall willing 5 false servers 0 [] ≡ ((ok tt, enabled), 7)
unfolding enable_firewall with_session keep_session run_transaction or_abort object_installer
    restrict restrict_dns register_base_objects call request attempt add_at add_everywhere
    permit_tun_interface permit_wire_guard_service permit_loopback block_all permit_dhcp_ipv4
    permit_dhcp_ipv6 permit_ndp add_definitions block_dns allow_dns conditions_v4 conditions_v6
enables = refl

-- The packet that meets every condition, and the filter of the service.
abbrev all_met : Condition → Bool
all_met c = true

abbrev of_service : Filter
of_service = service_filter willing 7 (record { provider = 7; filters = 7 }) 15 7 7 auth_connect_v4

light : every (λ g. leb g.weight 15) (in_force_at enabled) ≡ true
unfolding enable_firewall with_session keep_session run_transaction or_abort object_installer
    restrict restrict_dns register_base_objects call request attempt add_at add_everywhere
    permit_tun_interface permit_wire_guard_service permit_loopback block_all permit_dhcp_ipv4
    permit_dhcp_ipv6 permit_ndp add_definitions block_dns allow_dns conditions_v4 conditions_v6
    every
light = refl

there : IsIn of_service (in_force_at enabled)
unfolding enable_firewall with_session keep_session run_transaction or_abort object_installer
    restrict restrict_dns register_base_objects call request attempt add_at add_everywhere
    permit_tun_interface permit_wire_guard_service permit_loopback block_all permit_dhcp_ipv4
    permit_dhcp_ipv6 permit_ndp add_definitions block_dns allow_dns conditions_v4 conditions_v6
there = inr (
    inr (
      inr (
        inr (
          inr (
            inr (
              inr (
                inr (
                  inr (
                    inr (
                      inr (
                        inr (
                          inr (
                            inr (
                              inr (
                                inr (
                                  inr (
                                    inr (
                                      inr (
                                        inr (
                                          inr (
                                            inr (
                                              inr (
                                                inr (
                                                  inr (
                                                    inr (
                                                      inr (
                                                        inr (
                                                          inr (
                                                            inr (
                                                            inr (
                                                            inr (
                                                            inl refl))))))))))))))))))))))))))))))))

decides : Decides all_met auth_connect_v4 (in_force_at enabled) of_service
unfolding every any
decides = record {
  there = there;
  at_layer = refl;
  matching = refl;
  heaviest = λ g i l m.
      leb→le g.weight 15 (every-IsIn (λ h. leb h.weight 15) (in_force_at enabled) light i);
}

enable_firewall-MayPass_example : MayPass willing 5 servers all_met auth_connect_v4
enable_firewall-MayPass_example =
    enable_firewall-MayPass willing 5 servers [] all_met auth_connect_v4 of_service refl enables
      decides refl

enable_firewall-IsToServer_example : IsOfService willing all_met ⊎ IsToServer servers all_met
enable_firewall-IsToServer_example =
    enable_firewall-IsToServer willing 5 (v4 8) [] [] all_met auth_connect_v4 of_service refl
      enables (record { port = refl; protocol = inl refl }) (inl refl) decides refl

enable_firewall-Decides_example :
    (f : Filter) × Decides all_met auth_connect_v4 (in_force_at enabled) f
enable_firewall-Decides_example =
    enable_firewall-Decides willing 5 servers [] all_met auth_connect_v4 refl enables (inl refl)

-- The system takes every filter, and then refuses to commit.
abbrev reply_to : Call → Reply
reply_to (transaction_commit session) = failed 3
reply_to c = done 7

abbrev refusing : Os
refusing t c = reply_to c

-- A configuration whose peer takes all of IPv4.
abbrev whole : Prefix
whole = record { addr = v4 0; bits = 0 }

abbrev gateway_peer : Peer
gateway_peer = record empty_peer { allowed_ips = whole ∷ [] }

abbrev full_tunnel : Config
full_tunnel = record {
  name = [];
  interface = record empty_interface { dns = servers };
  peers = gateway_peer ∷ [];
  ws_tls_files = [];
  trailing_comments = [];
}

enables_tunnel : enable_tunnel_firewall willing full_tunnel 5 0 [] ≡ ((ok tt, enabled), 7)
unfolding enable_tunnel_firewall do_not_restrict is_default any prefix_eq addr_eq masked
enables_tunnel = enables

is_whole : whole ≡ masked whole
unfolding masked
is_whole = refl

enable_tunnel_firewall-MayPass_example : MayPass willing 5 servers all_met auth_connect_v4
enable_tunnel_firewall-MayPass_example =
    enable_tunnel_firewall-MayPass willing full_tunnel 5 [] gateway_peer whole all_met
      auth_connect_v4 of_service refl refl (inl refl) (refl, is_whole) refl enables_tunnel decides
      refl
