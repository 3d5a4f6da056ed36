-- ===== src/Firewall/Dns.antt =====
-- tunnel/firewall/rules.go: `blockDNS`, which keeps name lookups to the servers of the tunnel.
use wireguard_windows.Base.{ℕ, List, [], ◌∷◌, ◌++◌, if◌then◌else◌, leb, ltb, length}
use wireguard_windows.Conf.Types.{Addr, v4, v6}
use wireguard_windows.Firewall.{
  ip_protocol, ip_remote_port, ip_remote_address, uint8, uint16, uint32, byte_array16, Condition,
  auth_connect_v4, auth_recv_accept_v4, auth_connect_v6, auth_recv_accept_v6, Layer, permit, block,
  Filter, BaseObjects, bad_weights, Os, Fw, pure, raise, ◌>>◌, equal, blank,
}
use wireguard_windows.Firewall.Rules.{add_at, add_everywhere}
use wireguard_windows.Firewall.Narrow.{ipproto_udp, ipproto_tcp}

abbrev pub deny_conditions : List Condition
deny_conditions =
    equal ip_remote_port (uint16 53)
    ∷ equal ip_protocol (uint8 ipproto_udp)
    ∷ equal ip_protocol (uint8 ipproto_tcp)
    ∷ []

-- The condition that the remote address is this one.
abbrev pub server_v4 : ℕ → Condition
server_v4 n = equal ip_remote_address (uint32 n)

abbrev pub server_v6 : ℕ → Condition
server_v6 n = equal ip_remote_address (byte_array16 n)

unfoldable pub conditions_v4 : List Addr → List Condition
conditions_v4 [] = []
conditions_v4 (v4 n ∷ except) = server_v4 n ∷ conditions_v4 except
conditions_v4 (_ ∷ except) = conditions_v4 except

unfoldable pub conditions_v6 : List Addr → List Condition
conditions_v6 [] = []
conditions_v6 (v6 n zone ∷ except) = server_v6 n ∷ conditions_v6 except
conditions_v6 (_ ∷ except) = conditions_v6 except

module _ (os : Os) (session : ℕ) (bo : BaseObjects) where
  -- The filters for one family of addresses, if it has a server.
  unfoldable pub allow_dns : List Condition → ℕ → Layer → Layer → Fw (Unit {0})
  allow_dns allow weight out inbound =
      let filter : Layer → Filter =
        λ layer. record (blank bo weight permit layer) { conditions = allow } in
      if ltb (length deny_conditions) (length allow)
      then (add_at os session bo weight filter out >> add_at os session bo weight filter inbound)
      else pure tt

  unfoldable pub block_dns : List Addr → ℕ → ℕ → Fw (Unit {0})
  block_dns except weight_allow weight_deny =
      if leb weight_allow weight_deny then raise bad_weights else (do
        add_everywhere os session bo weight_deny
            (λ layer. record (blank bo weight_deny block layer) { conditions = deny_conditions })
        allow_dns (deny_conditions ++ conditions_v4 except) weight_allow auth_connect_v4
            auth_recv_accept_v4
        allow_dns (deny_conditions ++ conditions_v6 except) weight_allow auth_connect_v6
            auth_recv_accept_v6)
