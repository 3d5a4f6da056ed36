-- ===== src/Firewall/Narrow.antt =====
-- tunnel/firewall/rules.go: the rules for DHCP and for neighbour discovery, on their ports and
-- message types alone.
use wireguard_windows.Base.{ℕ, ◌*◌, ◌+◌, ◌^◌, List, [], ◌∷◌, ok}
use wireguard_windows.Firewall.{
  ip_protocol, ip_local_port, ip_remote_port, ip_local_address, ip_remote_address, icmp_type,
  icmp_code, uint8, uint16, uint32, byte_array16, v6_addr_mask, Value, Condition, auth_connect_v4,
  auth_recv_accept_v4, auth_connect_v6, auth_recv_accept_v6, Layer, permit, Filter, BaseObjects, Os,
  Fw, ◌>>◌, equal, blank,
}
use wireguard_windows.Firewall.Rules.{add_at}

abbrev pub ipproto_udp : ℕ
ipproto_udp = 17

abbrev pub ipproto_tcp : ℕ
ipproto_tcp = 6

abbrev ipproto_icmpv6 : ℕ
ipproto_icmpv6 = 58

-- fe80::/10
abbrev pub link_local : Value
link_local = v6_addr_mask (0xfe80 * 2 ^ 112) 10

-- ff02::1:2, ff05::1:3 and ff02::2
abbrev pub link_local_dhcp_multicast : Value
link_local_dhcp_multicast = byte_array16 (0xff02 * 2 ^ 112 + 0x10002)

abbrev pub site_local_dhcp_multicast : Value
site_local_dhcp_multicast = byte_array16 (0xff05 * 2 ^ 112 + 0x10003)

abbrev pub link_local_router_multicast : Value
link_local_router_multicast = byte_array16 (0xff02 * 2 ^ 112 + 2)

abbrev pub udp_between : ℕ → ℕ → List Condition
udp_between local remote =
    equal ip_protocol (uint8 ipproto_udp)
    ∷ equal ip_local_port (uint16 local)
    ∷ equal ip_remote_port (uint16 remote)
    ∷ []

abbrev pub dhcp_v4_out : List Condition
dhcp_v4_out =
    equal ip_protocol (uint8 ipproto_udp)
    ∷ equal ip_local_port (uint16 68)
    ∷ equal ip_remote_port (uint16 67)
    ∷ equal ip_remote_address (uint32 0xffff_ffff)
    ∷ []

abbrev pub dhcp_v4_in : List Condition
dhcp_v4_in = udp_between 68 67

abbrev pub dhcp_v6_out : List Condition
dhcp_v6_out =
    equal ip_protocol (uint8 ipproto_udp)
    ∷ equal ip_remote_address link_local_dhcp_multicast
    ∷ equal ip_remote_address site_local_dhcp_multicast
    ∷ equal ip_remote_port (uint16 547)
    ∷ equal ip_local_address link_local
    ∷ equal ip_local_port (uint16 546)
    ∷ []

abbrev pub dhcp_v6_in : List Condition
dhcp_v6_in =
    equal ip_protocol (uint8 ipproto_udp)
    ∷ equal ip_remote_address link_local
    ∷ equal ip_remote_port (uint16 547)
    ∷ equal ip_local_address link_local
    ∷ equal ip_local_port (uint16 546)
    ∷ []

-- The conditions for a type of ICMPv6 message, with code 0.
abbrev pub icmp_v6 : ℕ → List Condition → List Condition
icmp_v6 type rest =
    equal ip_protocol (uint8 ipproto_icmpv6)
    ∷ equal icmp_type (uint16 type)
    ∷ equal icmp_code (uint16 0)
    ∷ rest

-- The definitions that are collected, then added one by one.
abbrev pub ndp_definitions : List (List Condition × Layer)
ndp_definitions =
    (icmp_v6 133 (equal ip_remote_address link_local_router_multicast ∷ []), auth_connect_v6)
    ∷ (icmp_v6 134 (equal ip_remote_address link_local ∷ []), auth_recv_accept_v6)
    ∷ (icmp_v6 135 [], auth_connect_v6)
    ∷ (icmp_v6 135 [], auth_recv_accept_v6)
    ∷ (icmp_v6 136 [], auth_connect_v6)
    ∷ (icmp_v6 136 [], auth_recv_accept_v6)
    ∷ (icmp_v6 137 (equal ip_remote_address link_local ∷ []), auth_recv_accept_v6)
    ∷ []

module _ (os : Os) (session : ℕ) (bo : BaseObjects) (weight : ℕ) where
  abbrev pub permit_when : List Condition → Layer → Filter
  permit_when cs layer = record (blank bo weight permit layer) { conditions = cs }

  unfoldable pub permit_dhcp_ipv4 : Fw (Unit {0})
  permit_dhcp_ipv4 = do
    add_at os session bo weight (permit_when dhcp_v4_out) auth_connect_v4
    add_at os session bo weight (permit_when dhcp_v4_in) auth_recv_accept_v4

  unfoldable pub permit_dhcp_ipv6 : Fw (Unit {0})
  permit_dhcp_ipv6 = do
    add_at os session bo weight (permit_when dhcp_v6_out) auth_connect_v6
    add_at os session bo weight (permit_when dhcp_v6_in) auth_recv_accept_v6

  unfoldable pub add_definitions : List (List Condition × Layer) → Fw (Unit {0})
  add_definitions [] t = (ok tt, t)
  add_definitions ((cs, layer) ∷ defs) t =
      (add_at os session bo weight (permit_when cs) layer >> add_definitions defs) t

  unfoldable pub permit_ndp : Fw (Unit {0})
  unfolding add_definitions
  permit_ndp = add_definitions ndp_definitions
