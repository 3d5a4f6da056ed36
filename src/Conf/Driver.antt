-- ===== src/Conf/Driver.antt =====
-- conf/writer.go `ToDriverConfiguration` and conf/parser.go `FromDriverConfiguration`.
pub mod Layout
pub mod Peers
pub mod RoundTrip
use wireguard_windows.Base.{
  ℕ, zero, suc, ◌+◌, ◌-◌, ◌*◌, ◌%◌, ◌^◌, Bool, true, false, not, List, [], ◌∷◌, ◌++◌, Option, none,
  some, if◌then◌else◌, ◌==◌, length, get_elem?, take, replicate, Result, ok, err, panic, ◌>>=◌,
}
use wireguard_windows.Conf.Types.{
  Addr, none_addr, v4, v6, Prefix, prefix_from, Endpoint, Key, zero_key, is_zero, Interface, Peer,
  Config, empty_peer, empty_endpoint, no_section_comments,
}
use wireguard_windows.Conf.Values.{Std, endpoint_is_empty}
use wireguard_windows.Driver.{
  Family, af_unspec, af_inet, af_inet6, bytes_of, number_from, Sockaddr, no_sockaddr, set_addr_port,
  addr_of, port_of, AllowedIp, DriverPeer, DriverInterface, peer_has_public_key,
  peer_has_preshared_key, peer_has_persistent_keepalive, peer_has_endpoint,
  interface_has_private_key, interface_has_listen_port, has_flag, Item, interface_item, peer_item,
  allowed_ip_item, Builder, preallocate, append_item, build, first_peer, next_peer,
  first_allowed_ip, next_allowed_ip, peer_of, allowed_ip_of,
}

-- The 16 bytes with those of an address in front.
unfoldable pub address_bytes : Addr → List ℕ
address_bytes none_addr = replicate 16 0
address_bytes (v4 n) = bytes_of 4 n ++ replicate 12 0
address_bytes (v6 n zone) = bytes_of 16 n

unfoldable pub family_of : Addr → Family
family_of none_addr = af_unspec
family_of (v4 n) = af_inet
family_of (v6 n zone) = af_inet6

unfoldable pub allowed_ip : Prefix → AllowedIp
allowed_ip p = record {
  address = address_bytes p.addr;
  address_family = family_of p.addr;
  cidr = p.bits % 256;
}

unfoldable pub append_allowed_ips : List Prefix → Builder → Builder
append_allowed_ips [] b = b
append_allowed_ips (a ∷ ips) b =
    append_allowed_ips ips (append_item (allowed_ip_item (allowed_ip a)) b)

-- `preallocation`
unfoldable pub preallocation : List Peer → ℕ
preallocation [] = 0
preallocation (p ∷ ps) = 136 + 24 * length p.allowed_ips + preallocation ps

unfoldable pub ip_of : Family → List ℕ → Addr
ip_of af_inet bytes = v4 (number_from 0 (take 4 bytes))
ip_of af_inet6 bytes = v6 (number_from 0 (take 16 bytes)) []
ip_of af_unspec bytes = none_addr

-- The handshake as nanoseconds since 1970, in 64 bits.
unfoldable pub handshake : ℕ → ℕ
handshake last = if last == 0 then 0 else (last + (2 ^ 64 - 116444736000000000)) * 100 % 2 ^ 64

-- The allowed IPs from the pointer `i` on, each with a `Cidr` that its address has: to
-- net/netip another one is no prefix.
unfoldable pub read_allowed_ips : List Item → ℕ → ℕ → Result ⊥ (List Prefix)
read_allowed_ips items zero i = ok []
read_allowed_ips items (suc n) i = elim (allowed_ip_of (get_elem? items i)) [
  | none ↦ panic
  | some a ↦ read_allowed_ips items n (next_allowed_ip i) >>= λ rest.
      ok (prefix_from (ip_of a.address_family a.address) a.cidr ∷ rest)
]

module _ (std : Std) where
  -- The address of an endpoint that is not empty and whose host is an address.
  unfoldable pub resolved : Endpoint → Option Addr
  resolved e = if endpoint_is_empty e then none else std.parse_addr e.host

  unfoldable pub sockaddr_of : Option Addr → ℕ → Sockaddr
  sockaddr_of none port = no_sockaddr
  sockaddr_of (some a) port = set_addr_port a port

  abbrev pub endpoint_flag : Option Addr → ℕ
  endpoint_flag none = 0
  endpoint_flag (some a) = peer_has_endpoint

  unfoldable pub driver_peer : Peer → DriverPeer
  driver_peer p = record {
    flags =
        peer_has_public_key
        + peer_has_persistent_keepalive
        + (if is_zero p.preshared_key then 0 else peer_has_preshared_key)
        + endpoint_flag (resolved p.endpoint);
    public_key = p.public_key;
    preshared_key = p.preshared_key;
    persistent_keepalive = p.persistent_keepalive;
    endpoint = sockaddr_of (resolved p.endpoint) p.endpoint.port;
    tx_bytes = 0;
    rx_bytes = 0;
    last_handshake = 0;
    allowed_ips_count = length p.allowed_ips % 2 ^ 32;
  }

  unfoldable pub append_peers : List Peer → Builder → Builder
  append_peers [] b = b
  append_peers (p ∷ ps) b =
      append_peers ps (append_allowed_ips p.allowed_ips (append_item (peer_item (driver_peer p)) b))

  unfoldable pub to_driver_configuration : Config → Option (List Item) × ℕ
  to_driver_configuration c =
      let b = preallocate ((80 + preallocation c.peers) % 2 ^ 32) none in
      let b =
        append_item
          (interface_item (record {
            flags = interface_has_private_key + interface_has_listen_port;
            listen_port = c.interface.listen_port;
            private_key = c.interface.private_key;
            peer_count = length c.peers % 2 ^ 32;
          }))
          b in
      build (append_peers c.peers b)

  unfoldable pub read_endpoint : DriverPeer → Endpoint
  read_endpoint p =
      if has_flag p.flags peer_has_endpoint
      then record {
        host = std.addr_string (addr_of p.endpoint.family p.endpoint);
        port = port_of p.endpoint.family p.endpoint;
      }
      else empty_endpoint

  unfoldable pub read_peer : DriverPeer → List Prefix → Peer
  read_peer p allowed_ips = record empty_peer {
    public_key = if has_flag p.flags peer_has_public_key then p.public_key else zero_key;
    preshared_key = if has_flag p.flags peer_has_preshared_key then p.preshared_key else zero_key;
    endpoint = read_endpoint p;
    persistent_keepalive =
        if has_flag p.flags peer_has_persistent_keepalive then p.persistent_keepalive else 0;
    tx_bytes = p.tx_bytes;
    rx_bytes = p.rx_bytes;
    last_handshake_time = handshake p.last_handshake;
    allowed_ips = allowed_ips;
  }

  module _ (items : List Item) where
    -- The loop over the peers: `n` are left, the next one at the pointer `i`.
    unfoldable pub read_peers : ℕ → ℕ → Result ⊥ (List Peer)
    read_peers zero i = ok []
    read_peers (suc n) i = elim (peer_of (get_elem? items i)) [
      | none ↦ panic
      | some p ↦ read_allowed_ips items p.allowed_ips_count (first_allowed_ip i) >>= λ allowed_ips.
          read_peers n (next_peer i p) >>= λ rest. ok (read_peer p allowed_ips ∷ rest)
    ]

    -- `FromDriverConfiguration`, of the interface at the front of the records.
    unfoldable pub from_driver_configuration : DriverInterface → Config → Result ⊥ Config
    from_driver_configuration interfaze existing =
        let kept = existing.interface in
        let i : Interface = record kept {
          private_key =
              if has_flag interfaze.flags interface_has_private_key
              then interfaze.private_key
              else zero_key;
          listen_port =
              if has_flag interfaze.flags interface_has_listen_port
              then interfaze.listen_port
              else 0;
          comments = no_section_comments;
        } in
        read_peers interfaze.peer_count (first_peer 0) >>= λ peers. ok (record {
          name = existing.name;
          interface = i;
          peers = peers;
          ws_tls_files = [];
          trailing_comments = [];
        })
