-- ===== src/Tunnel.antt =====
-- tunnel/defaultroutemonitor.go and tunnel/mtumonitor.go: what they read of the route table and of
-- the configuration. What the system replied about the interface of a route stands in its row.
pub mod Usable
pub mod Gateways
pub mod Halves
pub mod Hosts
pub mod Monitor
pub mod Owned
pub mod Covered
pub mod Released
pub mod Mtu
pub mod AddressConfig
use wireguard_windows.Base.{
  ℕ, suc, ◌+◌, ◌-◌, ◌*◌, ◌/◌, ◌%◌, ◌^◌, Bool, true, false, not, ◌&&◌, ◌||◌, List, [], ◌∷◌, ◌++◌,
  Option, none, some, if◌then◌else◌, ltb, ◌==◌, any, Result, ok, err, panic,
}
use wireguard_windows.Base.Text.{is_empty}
use wireguard_windows.Conf.Types.{
  Addr, none_addr, v4, v6, bit_len, Prefix, prefix_from, Peer, Config,
}
use wireguard_windows.Conf.Config.{addr_eq, prefix_eq}
use wireguard_windows.Conf.Values.{Std}
use wireguard_windows.Driver.{Family, af_unspec, af_inet, af_inet6}

-- A row of GetIPForwardTable2. `oper_up` is whether Interface() of its LUID is up, and
-- `interface_metric` the metric of IPInterface(family); `none` is an error of that call.
pub record Row : Type 0 where
  pub destination_length : ℕ
  pub luid : ℕ
  pub index : ℕ
  pub next_hop : Addr
  pub metric : ℕ
  pub oper_up : Option Bool
  pub interface_metric : Option ℕ

-- `defaultGateway`
pub record Gateway : Type 0 where
  pub luid : ℕ
  pub index : ℕ
  pub next_hop : Addr

abbrev pub no_gateway : Gateway
no_gateway = record { luid = 0; index = 0; next_hop = none_addr }

unfoldable pub gateway_eq : Gateway → Gateway → Bool
gateway_eq g h = g.luid == h.luid && g.index == h.index && addr_eq g.next_hop h.next_hop

abbrev pub is_up : Option Bool → Bool
is_up none = false
is_up (some up) = up

-- The combined metric of a row that the loops do not skip.
unfoldable pub candidate : ℕ → Row → Option ℕ
candidate our_luid r =
    if not (r.destination_length == 0) || r.luid == our_luid || not (is_up r.oper_up)
    then none
    else elim r.interface_metric [ none ↦ none | some m ↦ some ((r.metric + m) % 2 ^ 64) ]

abbrev pub gateway_of : Row → Gateway
gateway_of r = record { luid = r.luid; index = r.index; next_hop = r.next_hop }

-- The loop of `findDefaultGateway`, with the lowest metric and the gateway so far.
unfoldable pub find_gateway_loop : ℕ → List Row → ℕ → Gateway → Gateway
find_gateway_loop our_luid [] lowest g = g
find_gateway_loop our_luid (r ∷ rs) lowest g = elim (candidate our_luid r) [
  | none ↦ find_gateway_loop our_luid rs lowest g
  | some m ↦
      let better = find_gateway_loop our_luid rs m (gateway_of r) in
      let rest = find_gateway_loop our_luid rs lowest g in if ltb m lowest then better else rest
]

unfoldable pub find_default_gateway : Result ℕ (List Row) → ℕ → Result ℕ Gateway
find_default_gateway (ok rows) our_luid =
    ok (find_gateway_loop our_luid rows (2 ^ 64 - 1) no_gateway)
find_default_gateway (err e) our_luid = err e
find_default_gateway panic our_luid = panic

-- `findDefaultLUID` of mtumonitor.go: the LUID and the index that it leaves in `lastLUID` and
-- `lastIndex`.
unfoldable pub find_luid_loop : ℕ → List Row → ℕ → ℕ × ℕ → ℕ × ℕ
find_luid_loop our_luid [] lowest found = found
find_luid_loop our_luid (r ∷ rs) lowest found = elim (candidate our_luid r) [
  | none ↦ find_luid_loop our_luid rs lowest found
  | some m ↦
      let better = find_luid_loop our_luid rs m (r.luid, r.index) in
      let rest = find_luid_loop our_luid rs lowest found in if ltb m lowest then better else rest
]

unfoldable pub find_default_luid : Result ℕ (List Row) → ℕ → ℕ × ℕ → Result ℕ (ℕ × ℕ)
find_default_luid (ok rows) our_luid last =
    let found = find_luid_loop our_luid rows (2 ^ 64 - 1) (0, 0) in
    if found.0 == last.0 && found.1 == last.1 then ok last else ok found
find_default_luid (err e) our_luid last = err e
find_default_luid panic our_luid last = panic

-- netip.Addr.Unmap
unfoldable pub unmap : Addr → Addr
unmap (v6 n zone) = if n / 2 ^ 32 == 0xffff then v4 (n % 2 ^ 32) else v6 n zone
unmap a = a

abbrev pub is_4 : Addr → Bool
is_4 (v4 n) = true
is_4 _ = false

abbrev pub is_inet : Family → Bool
is_inet af_inet = true
is_inet _ = false

abbrev pub same : Bool → Bool → Bool
same true b = b
same false b = not b

-- The host of a peer's WebSocket server, if it has one of this family.
unfoldable pub server_host : Std → Family → Peer → Option Prefix
server_host std family peer =
    if is_empty peer.ws_url then none else elim (std.parse_addr peer.endpoint.host) [
      | none ↦ none
      | some a ↦
          if same (is_4 (unmap a)) (is_inet family)
          then some (prefix_from (unmap a) (bit_len (unmap a)))
          else none
    ]

unfoldable pub add_host : Option Prefix → List Prefix → List Prefix
add_host none hosts = hosts
add_host (some p) hosts = if any (λ host. prefix_eq host p) hosts then hosts else hosts ++ p ∷ []

-- `webSocketServerHosts`
unfoldable pub hosts_loop : Std → Family → List Peer → List Prefix → List Prefix
hosts_loop std family [] hosts = hosts
hosts_loop std family (peer ∷ peers) hosts =
    hosts_loop std family peers (add_host (server_host std family peer) hosts)

unfoldable pub web_socket_server_hosts : Std → Config → Family → List Prefix
web_socket_server_hosts std config family = hosts_loop std family config.peers []

abbrev pub zero_of : Family → Addr
zero_of af_inet = v4 0
zero_of _ = v6 0 []

abbrev pub half_of : Family → Addr
half_of af_inet = v4 0x8000_0000
half_of _ = v6 (2 ^ 127) []

-- `foundFull`, `foundHalf0` and `foundHalf1`
pub record Found : Type 0 where
  pub full : Bool
  pub half0 : Bool
  pub half1 : Bool

unfoldable pub found_in : Family → List Prefix → Found → Found
found_in family [] f = f
found_in family (p ∷ ps) f = found_in family ps (
    if prefix_eq p (prefix_from (zero_of family) 0)
    then record f { full = true }
    else if prefix_eq p (prefix_from (zero_of family) 1)
    then record f { half0 = true }
    else if prefix_eq p (prefix_from (half_of family) 1)
    then record f { half1 = true }
    else f)

unfoldable pub found_in_peers : Family → List Peer → Found → Found
found_in_peers family [] f = f
found_in_peers family (p ∷ ps) f = found_in_peers family ps (found_in family p.allowed_ips f)

unfoldable pub has_default_route : Family → Config → Bool
has_default_route family config =
    let f =
      found_in_peers family config.peers (record { full = false; half0 = false; half1 = false }) in
    f.full || f.half0 && f.half1
