-- ===== src/Tunnel/AddressConfig.antt =====
-- tunnel/addressconfig.go: the addresses, routes, MTU and name servers of the tunnel's interface,
-- and whether its firewall restricts. The calls of the system, each with its reply, are a trace;
-- `cleanupAddressesOnDisconnectedInterfaces` is one of them.
pub mod Retries
pub mod Restricted
use wireguard_windows.Base.{
  ℕ, zero, suc, ◌+◌, Bool, true, false, not, ◌&&◌, ◌||◌, List, [], ◌∷◌, ◌++◌, Option, none, some,
  if◌then◌else◌, ltb, ◌==◌, any,
}
use wireguard_windows.Base.Text.{Text}
use wireguard_windows.Conf.Types.{Addr, none_addr, v4, v6, is_6, Prefix, masked, Peer, Config}
use wireguard_windows.Conf.Config.{addr_eq, prefix_eq}
use wireguard_windows.Driver.{Family, af_unspec, af_inet, af_inet6}
use wireguard_windows.Firewall
use wireguard_windows.Firewall.{Os, Outcome}
use wireguard_windows.Firewall.Blocker.{enable_firewall}
use wireguard_windows.Tunnel.{is_4}

-- `winipcfg.RouteData`
pub record RouteData : Type 0 where
  pub destination : Prefix
  pub next_hop : Addr
  pub metric : ℕ

-- `routes`, and what was found of each family.
pub record Routes : Type 0 where
  pub routes : List RouteData
  pub route4 : Bool
  pub route6 : Bool
  pub default4 : Bool
  pub default6 : Bool

abbrev pub no_routes : Routes
no_routes = record {
  routes = [];
  route4 = false;
  route6 = false;
  default4 = false;
  default6 = false;
}

unfoldable pub route_data_eq : RouteData → RouteData → Bool
route_data_eq r s =
    prefix_eq r.destination s.destination && addr_eq r.next_hop s.next_hop && r.metric == s.metric

-- `routes[route] = true`; the order of the map is not the code's.
unfoldable pub add_route_data : RouteData → List RouteData → List RouteData
add_route_data r rs = if any (λ s. route_data_eq s r) rs then rs else rs ++ r ∷ []

abbrev pub route_to : Prefix → Addr → RouteData
route_to p next_hop = record { destination = masked p; next_hop = next_hop; metric = 0 }

unfoldable pub take_allowed_ip : Prefix → Routes → Routes
take_allowed_ip p s =
    if is_4 p.addr
    then record s {
      routes = add_route_data (route_to p (v4 0)) s.routes;
      route4 = true;
      default4 = s.default4 || p.bits == 0;
    }
    else if is_6 p.addr
    then record s {
      routes = add_route_data (route_to p (v6 0 [])) s.routes;
      route6 = true;
      default6 = s.default6 || p.bits == 0;
    }
    else record s { routes = add_route_data (route_to p none_addr) s.routes }

unfoldable pub take_allowed_ips : List Prefix → Routes → Routes
take_allowed_ips [] s = s
take_allowed_ips (p ∷ ps) s = take_allowed_ips ps (take_allowed_ip p s)

unfoldable pub take_peers : List Peer → Routes → Routes
take_peers [] s = s
take_peers (p ∷ ps) s = take_peers ps (take_allowed_ips p.allowed_ips s)

-- What is written into the row of the interface, besides the fields that every call writes: the
-- MTU, if one is set, and whether the metric becomes 0.
pub record InterfaceRow : Type 0 where
  pub nl_mtu : Option ℕ
  pub metric_0 : Bool

pub data Errno : Type 0 where
  not_found object_already_exists : Errno
  other : ℕ → Errno

pub data Call : Type 0 where
  set_routes_for_family : Family → List RouteData → Call
  set_ip_addresses_for_family clean_up : Family → List Prefix → Call
  ip_interface : Family → Call
  set_interface : InterfaceRow → Call
  set_dns : Family → List Addr → List Text → Call
  sleep : Call

abbrev pub Trace : Type 0
Trace = List (Call × Option Errno)

-- The error that a call returns, given the calls before it.
abbrev pub System : Type 0
System = Trace → Call → Option Errno

-- How a part of an attempt ends: with the next part, with `startOver`, or with an error.
pub data Ending : Type 0 where
  goes_on start_over : Ending
  fails : Errno → Ending

abbrev pub Part : Type 0
Part = Trace → Ending × Trace

abbrev pub and_then : Part → Ending × Trace → Ending × Trace
and_then next (goes_on, t) = next t
and_then next (start_over, t) = (start_over, t)
and_then next (fails e, t) = (fails e, t)

abbrev pub nothing : Part
nothing t = (goes_on, t)

-- `err == ERROR_NOT_FOUND && retryOnFailure`
abbrev pub ending : Bool → Option Errno → Ending
ending retry none = goes_on
ending retry (some not_found) = if retry then start_over else fails not_found
ending retry (some e) = fails e

unfoldable pub called : System → Bool → Call → Part
called sys retry c t = (ending retry (sys t c), (c, sys t c) ∷ t)

abbrev pub is_already_exists : Option Errno → Bool
is_already_exists (some object_already_exists) = true
is_already_exists _ = false

-- SetIPAddressesForFamily, once more after a clean-up if an address exists already.
unfoldable pub set_addresses : System → Bool → Family → List Prefix → Part
set_addresses sys retry family addresses t =
    let c : Call = set_ip_addresses_for_family family addresses in
    let cleaned : Trace = (clean_up family addresses, none) ∷ (c, some object_already_exists) ∷ t in
    if is_already_exists (sys t c) then called sys retry c cleaned else called sys retry c t

abbrev pub of_family : Family → Bool → Bool → Bool
of_family af_inet four six = four
of_family af_inet6 four six = six
of_family af_unspec four six = false

module _ (sys : System) (family : Family) (config : Config) (retry : Bool) where
  unfoldable pub found : Routes
  found = take_peers config.peers no_routes

  unfoldable pub found_address : Bool
  found_address =
      of_family family (any (λ p. is_4 p.addr) config.interface.addresses)
        (any (λ p. is_6 p.addr) config.interface.addresses)

  unfoldable pub routes_part : Part
  routes_part t =
      if not config.interface.table_off && of_family family found.route4 found.route6
      then called sys retry (set_routes_for_family family found.routes) t
      else nothing t

  unfoldable pub addresses_part : Part
  addresses_part t =
      if found_address
      then set_addresses sys retry family config.interface.addresses t
      else nothing t

  unfoldable pub interface_row : InterfaceRow
  interface_row = record {
    nl_mtu =
        if not (config.interface.mtu == 0)
          && (found_address || of_family family found.route4 found.route6)
        then some config.interface.mtu
        else none;
    metric_0 = of_family family found.default4 found.default6;
  }

  -- Reading the row is not tried again.
  unfoldable pub interface_part : Part
  interface_part t =
      and_then (called sys retry (set_interface interface_row))
        (called sys false (ip_interface family) t)

  unfoldable pub dns_part : Part
  dns_part = called sys retry (set_dns family config.interface.dns config.interface.dns_search)

  -- What stands between `startOver` and the return.
  unfoldable pub attempt : Part
  attempt t = and_then dns_part (and_then interface_part (and_then addresses_part (routes_part t)))

-- What follows `startOver`: whether a failure is tried again, and the events.
abbrev pub retries : ℕ → Bool → Bool
retries tries retry = if tries == 0 then retry else retry && ltb tries 15

abbrev pub pause : ℕ → Trace → Trace
pause tries t = if tries == 0 then t else (sleep, none) ∷ t

-- The loop from `startOver`; the result is `none` where the fuel ends, and then the error.
unfoldable pub configure_loop :
    ℕ → System → Family → Config → ℕ → Bool → Trace → Option (Option Errno) × Trace
configure_loop zero sys family config tries retry t = (none, t)
configure_loop (suc fuel) sys family config tries retry t =
    let a = attempt sys family config (retries tries retry) (pause tries t) in
    elim a.0 [
      | goes_on ↦ (some none, a.1)
      | fails e ↦ (some (some e), a.1)
      | start_over ↦ configure_loop fuel sys family config (tries + 1) (retries tries retry) a.1
    ]

unfoldable pub configure_interface :
    System → Family → Config → Bool → Trace → Option (Option Errno) × Trace
configure_interface sys family config started_at_boot t =
    configure_loop 16 sys family config 0 started_at_boot t

-- An allowed IP that is a whole family.
unfoldable pub is_default : Prefix → Bool
is_default p = p.bits == 0 && prefix_eq p (masked p)

unfoldable pub do_not_restrict : Config → Bool
do_not_restrict config = elim config.peers [
  | [] ↦ true
  | p ∷ rest ↦ elim rest [
    | [] ↦ config.interface.table_off || not (any is_default p.allowed_ips)
    | q ∷ more ↦ true
  ]
]

-- `enableFirewall` of addressconfig.go.
unfoldable pub enable_tunnel_firewall :
    Os → Config → ℕ → ℕ → Firewall.Trace → Outcome (Unit {0}) × ℕ
enable_tunnel_firewall os config luid wfp_session t =
    enable_firewall os luid (do_not_restrict config) config.interface.dns wfp_session t
