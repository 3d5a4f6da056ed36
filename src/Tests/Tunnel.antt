-- ===== src/Tests/Tunnel.antt =====
-- The theorems about the monitors of a tunnel, at a peer with a WebSocket server and two networks.
use wireguard_windows.Base.{
  Option, ℕ, ◌-◌, ◌<◌, ◌^◌, ◌≤◌, true, false, List, [], ◌∷◌, none, some, any, Result, ok, err,
  ◌>>=◌, ◌≡◌, ◌↔◌, ◌⊎◌, refl, arith, IsIn, All,
}
use wireguard_windows.Base.Text.{codes}
use wireguard_windows.Base.Decimal.{parse_nat}
use wireguard_windows.Conf.Config.{prefix_eq, addr_eq}
use wireguard_windows.Conf.Types.{
  v4, Prefix, Peer, Config, empty_interface, empty_peer, bit_len, prefix_from,
}
use wireguard_windows.Driver.{af_inet}
use wireguard_windows.Tunnel.{
  Row, no_gateway, gateway_of, candidate, find_gateway_loop, find_default_gateway,
  find_default_luid, gateway_eq, unmap, server_host, add_host, hosts_loop, web_socket_server_hosts,
  found_in, found_in_peers, has_default_route,
}
use wireguard_windows.Tunnel.Monitor.{
  added, refused, Trace, System, RouteMonitor, delete_routes, own, add_routes, after_adding,
  move_to, update_family, update_locked, remove_host_routes, new_family, new_default_route_monitor,
  Action, updates, deletes, starts, run, destroy,
}
use wireguard_windows.Tunnel.Owned.{outstanding}
use wireguard_windows.Tunnel.Released.{destroy-outstanding, new_default_route_monitor-outstanding}
use wireguard_windows.Tunnel.Gateways.{
  IsLowest, find_default_gateway-IsLowest, find_default_luid-find_default_gateway,
}
use wireguard_windows.Tunnel.Usable.{IsUnusable}
use wireguard_windows.Tunnel.Hosts.{AreDistinct, IsDialled, web_socket_server_hosts-IsDialled}
use wireguard_windows.Tunnel.Mtu.{Replies, MtuState, force_mtu}
use wireguard_windows.Tunnel.Mtu.Bounds.{force_mtu-smallest}
use wireguard_windows.Tests.Sample.{sample}
use wireguard_windows.Tunnel.AddressConfig
use wireguard_windows.Tunnel.AddressConfig.{
  Errno, not_found, Call, set_interface, configure_interface,
}
use wireguard_windows.Tunnel.AddressConfig.Retries.{sleeps, configure_interface-EndsWithin}

abbrev gateway_row : ℕ → ℕ → Row
gateway_row luid metric = record {
  destination_length = 0;
  luid = luid;
  index = luid;
  next_hop = v4 1;
  metric = metric;
  oper_up = some true;
  interface_metric = some 25;
}

abbrev wired : List Row
wired = gateway_row 9 0 ∷ gateway_row 3 50 ∷ gateway_row 4 10 ∷ []

abbrev wireless : List Row
wireless = gateway_row 9 0 ∷ gateway_row 3 50 ∷ []

abbrev answers : List Row → System
answers rows = record {
  forward_table = λ family. ok rows;
  add_reply = λ t r. added;
  bind_reply = λ t family index blackhole. none;
}

abbrev refuses : System
refuses = record (answers wired) { add_reply = λ t r. refused 5 }

abbrev server : Peer
server = record empty_peer {
  ws_url = codes "wss://x";
  endpoint = record { host = codes "f77"; port = 443 };
  allowed_ips = record { addr = v4 0; bits = 1 } ∷ record { addr = v4 0x8000_0000; bits = 1 } ∷ [];
}

abbrev dialling : Config
dialling = record {
  name = codes "office";
  interface = empty_interface;
  peers = server ∷ server ∷ [];
  ws_tls_files = [];
  trailing_comments = [];
}

abbrev idle : RouteMonitor
idle = record { our_luid = 9; families = []; following = false }

abbrev monitor_of : Result ℕ RouteMonitor → RouteMonitor
monitor_of (ok m) = m
monitor_of _ = idle

abbrev made : Result ℕ RouteMonitor × Trace
made = new_default_route_monitor sample (answers wired) dialling 9 []

is_made : made ≡ (ok (monitor_of made.0), made.1)
unfolding new_default_route_monitor new_family web_socket_server_hosts hosts_loop add_host
    server_host unmap sample parse_nat has_default_route found_in_peers found_in update_locked
    update_family find_default_gateway find_gateway_loop candidate move_to gateway_eq add_routes own
    delete_routes after_adding prefix_from bit_len any prefix_eq addr_eq
is_made = refl

abbrev actions : List Action
actions =
    starts (answers wired) none
    ∷ updates (answers wireless)
    ∷ deletes (record { addr = v4 77; bits = 32 })
    ∷ updates (answers wired)
    ∷ []

destroy-outstanding_example :
    outstanding
      (destroy
        (run actions (monitor_of made.0) made.1).0
        (run actions (monitor_of made.0) made.1).1).1
    ≡ []
destroy-outstanding_example =
    destroy-outstanding sample (answers wired) dialling 9 (monitor_of made.0) made.1 is_made actions

abbrev not_made : Result ℕ RouteMonitor × Trace
not_made = new_default_route_monitor sample refuses dialling 9 []

is_not_made : not_made ≡ (err 5, not_made.1)
unfolding new_default_route_monitor new_family web_socket_server_hosts hosts_loop add_host
    server_host unmap sample parse_nat has_default_route found_in_peers found_in update_locked
    update_family find_default_gateway find_gateway_loop candidate move_to gateway_eq add_routes own
    delete_routes after_adding prefix_from bit_len any prefix_eq addr_eq remove_host_routes
is_not_made = refl

new_default_route_monitor-outstanding_example : outstanding not_made.1 ≡ []
new_default_route_monitor-outstanding_example =
    new_default_route_monitor-outstanding sample refuses dialling 9 is_not_made

finds_lowest : find_default_gateway (ok wired) 9 ≡ ok (gateway_of (gateway_row 4 10))
unfolding find_default_gateway find_gateway_loop candidate
finds_lowest = refl

find_default_gateway-IsLowest_example :
    IsLowest 9 wired (gateway_of (gateway_row 4 10))
    ⊎ ((gateway_of (gateway_row 4 10) ≡ no_gateway) × All (IsUnusable 9) wired)
find_default_gateway-IsLowest_example =
    find_default_gateway-IsLowest 9 wired
      ((omega arith, omega arith), ((omega arith, omega arith), ((omega arith, omega arith), tt)))
      finds_lowest

find_default_luid-find_default_gateway_example :
    find_default_luid (ok wired) 9 (3, 3)
    ≡ (find_default_gateway (ok wired) 9 >>= λ g. ok (g.luid, g.index))
find_default_luid-find_default_gateway_example =
    find_default_luid-find_default_gateway (ok wired) 9 (3, 3)

web_socket_server_hosts-IsDialled_example :
    AreDistinct (web_socket_server_hosts sample dialling af_inet)
    × ((h : Prefix)
        → IsIn h (web_socket_server_hosts sample dialling af_inet)
          ↔ IsDialled sample af_inet dialling.peers h)
web_socket_server_hosts-IsDialled_example =
    web_socket_server_hosts-IsDialled sample dialling af_inet

abbrev replies : Replies
replies = record {
  forward_table = ok wired;
  interface_mtu = λ luid. ok 1500;
  ip_interface = ok tt;
  set_reply = λ n. ok tt;
}

abbrev at_first : MtuState
at_first = record { last_luid = 0; last_index = 2 ^ 32 - 1; last_mtu = 0 }

force_mtu-smallest_example :
    IsIn (force_mtu 1 1280 (1420 ∷ 0 ∷ [])).1 (force_mtu 1 1280 (1420 ∷ 0 ∷ [])).0
    × (0 < (force_mtu 1 1280 (1420 ∷ 0 ∷ [])).1)
    × All
        (λ m. (m ≡ 0) ⊎ ((force_mtu 1 1280 (1420 ∷ 0 ∷ [])).1 ≤ m))
        (force_mtu 1 1280 (1420 ∷ 0 ∷ [])).0
force_mtu-smallest_example = force_mtu-smallest 1 1280 (1420 ∷ 0 ∷ []) (omega arith) (omega arith)

-- The interface is never found.
abbrev absent : Call → Option Errno
absent (set_interface row) = some not_found
absent c = none

abbrev never_found : AddressConfig.System
never_found t c = absent c

configure_interface-EndsWithin_example :
    ((outcome : Option Errno) × ((configure_interface never_found af_inet dialling true []).0
        ≡ some outcome))
    × (sleeps (configure_interface never_found af_inet dialling true []).1 ≤ 15)
configure_interface-EndsWithin_example =
    configure_interface-EndsWithin never_found af_inet dialling true
