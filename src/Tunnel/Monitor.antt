-- ===== src/Tunnel/Monitor.antt =====
-- tunnel/defaultroutemonitor.go: the monitor that keeps a host route to each WebSocket server
-- through the default gateway. What it asks of the system, and of the sockets, is a trace of
-- events. A Go map of routes is a list; its order is not the code's.
use wireguard_windows.Base.{
  ℕ, Bool, true, false, not, ◌&&◌, ◌||◌, List, [], ◌∷◌, Option, none, some, if◌then◌else◌, ◌==◌,
  any, Result, ok, err, panic,
}
use wireguard_windows.Base.Text.{is_empty}
use wireguard_windows.Conf.Types.{Addr, Prefix, Config}
use wireguard_windows.Conf.Config.{prefix_eq}
use wireguard_windows.Conf.Values.{Std}
use wireguard_windows.Driver.{Family, af_inet, af_inet6}
use wireguard_windows.Tunnel.{
  Row, Gateway, no_gateway, gateway_eq, find_default_gateway, web_socket_server_hosts,
  has_default_route,
}

-- A host route: AddRoute and DeleteRoute of the LUID, with metric 0.
pub record Route : Type 0 where
  pub luid : ℕ
  pub host : Prefix
  pub next_hop : Addr

pub data Reply : Type 0 where
  added already_exists : Reply
  refused : ℕ → Reply

pub data Event : Type 0 where
  add_route : Route → Reply → Event
  delete_route : Route → Event
  rebind : Event
  bind_socket : Family → ℕ → Bool → Option ℕ → Event

abbrev pub Trace : Type 0
Trace = List Event

-- What the system replies during one call of the monitor, given the events so far.
pub record System : Type 0 where
  pub forward_table : Family → Result ℕ (List Row)
  pub add_reply : Trace → Route → Reply
  pub bind_reply : Trace → Family → ℕ → Bool → Option ℕ

-- `defaultRouteFamily`
pub record RouteFamily : Type 0 where
  pub family : Family
  pub blackhole : Bool
  pub hosts : List Prefix
  pub gateway : Gateway
  pub owned : List Prefix
  pub incomplete : Bool

-- `defaultRouteMonitor`; `following` is `callbacks != nil`.
pub record RouteMonitor : Type 0 where
  pub our_luid : ℕ
  pub families : List RouteFamily
  pub following : Bool

abbrev pub route_through : Gateway → Prefix → Route
route_through g host = record { luid = g.luid; host = host; next_hop = g.next_hop }

unfoldable pub delete_routes : Gateway → List Prefix → Trace → Trace
delete_routes g [] t = t
delete_routes g (host ∷ owned) t = delete_routes g owned (delete_route (route_through g host) ∷ t)

unfoldable pub own : Prefix → List Prefix → List Prefix
own host owned = if any (λ o. prefix_eq o host) owned then owned else host ∷ owned

-- The loop over the hosts: `owned`, `moved`, the error that ended it, and the events.
pub record Added : Type 0 where
  pub owned : List Prefix
  pub moved : Bool
  pub error : Option ℕ
  pub trace : Trace

unfoldable pub add_routes : System → Gateway → List Prefix → List Prefix → Bool → Trace → Added
add_routes sys g [] owned moved t = record { owned = owned; moved = moved; error = none; trace = t }
add_routes sys g (host ∷ hosts) owned moved t =
    let skipped = add_routes sys g hosts owned moved t in
    let r : Route = route_through g host in
    if g.luid == 0 then skipped else elim (sys.add_reply t r) [
      | added ↦ add_routes sys g hosts (own host owned) true (add_route r added ∷ t)
      | already_exists ↦ add_routes sys g hosts owned moved (add_route r already_exists ∷ t)
      | refused e ↦ record {
        owned = owned;
        moved = moved;
        error = some e;
        trace = add_route r (refused e) ∷ t;
      }
    ]

-- One round of the loop of `updateLocked`.
pub record Updated : Type 0 where
  pub route_family : RouteFamily
  pub moved : Bool
  pub error : Option ℕ
  pub trace : Trace

abbrev pub nothing_done : RouteFamily → Bool → Option ℕ → Trace → Updated
nothing_done f moved error t = record { route_family = f; moved = moved; error = error; trace = t }

abbrev pub first_error : Option ℕ → Option ℕ → Option ℕ
first_error none e = e
first_error (some e) _ = some e

abbrev pub is_failed : Option ℕ → Bool
is_failed none = false
is_failed (some e) = true

unfoldable pub after_adding : RouteFamily → Gateway → Option ℕ → Added → Updated
after_adding f g error a = record {
  route_family = record f { gateway = g; owned = a.owned; incomplete = is_failed a.error };
  moved = a.moved;
  error = first_error error a.error;
  trace = a.trace;
}

unfoldable pub move_to : System → RouteFamily → Gateway → Bool → Option ℕ → Trace → Updated
move_to sys f g moved error t =
    if gateway_eq g f.gateway && not f.incomplete
    then nothing_done f moved error t
    else if gateway_eq f.gateway g
    then after_adding f g error (add_routes sys g f.hosts f.owned moved t)
    else after_adding f g error (
        add_routes sys g f.hosts [] (moved || not (is_empty f.hosts))
          (delete_routes f.gateway f.owned t))

abbrev pub after_finding :
    System → RouteFamily → Result ℕ Gateway → Bool → Option ℕ → Trace → Updated
after_finding sys f (ok g) moved error t = move_to sys f g moved error t
after_finding sys f (err e) moved error t = nothing_done f moved (first_error error (some e)) t
after_finding sys f panic moved error t = nothing_done f moved error t

unfoldable pub update_family : System → ℕ → RouteFamily → Bool → Option ℕ → Trace → Updated
update_family sys our_luid f moved error t =
    after_finding sys f (find_default_gateway (sys.forward_table f.family) our_luid) moved error t

-- `updateLocked`: the families, whether a route moved, the first error, and the events.
unfoldable pub update_locked :
    System
    → ℕ
    → List RouteFamily
    → Bool
    → Option ℕ
    → Trace
    → List RouteFamily × Bool × Option ℕ × Trace
update_locked sys our_luid [] moved error t = ([], moved, error, t)
update_locked sys our_luid (f ∷ fs) moved error t =
    let u = update_family sys our_luid f moved error t in
    let rest = update_locked sys our_luid fs u.moved u.error u.trace in
    (u.route_family ∷ rest.0, rest.1, rest.2, rest.3)

-- `pinSocketsLocked`: the error that ended it, and the events.
unfoldable pub pin_sockets : System → List RouteFamily → Trace → Option ℕ × Trace
pin_sockets sys [] t = (none, t)
pin_sockets sys (f ∷ fs) t =
    let blackhole = f.blackhole && f.gateway.index == 0 in
    let bind : Option ℕ → Event = bind_socket f.family f.gateway.index blackhole in
    elim (sys.bind_reply t f.family f.gateway.index blackhole) [
      | none ↦ pin_sockets sys fs (bind none ∷ t)
      | some e ↦ (some e, bind (some e) ∷ t)
    ]

unfoldable pub remove_host_routes : List RouteFamily → Trace → List RouteFamily × Trace
remove_host_routes [] t = ([], t)
remove_host_routes (f ∷ fs) t =
    let rest = remove_host_routes fs (delete_routes f.gateway f.owned t) in
    (record f { gateway = no_gateway; owned = [] } ∷ rest.0, rest.1)

unfoldable pub new_family : Std → Config → Family → RouteFamily
new_family std config family = record {
  family = family;
  blackhole = has_default_route family config;
  hosts = web_socket_server_hosts std config family;
  gateway = no_gateway;
  owned = [];
  incomplete = false;
}

-- `newDefaultRouteMonitor`: an error, or the monitor; and the events.
unfoldable pub new_default_route_monitor :
    Std → System → Config → ℕ → Trace → Result ℕ RouteMonitor × Trace
new_default_route_monitor std sys config our_luid t =
    let fs : List RouteFamily =
      new_family std config af_inet ∷ new_family std config af_inet6 ∷ [] in
    let (updated, moved, error, after) = update_locked sys our_luid fs false none t in
    elim error [
      | none ↦ (ok (record { our_luid = our_luid; families = updated; following = false }), after)
      | some e ↦ (err e, (remove_host_routes updated after).1)
    ]

-- `hostRouteDeleted`, of the families in their order.
unfoldable pub host_route_deleted : Prefix → List RouteFamily → List RouteFamily
host_route_deleted prefix [] = []
host_route_deleted prefix (f ∷ fs) =
    let rest = host_route_deleted prefix fs in
    if any (λ host. prefix_eq host prefix) f.hosts
    then record f { incomplete = true } ∷ fs
    else f ∷ rest

-- `update`: the lock is held throughout.
unfoldable pub update : System → RouteMonitor → Trace → RouteMonitor × Trace
update sys m t =
    let (updated, moved, error, after) = update_locked sys m.our_luid m.families false none t in
    let rebound : Trace = if moved then rebind ∷ after else after in
    if not m.following
    then (m, t)
    else (record m { families = updated }, (pin_sockets sys updated rebound).1)

-- `start`: it pins the sockets, and follows the routes if both callbacks are registered.
unfoldable pub start : System → Option ℕ → RouteMonitor → Trace → RouteMonitor × Trace
start sys registered m t =
    let (error, after) = pin_sockets sys m.families t in
    elim (first_error error registered) [
      | none ↦ (record m { following = true }, after)
      | some e ↦ (m, after)
    ]

-- `Destroy`
unfoldable pub destroy : RouteMonitor → Trace → RouteMonitor × Trace
destroy m t =
    let (fs, after) = remove_host_routes m.families t in
    (record m { families = fs; following = false }, after)

-- What happens to a monitor until it is destroyed: a change of the routes or interfaces, a host
-- route that is deleted, the start.
pub data Action : Type 0 where
  updates : System → Action
  deletes : Prefix → Action
  starts : System → Option ℕ → Action

unfoldable pub step : Action → RouteMonitor → Trace → RouteMonitor × Trace
step (updates sys) m t = update sys m t
step (deletes p) m t = (record m { families = host_route_deleted p m.families }, t)
step (starts sys registered) m t = start sys registered m t

unfoldable pub run : List Action → RouteMonitor → Trace → RouteMonitor × Trace
run [] m t = (m, t)
run (a ∷ actions) m t = let (next, after) = step a m t in run actions next after
