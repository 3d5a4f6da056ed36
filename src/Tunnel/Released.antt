-- ===== src/Tunnel/Released.antt =====
-- tunnel/defaultroutemonitor.go: the host routes of a monitor, from its start to its destruction.
use wireguard_windows.Base.{
  ℕ, Bool, true, false, ◌&&◌, List, [], ◌∷◌, Option, none, if◌then◌else◌, ◌==◌, any, Result, ok,
  err, panic, ◌≡◌, refl, subst, ◌∙◌, inl, inr, IsIn, Bool-cases, Option-cases,
}
use wireguard_windows.Conf.Types.{Prefix, Config}
use wireguard_windows.Conf.Config.{prefix_eq}
use wireguard_windows.Conf.Values.{Std}
use wireguard_windows.Driver.{af_inet, af_inet6}
use wireguard_windows.Tunnel.Monitor.{
  Route, rebind, Trace, System, RouteFamily, RouteMonitor, update_locked, pin_sockets,
  remove_host_routes, new_family, new_default_route_monitor, host_route_deleted, update, start,
  destroy, first_error, Action, updates, deletes, starts, step, run,
}
use wireguard_windows.Tunnel.Owned.{outstanding}
use wireguard_windows.Tunnel.Covered.{
  IsThroughOne, AreCovered, update_locked-AreCovered, remove_host_routes-AreCovered,
}

outstanding-pin_sockets :
    (sys : System) (fs : List RouteFamily) (t : Trace)
    → outstanding (pin_sockets sys fs t).1 ≡ outstanding t
unfolding pin_sockets outstanding
outstanding-pin_sockets sys [] t = refl
outstanding-pin_sockets sys (f ∷ fs) t =
    elim (Option-cases
      (sys.bind_reply t f.family f.gateway.index (f.blackhole && f.gateway.index == 0))) [
        | inl e ↦ rw (e, pin_sockets) (outstanding-pin_sockets sys fs _)
        | inr (k, e) ↦ rw (e, pin_sockets) refl
      ]

-- Every outstanding route is owned by a family of the monitor.
abbrev IsTidy : List RouteFamily → Trace → Type 0
IsTidy = AreCovered (λ r. ⊥)

host_route_deleted-IsThroughOne :
    (p : Prefix) (fs : List RouteFamily) (r : Route)
    → IsThroughOne fs r
    → IsThroughOne (host_route_deleted p fs) r
unfolding host_route_deleted
host_route_deleted-IsThroughOne p [] r i = i
host_route_deleted-IsThroughOne p (f ∷ fs) r i =
    elim (Bool-cases (any (λ host. prefix_eq host p) f.hosts)) [
      | inl y ↦ rw (y, host_route_deleted) i
      | inr n ↦
          rw (n, host_route_deleted)
            (elim i [ inl a ↦ inl a | inr b ↦ inr (host_route_deleted-IsThroughOne p fs r b) ])
    ]

IsTidy-outstanding :
    (fs : List RouteFamily) (t after : Trace)
    → outstanding after ≡ outstanding t
    → IsTidy fs t
    → IsTidy fs after
IsTidy-outstanding fs t after e c r i = c r (subst (IsIn r) e i)

outstanding-rebind :
    (b : Bool) (t : Trace) → outstanding (if b then rebind ∷ t else t) ≡ outstanding t
unfolding outstanding
outstanding-rebind true t = refl
outstanding-rebind false t = refl

update-IsTidy :
    (sys : System) (m : RouteMonitor) (t : Trace)
    → IsTidy m.families t
    → IsTidy (update sys m t).0.families (update sys m t).1
unfolding update
update-IsTidy sys m t c = elim (Bool-cases m.following) [
  | inr n ↦ rw (n, update) c
  | inl y ↦
      let u = update_locked sys m.our_luid m.families false none t in
      rw (y, update)
        (IsTidy-outstanding u.0 u.3 _
          (outstanding-pin_sockets sys u.0 _ ∙ outstanding-rebind u.1 u.3)
          (update_locked-AreCovered (λ r. ⊥) sys m.our_luid m.families false none t c))
]

start-IsTidy :
    (sys : System) (registered : Option ℕ) (m : RouteMonitor) (t : Trace)
    → IsTidy m.families t
    → IsTidy (start sys registered m t).0.families (start sys registered m t).1
unfolding start
start-IsTidy sys registered m t c =
    let pinned =
      IsTidy-outstanding m.families t (pin_sockets sys m.families t).1
        (outstanding-pin_sockets sys m.families t) c in
    elim (Option-cases (first_error (pin_sockets sys m.families t).0 registered)) [
      | inl e ↦ rw (e, start) pinned
      | inr (k, e) ↦ rw (e, start) pinned
    ]

step-IsTidy :
    (a : Action) (m : RouteMonitor) (t : Trace)
    → IsTidy m.families t
    → IsTidy (step a m t).0.families (step a m t).1
unfolding step
step-IsTidy (updates sys) m t c = update-IsTidy sys m t c
step-IsTidy (deletes p) m t c = λ r i. elim (c r i) [
  | inl q ↦ inl q
  | inr k ↦ inr (host_route_deleted-IsThroughOne p m.families r k)
]
step-IsTidy (starts sys registered) m t c = start-IsTidy sys registered m t c

run-IsTidy :
    (actions : List Action) (m : RouteMonitor) (t : Trace)
    → IsTidy m.families t
    → IsTidy (run actions m t).0.families (run actions m t).1
unfolding run
run-IsTidy [] m t c = c
run-IsTidy (a ∷ actions) m t c =
    run-IsTidy actions (step a m t).0 (step a m t).1 (step-IsTidy a m t c)

empty_eq : (rs : List Route) → ((r : Route) → IsIn r rs → ⊥) → rs ≡ []
empty_eq [] h = refl
empty_eq (r ∷ rs) h = absurd (h r (inl refl))

-- What the start of a monitor leaves to be owned.
abbrev LeavesTidy : Result ℕ RouteMonitor × Trace → Type 0
LeavesTidy (ok m, t) = IsTidy m.families t
LeavesTidy (err e, t) = outstanding t ≡ []
LeavesTidy (panic, t) = ⊥

new_default_route_monitor-LeavesTidy :
    (std : Std) (sys : System) (config : Config) (our_luid : ℕ)
    → LeavesTidy (new_default_route_monitor std sys config our_luid [])
unfolding new_default_route_monitor new_family outstanding
new_default_route_monitor-LeavesTidy std sys config our_luid =
    let fs = new_family std config af_inet ∷ new_family std config af_inet6 ∷ [] in
    let u = update_locked sys our_luid fs false none [] in
    let tidy = update_locked-AreCovered (λ r. ⊥) sys our_luid fs false none [] (λ r i. absurd i) in
    elim (Option-cases u.2) [
      | inl e ↦ rw (e, new_default_route_monitor) tidy
      | inr (k, e) ↦
          rw (e, new_default_route_monitor)
            (empty_eq (outstanding (remove_host_routes u.0 u.3).1)
              (remove_host_routes-AreCovered (λ r. ⊥) u.0 u.3 tidy))
    ]

-- Whatever the system replies: if the monitor cannot be made, each host route that was added, the
-- system was asked to delete again.
pub new_default_route_monitor-outstanding :
    (std : Std) (sys : System) (config : Config) (our_luid : ℕ) {e : ℕ} {t : Trace}
    → new_default_route_monitor std sys config our_luid [] ≡ (err e, t)
    → outstanding t ≡ []
new_default_route_monitor-outstanding std sys config our_luid h =
    subst LeavesTidy h (new_default_route_monitor-LeavesTidy std sys config our_luid)

-- Whatever the system replies, and then replies otherwise: when a monitor was made, and then saw
-- any sequence of changes of the routes, deletions of host routes by others and starts, and is
-- destroyed, the system was asked to delete each host route that the monitor had added, at the
-- interface and with the next hop of its addition, and after its last addition.
pub destroy-outstanding :
    (std : Std) (sys : System) (config : Config) (our_luid : ℕ) (m : RouteMonitor) (t : Trace)
    → new_default_route_monitor std sys config our_luid [] ≡ (ok m, t)
    → (actions : List Action) → outstanding (destroy (run actions m t).0 (run actions m t).1).1 ≡ []
unfolding destroy
destroy-outstanding std sys config our_luid m t h actions =
    let tidy : IsTidy m.families t =
      subst LeavesTidy h (new_default_route_monitor-LeavesTidy std sys config our_luid) in
    let (last, after) = run actions m t in
    empty_eq (outstanding (remove_host_routes last.families after).1)
      (remove_host_routes-AreCovered (λ r. ⊥) last.families after (run-IsTidy actions m t tidy))
