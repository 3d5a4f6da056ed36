-- ===== src/Firewall/Atomic.antt =====
-- tunnel/firewall/blocker.go: the filters in force after `EnableFirewall`.
use wireguard_windows.Base.{
  ℕ, Bool, true, false, List, [], ◌∷◌, if◌then◌else◌, ok, err, panic, ◌≡◌, refl,
}
use wireguard_windows.Conf.Types.{Addr}
use wireguard_windows.Firewall.{
  Filter, BaseObjects, engine_open, engine_close, transaction_begin, transaction_abort, Reply, done,
  failed, Trace, Os, FirewallError, Outcome, Fw, pure, ◌>>◌, request,
}
use wireguard_windows.Firewall.Platform.{status}
use wireguard_windows.Firewall.Blocker.{or_abort, register_base_objects, restrict, object_installer}
use wireguard_windows.Firewall.Rules.{permit_wire_guard_service}
use wireguard_windows.Firewall.Runs.{Does, Does-pure, Does-weaken, Does->>=, Does->>, request-ok}
use wireguard_windows.Firewall.Installs.{
  IsRule, restrict-Does, permit_wire_guard_service-Does, register_base_objects-Does,
}

abbrev pub in_force_at : Trace → List Filter
in_force_at t = (status t).in_force

-- What the calls of a transaction that failed end with.
pub data IsUndone (session : ℕ) (t : Trace) : Type 0 where
  not_begun :
      (n : ℕ) (t' : Trace) → t ≡ (transaction_begin session, failed n) ∷ t' → IsUndone session t
  aborted : (r : Reply) (t' : Trace) → t ≡ (transaction_abort session, r) ∷ t' → IsUndone session t

-- What the calls of an `EnableFirewall` that failed end with.
pub data IsClosed (t : Trace) : Type 0 where
  not_opened : (n : ℕ) (t' : Trace) → t ≡ (engine_open, failed n) ∷ t' → IsClosed t
  closed :
      (session : ℕ) (r : Reply) (t' : Trace)
      → t ≡ (engine_close session, r) ∷ t'
      → IsUndone session t'
      → IsClosed t

module _ (os : Os) (luid : ℕ) (do_not : Bool) (dns : List Addr) where
  abbrev R : Filter → Type 0
  R = IsRule os luid dns

  -- The part of the installer behind the base objects.
  abbrev install_rules : ℕ → BaseObjects → Fw (Unit {0})
  install_rules session bo =
      permit_wire_guard_service os session bo 15
      >> (if do_not then pure tt else restrict os luid do_not dns session bo)

  install_rules-Does : (session : ℕ) (bo : BaseObjects) → Does R [] (install_rules session bo)
  install_rules-Does session bo =
      Does->> R (permit_wire_guard_service-Does os session bo luid dns 15 refl) (rest do_not)
    where
      rest : (b : Bool) → Does R [] (if b then pure tt else restrict os luid do_not dns session bo)
      rest true = Does-pure R tt
      rest false = Does-weaken R _ _ (restrict-Does os session bo luid dns do_not)

  pub object_installer-Does :
      (session : ℕ) → Does R [] (object_installer os luid do_not dns session)
  unfolding object_installer
  object_installer-Does session =
      Does->>= R [] [] (register_base_objects os session) _ (install_rules-Does session)
        (register_base_objects-Does os session (record { provider = 0; filters = 0 }) luid dns)

  -- A run that fails leaves these filters in force.
  abbrev FailsWith : Outcome (Unit {0}) → List Filter → Type 0
  FailsWith o fs = (e : FirewallError) → o.0 ≡ err e → in_force_at o.1 ≡ fs

  begin-in_force :
      (session : ℕ) (r : Reply) (t : Trace)
      → in_force_at ((transaction_begin session, r) ∷ t) ≡ in_force_at t
  begin-in_force session (done v) t = refl
  begin-in_force session (failed n) t = refl

  -- A run that fails leaves these filters in force, and no transaction.
  abbrev Undoes : ℕ → Outcome (Unit {0}) → List Filter → Type 0
  Undoes session o fs =
      (e : FirewallError) → o.0 ≡ err e → (in_force_at o.1 ≡ fs) × IsUndone session o.1

  pub or_abort-ok :
      (session : ℕ) (o : Outcome (Unit {0})) {t : Trace}
      → or_abort os session o ≡ (ok tt, t)
      → o ≡ (ok tt, t)
  unfolding or_abort
  or_abort-ok session (ok u, t) h = h
  or_abort-ok session (err e, t) h = cc
  or_abort-ok session (panic, t) h = cc

  pub begun-in_force :
      (session : ℕ) (t : Trace) {t' : Trace}
      → request os (transaction_begin session) t ≡ (ok tt, t')
      → in_force_at t' ≡ in_force_at t
  begun-in_force session t h =
      let (v, e) = request-ok os (transaction_begin session) t h in
      rw e (begin-in_force session (done v) t)

  -- A failed run of `EnableFirewall` without a session: no session, no filter in force, and the
  -- calls that undo what was done.
  abbrev Ends : Outcome (Unit {0}) × ℕ → Type 0
  Ends r = (r.1 ≡ 0) × (in_force_at r.0.1 ≡ []) × IsClosed r.0.1
