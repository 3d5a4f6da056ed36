-- ===== src/Firewall/Leaks.antt =====
-- tunnel/firewall/blocker.go: the rules in force after an `EnableFirewall` that restricts.
use wireguard_windows.Base.{
  ℕ, false, List, [], ◌∷◌, ◌++◌, append-nil, ok, err, panic, ◌≡◌, refl, All, IsIn, ◌∙◌, ap, subst,
  sym,
}
use wireguard_windows.Conf.Types.{Addr}
use wireguard_windows.Firewall.{
  Filter, BaseObjects, engine_open, transaction_begin, transaction_commit, Reply, done, failed,
  Trace, Os, Outcome, Fw, ◌>>◌, call, request, answer,
}
use wireguard_windows.Firewall.Rules.{permit_wire_guard_service}
use wireguard_windows.Firewall.Blocker.{
  or_abort, run_transaction, register_base_objects, restrict, object_installer, keep_session,
  with_session, enable_firewall,
}
use wireguard_windows.Firewall.Runs.{IsOpen, Does, Does->>, pending_in, continue-ok, request-ok}
use wireguard_windows.Firewall.Installs.{
  IsRule, denials, blocks, restrict-Does, permit_wire_guard_service-Does,
  register_base_objects-Does,
}
use wireguard_windows.Firewall.Atomic.{
  in_force_at, object_installer-Does, or_abort-ok, begun-in_force,
}

-- The filters of a firewall that restricts: each obeys a rule, and those that block are there.
pub record Restricts (os : Os) (luid : ℕ) (dns : List Addr) (fs : List Filter) : Type 0 where
  pub rules : All (IsRule os luid dns) fs
  pub bo : BaseObjects
  pub blocked : All (λ f. IsIn f fs) (blocks bo 0 [])
  pub denied : All (λ f. IsIn f fs) (denials bo dns)

module _ (os : Os) (luid : ℕ) (dns : List Addr) where
  abbrev R : Filter → Type 0
  R = IsRule os luid dns

  abbrev rules : ℕ → BaseObjects → Fw (Unit {0})
  rules session bo =
      permit_wire_guard_service os session bo 15 >> restrict os luid false dns session bo

  rules-Does :
      (session : ℕ) (bo : BaseObjects)
      → Does R (denials bo dns ++ blocks bo 0 []) (rules session bo)
  rules-Does session bo =
      Does->> R (permit_wire_guard_service-Does os session bo luid dns 15 refl)
        (restrict-Does os session bo luid dns false)

  All-split :
      {A : Type 0} (P : A → Type 0) (xs ys : List A) → All P (xs ++ ys) → All P xs × All P ys
  All-split P [] ys h = (tt, h)
  All-split P (x ∷ xs) ys h = let (l, r) = All-split P xs ys h.1 in ((h.0, l), r)

  -- The installer, from a transaction that has no filter yet.
  object_installer-Restricts :
      (session : ℕ) (t : Trace) {t' : Trace}
      → IsOpen t
      → pending_in t ≡ []
      → object_installer os luid false dns session t ≡ (ok tt, t')
      → Restricts os luid dns (pending_in t')
  unfolding object_installer
  object_installer-Restricts session t {t'} o h k =
      let (bo, tb, e, f) =
        continue-ok (register_base_objects os session t) (rules session) (ap (λ o. o.0) k) in
      let d0 =
        register_base_objects-Does os session (record { provider = 0; filters = 0 }) luid dns in
      let d = rules-Does session bo in
      let run : rules session bo tb ≡ (ok tt, t') = sym f ∙ k in
      let opened : IsOpen tb = subst (λ p. IsOpen p.1) e (d0.opens t o) in
      let clean : All R (pending_in t) = subst (All R) (sym h) tt in
      let before : All R (pending_in tb) =
        subst (λ o. All R (pending_in o.1)) e (d0.keeps t o clean) in
      let (denied, blocked) =
        All-split (λ g. IsIn g (pending_in (rules session bo tb).1)) (denials bo dns)
          (blocks bo 0 []) (d.adds tb opened (ap (λ o. o.0) run)) in
      subst (λ o. Restricts os luid dns (pending_in o.1)) run
        (record { rules = d.keeps tb opened before; bo = bo; blocked = blocked; denied = denied })

  committed :
      (session v : ℕ) (t : Trace)
      → in_force_at ((transaction_commit session, done v) ∷ t) ≡ pending_in t ++ in_force_at t
  committed session v t = refl

  run_transaction-Restricts :
      (session : ℕ) (t : Trace) {t' : Trace}
      → in_force_at t ≡ []
      → run_transaction os session (object_installer os luid false dns) t ≡ (ok tt, t')
      → Restricts os luid dns (in_force_at t')
  unfolding run_transaction
  run_transaction-Restricts session t {t'} h k =
      let begin = request os (transaction_begin session) in
      let op = object_installer os luid false dns session in
      let (u1, t1, e1, f1) = continue-ok (begin t) _ (ap (λ o. o.0) k) in
      let rest = sym f1 ∙ k in
      let (u2, t2, e2, f2) = continue-ok (or_abort os session (op t1)) _ (ap (λ o. o.0) rest) in
      let ran : op t1 ≡ (ok tt, t2) = or_abort-ok os luid false dns session (op t1) e2 in
      let (v, begun) = request-ok os (transaction_begin session) t e1 in
      let (w, ended) = request-ok os (transaction_commit session) t2 (
        or_abort-ok os luid false dns session (request os (transaction_commit session) t2)
          (sym f2 ∙ rest)) in
      let empty : pending_in t1 ≡ [] = rw begun refl in
      let opened : IsOpen t1 = rw begun refl in
      let none : in_force_at t2 ≡ [] =
        ap (λ o. in_force_at o.1) (sym ran)
        ∙ (object_installer-Does os luid false dns session).stays t1 opened
        ∙ begun-in_force os luid false dns session t e1
        ∙ h in
      let all : in_force_at t' ≡ pending_in t2 =
        ap in_force_at ended
        ∙ committed session w t2
        ∙ ap (λ fs. pending_in t2 ++ fs) none
        ∙ append-nil (pending_in t2) in
      subst (Restricts os luid dns) (sym all)
        (object_installer-Restricts session t1 opened empty ran)

  with_session-Restricts :
      (o : Outcome ℕ) {t' : Trace} {s : ℕ}
      → in_force_at o.1 ≡ []
      → with_session os luid false dns o ≡ ((ok tt, t'), s)
      → Restricts os luid dns (in_force_at t')
  unfolding with_session keep_session
  with_session-Restricts (ok session, t) {t'} {s} h k =
      kept (run_transaction os session (object_installer os luid false dns) t) refl k
    where
      kept :
          (o : Outcome (Unit {0}))
          → run_transaction os session (object_installer os luid false dns) t ≡ o
          → keep_session os luid false dns session o ≡ ((ok tt, t'), s)
          → Restricts os luid dns (in_force_at t')
      kept (ok u, t2) e q = run_transaction-Restricts session t h (e ∙ ap (λ o. o.0) q)
      kept (err x, t2) e q = cc
      kept (panic, t2) e q = cc
  with_session-Restricts (err e, t) h k = cc
  with_session-Restricts (panic, t) h k = cc

  opened : (r : Reply) (t : Trace) → in_force_at (answer r engine_open t).1 ≡ in_force_at t
  opened (done v) t = refl
  opened (failed n) t = refl

  -- `EnableFirewall`, when it restricts and succeeds.
  pub enable_firewall-Restricts :
      (t : Trace) {t' : Trace} {s : ℕ}
      → in_force_at t ≡ []
      → enable_firewall os luid false dns 0 t ≡ ((ok tt, t'), s)
      → Restricts os luid dns (in_force_at t')
  unfolding enable_firewall
  enable_firewall-Restricts t h k =
      with_session-Restricts (call os engine_open t)
        (unfold call in (opened (os t engine_open) t ∙ h)) k
