-- ===== src/Firewall/Runs.antt =====
-- What a run of calls does to the filters of an open transaction: every filter that it adds obeys
-- a rule, and if it succeeds, certain filters are among them.
use wireguard_windows.Base.{
  ℕ, Bool, true, false, List, [], ◌∷◌, ◌++◌, if◌then◌else◌, Result, ok, err, panic, ◌≡◌, refl, All,
  All-append, All-weaken, IsIn, ◌∙◌, ap, sym,
}
use wireguard_windows.Firewall.{
  Filter, Call, Reply, done, failed, Trace, Os, Outcome, Fw, pure, raise, FirewallError, continue,
  ◌>>=◌, ◌>>◌, call, request, answer,
}
use wireguard_windows.Firewall.Platform.{status}

abbrev pub pending_in : Trace → List Filter
pending_in t = (status t).pending

-- A transaction is open.
abbrev pub IsOpen : Trace → Type 0
IsOpen t = (status t).in_transaction ≡ true

-- Inside a transaction the run `m` adds filters that obey `P`, takes none away, and on success `fs`
-- are there; what was in force stays, and so does the transaction.
pub record Does (P : Filter → Type 0) (fs : List Filter) {A : Type 0} (m : Fw A) : Type 0 where
  pub keeps : (t : Trace) → IsOpen t → All P (pending_in t) → All P (pending_in (m t).1)
  pub grows :
      (t : Trace) → IsOpen t → (f : Filter) → IsIn f (pending_in t) → IsIn f (pending_in (m t).1)
  pub adds :
      (t : Trace) {a : A} → IsOpen t → (m t).0 ≡ ok a → All (λ f. IsIn f (pending_in (m t).1)) fs
  pub stays : (t : Trace) → IsOpen t → (status (m t).1).in_force ≡ (status t).in_force
  pub opens : (t : Trace) → IsOpen t → IsOpen (m t).1

module _ (P : Filter → Type 0) where
  pub Does-pure : {A : Type 0} (a : A) → Does P [] (pure a)
  Does-pure a = record {
    keeps = λ t o h. h;
    grows = λ t o f i. i;
    adds = λ t o e. tt;
    stays = λ t o. refl;
    opens = λ t o. o;
  }

  pub no_value :
      {A : Type 0} (e : FirewallError) (a : A) → ◌≡◌ {A = Result FirewallError A} (err e) (ok a) → ⊥
  no_value e a h = cc

  no_panic : {A : Type 0} (a : A) → ◌≡◌ {A = Result FirewallError A} panic (ok a) → ⊥
  no_panic a h = cc

  pub Does-raise : {A : Type 0} (fs : List Filter) (e : FirewallError) → Does P fs {A = A} (raise e)
  Does-raise fs e = record {
    keeps = λ t o h. h;
    grows = λ t o f i. i;
    adds = λ t o h. absurd (no_value e _ h);
    stays = λ t o. refl;
    opens = λ t o. o;
  }

  pub Does-weaken : {A : Type 0} (fs : List Filter) (m : Fw A) → Does P fs m → Does P [] m
  Does-weaken fs m d = record {
    keeps = d.keeps;
    grows = d.grows;
    adds = λ t o h. tt;
    stays = d.stays;
    opens = d.opens;
  }

  module _ {A B : Type 0} (fs gs : List Filter) (m : Fw A) (n : A → Fw B)
      (k : (a : A) → Does P gs (n a)) where
    continue-keeps :
        (o : Outcome A) → IsOpen o.1 → All P (pending_in o.1) → All P (pending_in (continue o n).1)
    continue-keeps (ok a, t) i h = (k a).keeps t i h
    continue-keeps (err e, t) i h = h
    continue-keeps (panic, t) i h = h

    continue-grows :
        (o : Outcome A) (f : Filter)
        → IsOpen o.1
        → IsIn f (pending_in o.1)
        → IsIn f (pending_in (continue o n).1)
    continue-grows (ok a, t) f i h = (k a).grows t i f h
    continue-grows (err e, t) f i h = h
    continue-grows (panic, t) f i h = h

    continue-stays :
        (o : Outcome A) → IsOpen o.1 → (status (continue o n).1).in_force ≡ (status o.1).in_force
    continue-stays (ok a, t) i = (k a).stays t i
    continue-stays (err e, t) i = refl
    continue-stays (panic, t) i = refl

    continue-opens : (o : Outcome A) → IsOpen o.1 → IsOpen (continue o n).1
    continue-opens (ok a, t) i = (k a).opens t i
    continue-opens (err e, t) i = i
    continue-opens (panic, t) i = i

    continue-adds :
        (o : Outcome A) {b : B}
        → IsOpen o.1
        → ((a : A) → o.0 ≡ ok a → All (λ f. IsIn f (pending_in o.1)) fs)
        → (continue o n).0 ≡ ok b
        → All (λ f. IsIn f (pending_in (continue o n).1)) (fs ++ gs)
    continue-adds (ok a, t) i h e =
        let late = pending_in (n a t).1 in
        All-append (λ f. IsIn f late) fs gs
          (All-weaken (λ f. IsIn f (pending_in t)) (λ f. IsIn f late) fs ((k a).grows t i)
            (h a refl))
          ((k a).adds t i e)
    continue-adds (err x, t) i h e = absurd (no_value x _ e)
    continue-adds (panic, t) i h e = absurd (no_panic _ e)

    pub Does->>= : Does P fs m → Does P (fs ++ gs) (m >>= n)
    Does->>= d = record {
      keeps = λ t i h. continue-keeps (m t) (d.opens t i) (d.keeps t i h);
      grows = λ t i f h. continue-grows (m t) f (d.opens t i) (d.grows t i f h);
      adds = λ t i e. continue-adds (m t) (d.opens t i) (λ a h. d.adds t i h) e;
      stays = λ t i. continue-stays (m t) (d.opens t i) ∙ d.stays t i;
      opens = λ t i. continue-opens (m t) (d.opens t i);
    }

  pub Does->> :
      {B : Type 0} {fs gs : List Filter} {m : Fw (Unit {0})} {n : Fw B}
      → Does P fs m
      → Does P gs n
      → Does P (fs ++ gs) (m >> n)
  Does->> {fs} {gs} {m} {n} d k = Does->>= fs gs m (λ _. n) (λ _. k) d

  pub Does-if :
      (b : Bool) (m : Fw (Unit {0}))
      → (b ≡ true → Does P [] m)
      → Does P [] (if b then m else pure tt)
  Does-if true m d = d refl
  Does-if false m d = Does-pure tt

-- A chain of two runs that succeeds: both succeed.
pub continue-ok :
    {A B : Type 0} (o : Outcome A) (n : A → Fw B) {b : B}
    → (continue o n).0 ≡ ok b
    → (a : A) × (t : Trace) × (o ≡ (ok a, t)) × (continue o n ≡ n a t)
continue-ok (ok a, t) n h = (a, t, refl, refl)
continue-ok (err e, t) n h = absurd (no_value (λ _. Unit) e _ h)
continue-ok (panic, t) n h = absurd (no_panic (λ _. Unit) _ h)

module _ (os : Os) (c : Call) (t : Trace) where
  requested :
      (r : Reply) {u : Unit {0}} {t' : Trace}
      → continue (answer r c t) (λ _. pure tt) ≡ (ok u, t')
      → (v : ℕ) × (t' ≡ (c, done v) ∷ t)
  requested (done v) h = (v, sym (ap (λ o. o.1) h))
  requested (failed n) h = absurd (no_value (λ _. Unit) _ _ (ap (λ o. o.0) h))

  -- A request that succeeds has a reply.
  pub request-ok :
      {u : Unit {0}} {t' : Trace} → request os c t ≡ (ok u, t') → (v : ℕ) × (t' ≡ (c, done v) ∷ t)
  unfolding request call
  request-ok h = requested (os t c) h
