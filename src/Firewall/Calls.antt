-- ===== src/Firewall/Calls.antt =====
-- What one call of the filtering platform does inside a transaction.
use wireguard_windows.Base.{
  ℕ, true, List, [], ◌∷◌, ok, ◌≡◌, refl, inl, inr, All, IsIn, ◌∙◌, subst, sym,
}
use wireguard_windows.Firewall.{
  Filter, Call, filter_add, Reply, done, failed, Trace, Os, Outcome, Fw, pure, continue, ◌>>=◌,
  call, request, answer,
}
use wireguard_windows.Firewall.Platform.{Status, status, after, add_filter}
use wireguard_windows.Firewall.Runs.{Does, IsOpen, pending_in, Does-pure, no_value}

-- A value that the system gives in reply to the call.
abbrev pub Replies : Os → Call → ℕ → Type 0
Replies os c v = (t : Trace) × (os t c ≡ done v)

-- A call that is none of a transaction's changes no filter.
abbrev pub IsQuiet : Call → Type 0
IsQuiet c = (r : Reply) (st : Status) → after c r st ≡ st

module _ (P : Filter → Type 0) (os : Os) where
  -- A call whose reply is used: what follows knows that the system gave it.
  module _ {B : Type 0} (gs : List Filter) (c : Call) (n : ℕ → Fw B) (quiet : IsQuiet c)
      (k : (v : ℕ) → Replies os c v → Does P gs (n v)) where
    replied : Reply → Trace → Outcome B
    replied r t = continue (answer r c t) n

    -- The status behind the call is the status before it.
    moved : (r : Reply) (t : Trace) (Q : Status → Type 0) → Q (status t) → Q (status ((c, r) ∷ t))
    moved r t Q h = subst Q (sym (quiet r (status t))) h

    replied-keeps :
        (r : Reply) (t : Trace)
        → os t c ≡ r
        → IsOpen t
        → All P (pending_in t)
        → All P (pending_in (replied r t).1)
    unfolding replied
    replied-keeps (done v) t e i h =
        (k v (t, e)).keeps ((c, done v) ∷ t) (moved (done v) t (λ st. st.in_transaction ≡ true) i)
          (moved (done v) t (λ st. All P st.pending) h)
    replied-keeps (failed x) t e i h = moved (failed x) t (λ st. All P st.pending) h

    replied-grows :
        (r : Reply) (t : Trace) (f : Filter)
        → os t c ≡ r
        → IsOpen t
        → IsIn f (pending_in t)
        → IsIn f (pending_in (replied r t).1)
    unfolding replied
    replied-grows (done v) t f e i h =
        (k v (t, e)).grows ((c, done v) ∷ t) (moved (done v) t (λ st. st.in_transaction ≡ true) i) f
          (moved (done v) t (λ st. IsIn f st.pending) h)
    replied-grows (failed x) t f e i h = moved (failed x) t (λ st. IsIn f st.pending) h

    replied-adds :
        (r : Reply) (t : Trace) {b : B}
        → os t c ≡ r
        → IsOpen t
        → (replied r t).0 ≡ ok b
        → All (λ f. IsIn f (pending_in (replied r t).1)) gs
    unfolding replied
    replied-adds (done v) t e i h =
        (k v (t, e)).adds ((c, done v) ∷ t) (moved (done v) t (λ st. st.in_transaction ≡ true) i) h
    replied-adds (failed x) t e i h = absurd (no_value P _ _ h)

    replied-stays :
        (r : Reply) (t : Trace)
        → os t c ≡ r
        → IsOpen t
        → (status (replied r t).1).in_force ≡ (status t).in_force
    unfolding replied
    replied-stays (done v) t e i =
        (k v (t, e)).stays ((c, done v) ∷ t) (moved (done v) t (λ st. st.in_transaction ≡ true) i)
        ∙ moved (done v) t (λ st. st.in_force ≡ (status t).in_force) refl
    replied-stays (failed x) t e i =
        moved (failed x) t (λ st. st.in_force ≡ (status t).in_force) refl

    replied-opens : (r : Reply) (t : Trace) → os t c ≡ r → IsOpen t → IsOpen (replied r t).1
    unfolding replied
    replied-opens (done v) t e i =
        (k v (t, e)).opens ((c, done v) ∷ t) (moved (done v) t (λ st. st.in_transaction ≡ true) i)
    replied-opens (failed x) t e i = moved (failed x) t (λ st. st.in_transaction ≡ true) i

    pub Does-call : Does P gs (call os c >>= n)
    unfolding call replied
    Does-call = record {
      keeps = λ t i h. replied-keeps (os t c) t refl i h;
      grows = λ t i f h. replied-grows (os t c) t f refl i h;
      adds = λ t i e. replied-adds (os t c) t refl i e;
      stays = λ t i. replied-stays (os t c) t refl i;
      opens = λ t i. replied-opens (os t c) t refl i;
    }

  pub Does-request : (c : Call) → IsQuiet c → Does P [] (request os c)
  unfolding request
  Does-request c quiet = Does-call [] c (λ _. pure tt) quiet (λ v _. Does-pure P tt)

  module _ (session : ℕ) (f : Filter) (p : P f) where
    added : (o : Outcome ℕ) → Outcome (Unit {0})
    added o = continue o (λ _. pure tt)

    -- The status behind the addition, the filter being pending.
    in_open :
        (t : Trace) (Q : Status → Type 0)
        → IsOpen t
        → Q (add_filter f true (status t))
        → Q (add_filter f (status t).in_transaction (status t))
    in_open t Q i h = subst (λ b. Q (add_filter f b (status t))) (sym i) h

    added-keeps :
        (r : Reply) (t : Trace)
        → IsOpen t
        → All P (pending_in t)
        → All P (pending_in (added (answer r (filter_add session f) t)).1)
    unfolding added
    added-keeps (done v) t i h = in_open t (λ st. All P st.pending) i (p, h)
    added-keeps (failed n) t i h = h

    added-grows :
        (r : Reply) (t : Trace) (g : Filter)
        → IsOpen t
        → IsIn g (pending_in t)
        → IsIn g (pending_in (added (answer r (filter_add session f) t)).1)
    unfolding added
    added-grows (done v) t g i h = in_open t (λ st. IsIn g st.pending) i (inr h)
    added-grows (failed n) t g i h = h

    added-there :
        (r : Reply) (t : Trace) {u : Unit {0}}
        → IsOpen t
        → (added (answer r (filter_add session f) t)).0 ≡ ok u
        → IsIn f (pending_in (added (answer r (filter_add session f) t)).1)
    unfolding added
    added-there (done v) t i e = in_open t (λ st. IsIn f st.pending) i (inl refl)
    added-there (failed n) t i e = absurd (no_value P _ _ e)

    added-stays :
        (r : Reply) (t : Trace)
        → IsOpen t
        → (status (added (answer r (filter_add session f) t)).1).in_force ≡ (status t).in_force
    unfolding added
    added-stays (done v) t i = in_open t (λ st. st.in_force ≡ (status t).in_force) i refl
    added-stays (failed n) t i = refl

    added-opens :
        (r : Reply) (t : Trace) → IsOpen t → IsOpen (added (answer r (filter_add session f) t)).1
    unfolding added
    added-opens (done v) t i = in_open t (λ st. st.in_transaction ≡ true) i i
    added-opens (failed n) t i = i

    -- Adding a filter that obeys the rule.
    pub Does-filter_add : Does P (f ∷ []) (request os (filter_add session f))
    unfolding request call added
    Does-filter_add = record {
      keeps = λ t i h. added-keeps (os t (filter_add session f)) t i h;
      grows = λ t i g h. added-grows (os t (filter_add session f)) t g i h;
      adds = λ t i e. (added-there (os t (filter_add session f)) t i e, tt);
      stays = λ t i. added-stays (os t (filter_add session f)) t i;
      opens = λ t i. added-opens (os t (filter_add session f)) t i;
    }
