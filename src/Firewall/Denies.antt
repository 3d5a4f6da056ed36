-- ===== src/Firewall/Denies.antt =====
-- The filters that block: name lookups that leave the tunnel's servers, and whatever no other
-- filter decides on.
use wireguard_windows.Base.{
  every, any, ℕ, ◌≤◌, Bool, true, false, List, [], ◌∷◌, ok, leb, ◌≡◌, ◌⊎◌, leb→le, refl, inl, inr,
  All, All-IsIn, IsIn, subst, sym, ◌∙◌, Bool-cases, arith,
}
use wireguard_windows.Conf.Types.{Addr}
use wireguard_windows.Firewall.{
  Condition, Layer, auth_connect_v4, auth_recv_accept_v4, auth_connect_v6, auth_recv_accept_v6,
  permit, block, ip_protocol, ip_remote_port, equal, uint8, uint16, blank, BaseObjects, Filter,
  Trace, Os,
}
use wireguard_windows.Firewall.Platform.{matches, Decides}
use wireguard_windows.Firewall.Narrow.{ipproto_udp, ipproto_tcp}
use wireguard_windows.Firewall.Dns.{deny_conditions}
use wireguard_windows.Firewall.Blocker.{enable_firewall}
use wireguard_windows.Firewall.Installs.{IsRule, blocks}
use wireguard_windows.Firewall.Atomic.{in_force_at}
use wireguard_windows.Firewall.Leaks.{enable_firewall-Restricts}
use wireguard_windows.Firewall.Met.{IsOfService, IsToServer}
use wireguard_windows.Firewall.Passes.{IsRule-heavy}

-- The layers at which connections are made and accepted.
abbrev pub ale_layers : List Layer
ale_layers = auth_connect_v4 ∷ auth_recv_accept_v4 ∷ auth_connect_v6 ∷ auth_recv_accept_v6 ∷ []

abbrev block_at : BaseObjects → ℕ → List Condition → Layer → Filter
block_at bo weight cs layer = record (blank bo weight block layer) { conditions = cs }

blocks_at :
    (bo : BaseObjects) (weight : ℕ) (cs : List Condition) (fs : List Filter) (layer : Layer)
    → All (λ f. IsIn f fs) (blocks bo weight cs)
    → IsIn layer ale_layers
    → IsIn (block_at bo weight cs layer) fs
blocks_at bo weight cs fs layer (a, _) (inl e) = subst (λ l. IsIn (block_at bo weight cs l) fs) e a
blocks_at bo weight cs fs layer (_, (b, _)) (inr (inl e)) =
    subst (λ l. IsIn (block_at bo weight cs l) fs) e b
blocks_at bo weight cs fs layer (_, (_, (c, _))) (inr (inr (inl e))) =
    subst (λ l. IsIn (block_at bo weight cs l) fs) e c
blocks_at bo weight cs fs layer (_, (_, (_, (d, _)))) (inr (inr (inr (inl e)))) =
    subst (λ l. IsIn (block_at bo weight cs l) fs) e d
blocks_at bo weight cs fs layer h (inr (inr (inr (inr i)))) = absurd i

-- A name lookup: to port 53, over UDP or TCP.
pub record IsLookup (meets : Condition → Bool) : Type 0 where
  pub port : meets (equal ip_remote_port (uint16 53)) ≡ true
  pub protocol :
      (meets (equal ip_protocol (uint8 ipproto_udp)) ≡ true)
      ⊎ (meets (equal ip_protocol (uint8 ipproto_tcp)) ≡ true)

lookup-matches : (meets : Condition → Bool) → IsLookup meets → matches meets deny_conditions ≡ true
unfolding every any
lookup-matches meets h = ground (arith, h.port, h.protocol)

-- After `EnableFirewall` succeeded with restrictions and with name servers, where no filter was in
-- force before: if the filter that decides on a name lookup permits it, the lookup is of the
-- application and the user that the system replies for the current process, or goes to one of the
-- servers.
pub enable_firewall-IsToServer :
    (os : Os) (luid : ℕ) (server : Addr) (dns : List Addr) (t : Trace) {t' : Trace} {session : ℕ}
    (meets : Condition → Bool) (layer : Layer) (f : Filter)
    → in_force_at t ≡ []
    → enable_firewall os luid false (server ∷ dns) 0 t ≡ ((ok tt, t'), session)
    → IsLookup meets
    → IsIn layer ale_layers
    → Decides meets layer (in_force_at t') f
    → f.action ≡ permit
    → IsOfService os meets ⊎ IsToServer (server ∷ dns) meets
enable_firewall-IsToServer os luid server dns t {t'} meets layer f h k look ale d a =
    let r = enable_firewall-Restricts os luid (server ∷ dns) t h k in
    let there = blocks_at r.bo 14 deny_conditions (in_force_at t') layer r.denied ale in
    let heavy =
      d.heaviest (block_at r.bo 14 deny_conditions layer) there refl (lookup-matches meets look) in
    IsRule-heavy os luid (server ∷ dns) meets layer f
      (All-IsIn (IsRule os luid (server ∷ dns)) (in_force_at t') r.rules d.there) d.matching a heavy

Layer-discrete : Discrete Layer
Layer-discrete = hlevel

-- Where a filter matches, one of those that match decides.
module _ (meets : Condition → Bool) (layer : Layer) where
  abbrev Applies : Filter → Type 0
  Applies g = (g.layer_key ≡ layer) × (matches meets g.conditions ≡ true)

  applies? : (g : Filter) → Applies g ⊎ (Applies g → ⊥)
  applies? g = elim (Layer-discrete g.layer_key layer) [
    | Dec.no n ↦ inr (λ a. n a.0)
    | Dec.yes y ↦ elim (Bool-cases (matches meets g.conditions)) [
      | inl m ↦ inl (y, m)
      | inr m ↦ inr (λ a. let f : true ≡ false = sym a.1 ∙ m in cc)
    ]
  ]

  -- One of the filters decides, or none applies.
  decide :
      (fs : List Filter) → ((f : Filter) × Decides meets layer fs f) ⊎ All (λ g. Applies g → ⊥) fs
  decide [] = inr tt
  decide (g ∷ fs) = join (applies? g) (decide fs)
    where
      -- An element of the longer list is the first, or one of the others.
      bound :
          (w : ℕ)
          → (Applies g → g.weight ≤ w)
          → ((x : Filter) → IsIn x fs → Applies x → x.weight ≤ w)
          → (x : Filter) → IsIn x (g ∷ fs)
          → x.layer_key ≡ layer
          → matches meets x.conditions ≡ true
          → x.weight ≤ w
      bound w first others x (inl e) l m = subst (λ y. Applies y → y.weight ≤ w) e first (l, m)
      bound w first others x (inr i) l m = others x i (l, m)

      lead :
          Applies g
          → ((x : Filter) → IsIn x fs → Applies x → x.weight ≤ g.weight)
          → (f : Filter) × Decides meets layer (g ∷ fs) f
      lead a others = (
        g,
        record {
          there = inl refl;
          at_layer = a.0;
          matching = a.1;
          heaviest = bound g.weight (λ _. omega arith) others;
        },
      )

      follow :
          (f : Filter)
          → Decides meets layer fs f
          → (Applies g → g.weight ≤ f.weight)
          → (f : Filter) × Decides meets layer (g ∷ fs) f
      follow f d first = (
        f,
        record {
          there = inr d.there;
          at_layer = d.at_layer;
          matching = d.matching;
          heaviest = bound f.weight first (λ x i a. d.heaviest x i a.0 a.1);
        },
      )

      join :
          Applies g ⊎ (Applies g → ⊥)
          → ((f : Filter) × Decides meets layer fs f) ⊎ All (λ h. Applies h → ⊥) fs
          → ((f : Filter) × Decides meets layer (g ∷ fs) f) ⊎ All (λ h. Applies h → ⊥) (g ∷ fs)
      join (inl a) (inr none) =
          inl (lead a (λ x i b. absurd (All-IsIn (λ h. Applies h → ⊥) fs none i b)))
      join (inr n) (inr none) = inr (n, none)
      join (inr n) (inl (f, d)) = inl (follow f d (λ a. absurd (n a)))
      join (inl a) (inl (f, d)) = elim (Bool-cases (leb f.weight g.weight)) [
        | inl y ↦ inl (
            lead a (λ x i b.
              let h = d.heaviest x i b.0 b.1 in let k = leb→le f.weight g.weight y in omega arith))
        | inr n ↦ inl (follow f d (λ _. ground arith))
      ]

-- After `EnableFirewall` succeeded with restrictions, where no filter was in force before, some
-- filter decides on every packet of a connection: none is left to the filters of others.
pub enable_firewall-Decides :
    (os : Os) (luid : ℕ) (dns : List Addr) (t : Trace) {t' : Trace} {session : ℕ}
    (meets : Condition → Bool) (layer : Layer)
    → in_force_at t ≡ []
    → enable_firewall os luid false dns 0 t ≡ ((ok tt, t'), session)
    → IsIn layer ale_layers
    → (f : Filter) × Decides meets layer (in_force_at t') f
enable_firewall-Decides os luid dns t {t'} meets layer h k ale =
    let r = enable_firewall-Restricts os luid dns t h k in
    let there = blocks_at r.bo 0 [] (in_force_at t') layer r.blocked ale in
    found r.bo (decide meets layer (in_force_at t')) there
  where
    found :
        (bo : BaseObjects)
        → ((f : Filter) × Decides meets layer (in_force_at t') f)
          ⊎ All (λ g. Applies meets layer g → ⊥) (in_force_at t')
        → IsIn (block_at bo 0 [] layer) (in_force_at t')
        → (f : Filter) × Decides meets layer (in_force_at t') f
    found bo (inl d) i = d
    found bo (inr none) i = absurd (
        All-IsIn (λ g. Applies meets layer g → ⊥) (in_force_at t') {a = block_at bo 0 [] layer} none
          i (refl, all_match))
      where
        all_match : matches meets [] ≡ true
        all_match = unfold every in refl
