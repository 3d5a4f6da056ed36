-- ===== src/Tunnel/Usable.antt =====
-- `findDefaultGateway` of tunnel/defaultroutemonitor.go: the rows of the route table that it can
-- use, described without its tests.
use wireguard_windows.Base.{
  ℕ, ◌+◌, ◌%◌, ◌^◌, ◌≤◌, ◌<◌, Bool, true, false, not, ◌||◌, List, [], ◌∷◌, Option, none, some, ◌==◌,
  ◌≡◌, ◌≢◌, ap, subst, ◌⊎◌, inl, inr, arith, All, Bool-cases, Option-cases,
}
use wireguard_windows.Tunnel.{Row, is_up, candidate}

-- A row that is skipped, or whose combined metric is not below this one.
abbrev pub IsFrom : ℕ → Option ℕ → Type 0
IsFrom m none = Unit
IsFrom m (some k) = m ≤ k

abbrev pub AreFrom : ℕ → ℕ → List Row → Type 0
AreFrom our_luid m rows = All (λ s. IsFrom m (candidate our_luid s)) rows

-- The metrics are numbers of 32 bits.
abbrev pub IsMetric : Option ℕ → Type 0
IsMetric none = Unit
IsMetric (some k) = k < 2 ^ 32

abbrev pub IsRow : Row → Type 0
IsRow r = (r.metric < 2 ^ 32) × IsMetric r.interface_metric

-- A row that is a default route of another interface, which is up.
pub record IsUsable (our_luid : ℕ) (r : Row) (combined : ℕ) : Type 0 where
  pub is_default : r.destination_length ≡ 0
  pub is_other : r.luid ≢ our_luid
  pub up : r.oper_up ≡ some true
  pub interface_metric : ℕ
  pub replied : r.interface_metric ≡ some interface_metric
  pub is_sum : combined ≡ r.metric + interface_metric

-- Why a row gives no gateway: it is no default route, it is the tunnel's own, its interface is not
-- known to be up, or the system gives no metric of the interface.
pub data IsUnusable (our_luid : ℕ) (r : Row) : Type 0 where
  not_default : r.destination_length ≢ 0 → IsUnusable our_luid r
  is_own : r.luid ≡ our_luid → IsUnusable our_luid r
  not_up : r.oper_up ≢ some true → IsUnusable our_luid r
  no_metric : r.interface_metric ≡ none → IsUnusable our_luid r

-- A row that is not better than one whose combined metric is `m`.
abbrev pub IsNoBetter : ℕ → ℕ → Row → Type 0
IsNoBetter our_luid m r =
    IsUnusable our_luid r ⊎ ((k : ℕ) × (r.interface_metric ≡ some k) × (m ≤ r.metric + k))

is_up_eq : (o : Option Bool) → is_up o ≡ true → o ≡ some true
is_up_eq none h = cc
is_up_eq (some up) h = ap some h

pub candidate-IsUsable :
    (our_luid : ℕ) (r : Row) {m : ℕ}
    → IsRow r
    → candidate our_luid r ≡ some m
    → IsUsable our_luid r m
unfolding candidate
candidate-IsUsable our_luid r {m} b h =
    elim (Bool-cases
      (not (r.destination_length == 0) || r.luid == our_luid || not (is_up r.oper_up))) [
        | inl y ↦ let q = rw (y, candidate) at h in cc
        | inr n ↦ elim (Option-cases r.interface_metric) [
          | inl e ↦ let q = rw (n, candidate, e) at h in cc
          | inr (k, e) ↦
              let small : k < 2 ^ 32 = subst IsMetric e b.1 in
              let q : (r.metric + k) % 2 ^ 64 ≡ m = some_eq (rw (n, candidate, e) at h) in
              record {
                is_default = ground arith;
                is_other = λ w. ground arith;
                up = is_up_eq r.oper_up (ground arith);
                interface_metric = k;
                replied = e;
                is_sum = omega (arith, b.0);
              }
        ]
      ]
  where
    some_eq : {x y : ℕ} → some x ≡ some y → x ≡ y
    some_eq e = cc

is_up_ne : (o : Option Bool) → is_up o ≡ false → o ≢ some true
is_up_ne none h = λ e. cc
is_up_ne (some up) h = λ e. cc

-- The rows that are skipped are the unusable ones.
pub candidate-IsUnusable :
    (our_luid : ℕ) (r : Row) → candidate our_luid r ≡ none → IsUnusable our_luid r
unfolding candidate
candidate-IsUnusable our_luid r h = elim (Bool-cases (r.destination_length == 0)) [
  | inr n ↦ not_default (λ e. ground arith)
  | inl zero ↦ elim (Bool-cases (r.luid == our_luid)) [
    | inl y ↦ is_own (ground arith)
    | inr n ↦ elim (Bool-cases (is_up r.oper_up)) [
      | inr down ↦ not_up (is_up_ne r.oper_up down)
      | inl up ↦ elim (Option-cases r.interface_metric) [
        | inl e ↦ no_metric e
        | inr (k, e) ↦ let q = rw (zero, n, up, candidate, e) at h in cc
      ]
    ]
  ]
]

candidate-IsNoBetter :
    (our_luid m : ℕ) (r : Row) → IsRow r → IsFrom m (candidate our_luid r) → IsNoBetter our_luid m r
candidate-IsNoBetter our_luid m r b f = elim (Option-cases (candidate our_luid r)) [
  | inl e ↦ inl (candidate-IsUnusable our_luid r e)
  | inr (k, e) ↦
      let u = candidate-IsUsable our_luid r b e in
      let le : m ≤ k = subst (IsFrom m) e f in
      inr (u.interface_metric, u.replied, omega (arith, le, u.is_sum))
]

pub candidates-IsNoBetter :
    (our_luid m : ℕ) (rows : List Row)
    → All IsRow rows
    → AreFrom our_luid m rows
    → All (IsNoBetter our_luid m) rows
candidates-IsNoBetter our_luid m [] b a = tt
candidates-IsNoBetter our_luid m (r ∷ rows) b a =
    (candidate-IsNoBetter our_luid m r b.0 a.0, candidates-IsNoBetter our_luid m rows b.1 a.1)
