-- ===== src/Tunnel/Mtu/Bounds.antt =====
-- The MTUs that the monitor sets and forces.
use wireguard_windows.Base.{
  true, ℕ, zero, suc, ◌+◌, ◌≤◌, ◌<◌, false, not, ◌&&◌, List, [], ◌∷◌, Option, none, some, ltb, ◌==◌,
  set, length, ok, ◌≡◌, refl, sym, subst, ◌⊎◌, inl, inr, arith, IsIn, All, Bool-cases,
}
use wireguard_windows.Driver.{Family}
use wireguard_windows.Tunnel.Mtu.{min_mtu, MtuState, Replies, Done, smallest, force_mtu}

-- What a call does: it fails or finds nothing to do, and then no MTU is set and the last one
-- stays; or it sets the MTU of the interface that it follows, less 80, or the smallest one.
pub record Sets (family : Family) (rep : Replies) (d : Done) (n : ℕ) : Type 0 where
  pub no_error : d.error ≡ none
  pub positive : 0 < d.state.last_mtu
  pub of_interface : rep.interface_mtu d.state.last_luid ≡ ok d.state.last_mtu
  pub at_least : min_mtu family ≤ n
  pub at_most : (n + 80 ≤ d.state.last_mtu) ⊎ (n ≡ min_mtu family)
  pub accepted : rep.set_reply n ≡ ok tt

abbrev IsDone : Family → Replies → MtuState → Done → Option ℕ → Type 0
IsDone family rep s d none = d.state.last_mtu ≡ s.last_mtu
IsDone family rep s d (some n) = Sets family rep d n

-- The number, or one of the list, is positive and not above any of them that is.
abbrev IsSmallest : List ℕ → ℕ → ℕ → Type 0
IsSmallest mtus mtu k =
    ((k ≡ mtu) ⊎ IsIn k mtus) × (0 < k) × (k ≤ mtu) × All (λ m. (m ≡ 0) ⊎ (k ≤ m)) mtus

smallest-IsSmallest : (mtus : List ℕ) (mtu : ℕ) → 0 < mtu → IsSmallest mtus mtu (smallest mtus mtu)
unfolding smallest
smallest-IsSmallest [] mtu p = (inl refl, p, omega arith, tt)
smallest-IsSmallest (m ∷ mtus) mtu p = elim (Bool-cases (not (m == 0) && ltb m mtu)) [
  | inl y ↦
      let taken : smallest (m ∷ mtus) mtu ≡ smallest mtus m = rw (y, smallest) refl in
      subst (IsSmallest (m ∷ mtus) mtu) (sym taken)
        (take (smallest mtus m) y (smallest-IsSmallest mtus m (ground arith)))
  | inr n ↦
      let left : smallest (m ∷ mtus) mtu ≡ smallest mtus mtu = rw (n, smallest) refl in
      subst (IsSmallest (m ∷ mtus) mtu) (sym left)
        (leave (smallest mtus mtu) n (smallest-IsSmallest mtus mtu p))
]
  where
    take :
        (k : ℕ)
        → (not (m == 0) && ltb m mtu) ≡ true
        → IsSmallest mtus m k
        → IsSmallest (m ∷ mtus) mtu k
    take k y (among, positive, below, least) = (
      elim among [ inl e ↦ inr (inl (sym e)) | inr i ↦ inr (inr i) ],
      positive,
      ground (arith, below),
      (inr below, least),
    )

    leave :
        (k : ℕ)
        → (not (m == 0) && ltb m mtu) ≡ false
        → IsSmallest mtus mtu k
        → IsSmallest (m ∷ mtus) mtu k
    leave k n (among, positive, below, least) = (
      elim among [ inl e ↦ inl e | inr i ↦ inr (inr i) ],
      positive,
      below,
      (ground (arith, below), least),
    )

IsIn-set : (mtus : List ℕ) (index mtu : ℕ) → index < length mtus → IsIn mtu (set mtus index mtu)
IsIn-set [] index mtu h = omega (arith, h)
IsIn-set (m ∷ mtus) zero mtu h = inl refl
IsIn-set (m ∷ mtus) (suc index) mtu h = inr (IsIn-set mtus index mtu (omega (arith, h)))

-- The MTU that the device is given when a family reports a positive one is the smallest positive
-- MTU that the families reported last: it is one of them, and no other one is below it.
pub force_mtu-smallest :
    (index mtu : ℕ) (mtus : List ℕ)
    → 0 < mtu
    → index < length mtus
    → IsIn (force_mtu index mtu mtus).1 (force_mtu index mtu mtus).0
      × (0 < (force_mtu index mtu mtus).1)
      × All (λ m. (m ≡ 0) ⊎ ((force_mtu index mtu mtus).1 ≤ m)) (force_mtu index mtu mtus).0
unfolding force_mtu
force_mtu-smallest index mtu mtus p h =
    let stored = set mtus index mtu in
    let (among, positive, below, least) = smallest-IsSmallest stored mtu p in
    (
      elim among [
        | inl e ↦ subst (λ n. IsIn n stored) (sym e) (IsIn-set mtus index mtu h)
        | inr i ↦ i
      ],
      positive,
      least,
    )
