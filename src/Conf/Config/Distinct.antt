-- ===== src/Conf/Config/Distinct.antt =====
-- `DeduplicateNetworkEntries`: the loop in place against a plain definition of what it keeps.
use wireguard_windows.Base.{
  ℕ, zero, suc, ◌+◌, ◌≤◌, ◌<◌, true, false, ◌||◌, List, [], ◌∷◌, ◌++◌, some, if◌then◌else◌, ◌≡◌,
  refl, sym, ap, ◌∙◌, inl, inr, Bool-cases, arith, length, get_elem?, set, take, drop, append-nil,
  append_assoc, map,
}
use wireguard_windows.Base.Text.{Text, text_eq, text_eq_iff}
use wireguard_windows.Conf.Config.{seen, dedup_loop, dedup}

module _ {ℓ} {A : Type ℓ} where
  drop-get_elem? :
      (xs : List A) (k : ℕ) (a : A) (rest : List A)
      → drop k xs ≡ a ∷ rest
      → (get_elem? xs k ≡ some a) × (drop (k + 1) xs ≡ rest)
  drop-get_elem? [] zero a rest h = cc
  drop-get_elem? [] (suc k) a rest h = cc
  drop-get_elem? (x ∷ xs) zero a rest h = ground arith
  drop-get_elem? (x ∷ xs) (suc k) a rest h =
      let e : suc k + 1 ≡ suc (k + 1) = omega arith in
      let (g, d) = drop-get_elem? xs k a rest h in (g, rw e d)

  drop-set : (xs : List A) (i k : ℕ) (a : A) → i < k → drop k (set xs i a) ≡ drop k xs
  drop-set [] i k a h = refl
  drop-set (x ∷ xs) zero zero a h = absurd (omega arith)
  drop-set (x ∷ xs) zero (suc k) a h = refl
  drop-set (x ∷ xs) (suc i) zero a h = absurd (omega arith)
  drop-set (x ∷ xs) (suc i) (suc k) a h = drop-set xs i k a (omega arith)

  take-set :
      (xs : List A) (i : ℕ) (a : A)
      → i < length xs
      → take (i + 1) (set xs i a) ≡ take i xs ++ a ∷ []
  take-set [] i a h = absurd (omega arith)
  take-set (x ∷ xs) zero a h = refl
  take-set (x ∷ xs) (suc i) a h =
      let e : suc i + 1 ≡ suc (i + 1) = omega arith in
      rw e (ap (◌∷◌ x) (take-set xs i a (omega arith)))

  drop-length : (xs : List A) (k : ℕ) (a : A) (rest : List A) → drop k xs ≡ a ∷ rest → k < length xs
  drop-length [] zero a rest h = cc
  drop-length [] (suc k) a rest h = cc
  drop-length (x ∷ xs) zero a rest h = omega arith
  drop-length (x ∷ xs) (suc k) a rest h = omega (arith, drop-length xs k a rest h)

module _ {A : Type 0} (name : A → Text) where
  -- The entries whose name is none of `m` and none of an entry in front, in order.
  unfoldable pub distinct : List Text → List A → List A
  distinct m [] = []
  distinct m (a ∷ xs) = if seen (name a) m then distinct m xs else a ∷ distinct (name a ∷ m) xs

  dedup_loop-distinct :
      (rest : List A) (n k i : ℕ) (m : List Text) (xs : List A)
      → n ≡ length rest
      → drop k xs ≡ rest
      → i ≤ k
      → dedup_loop name n k i m xs ≡ take i xs ++ distinct m rest
  unfolding dedup_loop distinct
  dedup_loop-distinct [] zero k i m xs len d le = sym (append-nil (take i xs))
  dedup_loop-distinct [] (suc n) k i m xs len d le = absurd (omega arith)
  dedup_loop-distinct (a ∷ rest) zero k i m xs len d le = absurd (omega arith)
  dedup_loop-distinct (a ∷ rest) (suc n) k i m xs len d le =
      let (g, d') = drop-get_elem? xs k a rest d in
      elim (Bool-cases (seen (name a) m)) [
        | inl y ↦
            rw (g, y, dedup_loop)
              (dedup_loop-distinct rest n (k + 1) i m xs (omega arith) d' (omega arith))
        | inr new ↦
            rw (g, new, dedup_loop)
              (dedup_loop-distinct rest n (k + 1) (i + 1) (name a ∷ m) (set xs i a) (omega arith)
                  (drop-set xs i (k + 1) a (omega arith) ∙ d') (omega arith)
                ∙ ap (λ t. t ++ distinct (name a ∷ m) rest)
                    (take-set xs i a (omega (arith, drop-length xs k a rest d)))
                ∙ append_assoc (take i xs) (a ∷ []) (distinct (name a ∷ m) rest))
      ]

  -- The loop in place of `DeduplicateNetworkEntries` keeps the first entry of each name, in order.
  pub dedup-distinct : (xs : List A) → dedup name xs ≡ distinct [] xs
  dedup-distinct xs =
      unfold dedup in dedup_loop-distinct xs (length xs) 0 0 [] xs refl refl (omega arith)

  -- No name twice, none of `m`.
  abbrev pub AllNew : List Text → List A → Type 0
  AllNew m [] = Unit
  AllNew m (a ∷ xs) = (seen (name a) m ≡ false) × AllNew (name a ∷ m) xs

  distinct-AllNew : (m : List Text) (xs : List A) → AllNew m (distinct m xs)
  unfolding distinct
  distinct-AllNew m [] = tt
  distinct-AllNew m (a ∷ xs) = elim (Bool-cases (seen (name a) m)) [
    | inl y ↦ rw y (distinct-AllNew m xs)
    | inr n ↦ rw n (n, distinct-AllNew (name a ∷ m) xs)
  ]

  distinct_id : (m : List Text) (xs : List A) → AllNew m xs → distinct m xs ≡ xs
  unfolding distinct
  distinct_id m [] h = refl
  distinct_id m (a ∷ xs) h = rw h.0 (ap (◌∷◌ a) (distinct_id (name a ∷ m) xs h.1))

  -- Doing it twice changes nothing more.
  pub dedup_idem : (xs : List A) → dedup name (dedup name xs) ≡ dedup name xs
  dedup_idem xs =
      dedup-distinct (dedup name xs)
      ∙ ap (distinct []) (dedup-distinct xs)
      ∙ distinct_id [] (distinct [] xs) (distinct-AllNew [] xs)
      ∙ sym (dedup-distinct xs)

  seen-text_eq :
      (t s : Text) (m : List Text) → seen t m ≡ true → text_eq t s ≡ true → seen s m ≡ true
  seen-text_eq t s m h e = rw ((text_eq_iff t s).0 e) at h

  -- Every name that was there is there still: `seen` of the names, in front of `m` or not.
  seen_names-distinct :
      (s : Text) (m : List Text) (xs : List A)
      → (seen s m || seen s (map name (distinct m xs))) ≡ (seen s m || seen s (map name xs))
  unfolding distinct seen
  seen_names-distinct s m [] = refl
  seen_names-distinct s m (a ∷ xs) = elim (Bool-cases (seen (name a) m)) [
    | inl y ↦ rw y (ground (arith, seen_names-distinct s m xs, seen-text_eq (name a) s m y))
    | inr n ↦ rw n (ground (arith, seen_names-distinct s (name a ∷ m) xs))
  ]

  -- The names that are kept are the names that were there.
  pub seen-dedup :
      (s : Text) (xs : List A) → seen s (map name (dedup name xs)) ≡ seen s (map name xs)
  seen-dedup s xs = rw (dedup-distinct xs) (unfold seen in seen_names-distinct s [] xs)
