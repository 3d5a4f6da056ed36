-- ===== src/Conf/Values/Items.antt =====
-- `splitList`, against the lists that conf/writer.go joins by a comma and a space.
use wireguard_windows.Base.{
  ℕ, true, false, List, [], ◌∷◌, ok, ◌==◌, ◌≡◌, refl, ap, sym, ◌∙◌, ◌≢◌, inl, inr, Bool-cases, All,
  ◌>>=◌, >>=-eq-ok, ok-injective, subst,
}
use wireguard_windows.Base.Text.{
  Text, codes, is_empty, is_space, trim_space, trim_space_cons, trim_space_id, trim_space-IsTrimmed,
  IsTrimmed, split, cons_first, join, All-trim_space,
}
use wireguard_windows.Base.Text.Cuts.{Lacks, split-Lacks, split_none, split-append}
use wireguard_windows.Conf.Values.{fail, two_commas, split_parts, split_list}

-- One item of a list: not empty, with no space round it.
pub record IsItem (t : Text) : Type 0 where
  pub ne_nil : t ≢ []
  pub trimmed : IsTrimmed t

split-ne-nil : (b : ℕ) (s : Text) → split b s ≢ []
unfolding split
split-ne-nil b [] = λ e. cc
split-ne-nil b (c ∷ s) = elim (Bool-cases (c == b)) [
  | inl y ↦ rw y (λ e. cc)
  | inr n ↦ rw n (cons_first-ne-nil (split b s))
]
  where
    cons_first-ne-nil : (ts : List Text) → cons_first c ts ≢ []
    cons_first-ne-nil [] = λ e. cc
    cons_first-ne-nil (t ∷ ts) = λ e. cc

module _ (w : Text) where
  split_parts-cons_space :
      (parts : List Text) → parts ≢ [] → split_parts w (cons_first b' ' parts) ≡ split_parts w parts
  split_parts-cons_space [] h = absurd (h refl)
  split_parts-cons_space (part ∷ parts) h =
      unfold split_parts in rw (trim_space_cons b' ' part (unfold is_space in refl))

  split_parts-cons :
      (t : Text) (parts : List Text)
      → IsItem t
      → split_parts w (t ∷ parts) ≡ (split_parts w parts >>= λ out. ok (t ∷ out))
  split_parts-cons [] parts h = absurd (h.ne_nil refl)
  split_parts-cons (c ∷ t) parts h = unfold split_parts in rw (trim_space_id (c ∷ t) h.trimmed)

  split_parts-split_cons_space :
      (s : Text) → split_parts w (split b',' (b' ' ∷ s)) ≡ split_parts w (split b',' s)
  split_parts-split_cons_space s =
      unfold split in split_parts-cons_space (split b',' s) (split-ne-nil b',' s)

  split_parts-join :
      (ts : List Text)
      → ts ≢ []
      → All IsItem ts
      → All (Lacks b',') ts
      → split_parts w (split b',' (join (codes ", ") ts)) ≡ ok ts
  unfolding join
  split_parts-join [] ne h k = absurd (ne refl)
  split_parts-join (t ∷ []) ne h k =
      rw (split_none b',' t k.0) (rw (split_parts-cons t [] h.0) (unfold split_parts in refl))
  split_parts-join (t ∷ u ∷ ts) ne h k =
      let rest = join (codes ", ") (u ∷ ts) in
      rw (split-append b',' t (b' ' ∷ rest) k.0) (
        rw (split_parts-cons t (split b',' (b' ' ∷ rest)) h.0) (
          ap (λ r. r >>= λ out. ok (t ∷ out))
            (split_parts-split_cons_space rest ∙ split_parts-join (u ∷ ts) (λ e. cc) h.1 k.1)))

  -- What is read is a list of items.
  record AreItems (ts : List Text) : Type 0 where
    items : All IsItem ts
    lacks : All (Lacks b',') ts

  trim-IsItem : (part : Text) → is_empty (trim_space part) ≡ false → IsItem (trim_space part)
  trim-IsItem part h = record {
    ne_nil = λ e. let f : true ≡ false = ap is_empty (sym e) ∙ h in cc;
    trimmed = trim_space-IsTrimmed part;
  }

  split_parts-AreItems :
      (parts : List Text) {ts : List Text}
      → All (Lacks b',') parts
      → split_parts w parts ≡ ok ts
      → AreItems ts
  unfolding split_parts
  split_parts-AreItems [] l h = subst AreItems (ok-injective h) (record { items = tt; lacks = tt })
  split_parts-AreItems (part ∷ parts) l h = elim (Bool-cases (is_empty (trim_space part))) [
    | inl y ↦ let f : fail two_commas w ≡ ok _ = rw y at h in cc
    | inr n ↦
        let (out, e, last) = >>=-eq-ok (split_parts w parts) _ (rw n at h) in
        let rest = split_parts-AreItems parts l.1 e in
        subst AreItems (ok-injective last) (record {
          items = (trim-IsItem part n, rest.items);
          lacks = (All-trim_space (λ c. (c == b',') ≡ false) part l.0, rest.lacks);
        })
  ]

-- What the writer joins is read back as the same list.
pub split_list-join :
    (ts : List Text)
    → ts ≢ []
    → All IsItem ts
    → All (Lacks b',') ts
    → split_list (join (codes ", ") ts) ≡ ok ts
split_list-join ts ne h k = unfold split_list in split_parts-join (join (codes ", ") ts) ts ne h k

split_parts-ne-nil :
    (w : Text) (parts : List Text) {ts : List Text}
    → parts ≢ []
    → split_parts w parts ≡ ok ts
    → ts ≢ []
unfolding split_parts
split_parts-ne-nil w [] ne h = absurd (ne refl)
split_parts-ne-nil w (part ∷ parts) ne h = elim (Bool-cases (is_empty (trim_space part))) [
  | inl y ↦ let f : fail two_commas w ≡ ok _ = rw y at h in cc
  | inr n ↦ let (out, e, last) = >>=-eq-ok (split_parts w parts) _ (rw n at h) in λ z. cc
]

-- The items that were read of a list are not empty, trimmed and without a comma, and joined with
-- commas they are read as the same list.
pub split_list-join-split_list :
    (s : Text) {ts : List Text}
    → split_list s ≡ ok ts
    → All IsItem ts × All (Lacks b',') ts × (split_list (join (codes ", ") ts) ≡ ok ts)
unfolding split_list
split_list-join-split_list s {ts} h =
    let a = split_parts-AreItems s (split b',' s) (split-Lacks b',' s) h in
    (
      a.items,
      a.lacks,
      split_parts-join (join (codes ", ") ts) ts
          (split_parts-ne-nil s (split b',' s) (split-ne-nil b',' s) h) a.items a.lacks,
    )
