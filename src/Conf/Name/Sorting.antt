-- ===== src/Conf/Name/Sorting.antt =====
-- conf/name.go: `TunnelNameIsLess` as the order by which tunnels are sorted.
use wireguard_windows.Base.{
  ℕ, true, false, List, [], ◌∷◌, if◌then◌else◌, ◌≡◌, refl, ◌⊎◌, sym, ◌∙◌, inl, inr, Bool-cases,
  arith,
}
use wireguard_windows.Base.Text.{Text, text_eq, text_eq_iff, text_eq_refl}
use wireguard_windows.Conf.Name.{
  Token, tokens, text_lt, Order, less, same, greater, cmp, tokens_less, tunnel_name_is_less,
}

text_lt_irrefl : (s : Text) → text_lt s s ≡ false
unfolding text_lt
text_lt_irrefl [] = refl
text_lt_irrefl (c ∷ s) = ground (arith, text_lt_irrefl s)

text_lt_asymm : (s t : Text) → text_lt s t ≡ true → text_lt t s ≡ false
unfolding text_lt
text_lt_asymm (c ∷ s) (d ∷ t) h = ground (arith, text_lt_asymm s t)
text_lt_asymm _ _ h = ground arith

text_lt_total : (s t : Text) → text_lt s t ≡ false → text_lt t s ≡ false → s ≡ t
unfolding text_lt
text_lt_total (c ∷ s) (d ∷ t) h k = ground (arith, text_lt_total s t)
text_lt_total _ _ h k = ground arith

text_lt_trans : (s t u : Text) → text_lt s t ≡ true → text_lt t u ≡ true → text_lt s u ≡ true
unfolding text_lt
text_lt_trans (c ∷ s) (d ∷ t) (e ∷ u) h k = ground (arith, text_lt_trans s t u)
text_lt_trans _ _ _ h k = ground arith

abbrev flip : Order → Order
flip less = greater
flip same = same
flip greater = less

cmp-flip : (t u : Token) → cmp u t ≡ flip (cmp t u)
unfolding cmp
cmp-flip t u =
    let s = t.maybe_string in
    let s' = u.maybe_string in ground (arith, text_lt_asymm s s', text_lt_asymm s' s)

-- The result of two comparisons in a row, where it is known.
abbrev Composes : Order → Order → Order → Type 0
Composes less less r = r ≡ less
Composes less same r = r ≡ less
Composes same less r = r ≡ less
Composes same same r = r ≡ same
Composes _ _ r = Unit

abbrev token : Text → ℕ → Token
token s n = record { maybe_string = s; maybe_number = n }

cmp_trans_parts :
    (a b c : Text) (k m n : ℕ)
    → Composes
        (cmp (token a k) (token b m))
        (cmp (token b m) (token c n))
        (cmp (token a k) (token c n))
unfolding cmp
cmp_trans_parts (x ∷ a) (y ∷ b) (z ∷ c) k m n = ground (
  arith,
  text_lt_trans (x ∷ a) (y ∷ b) (z ∷ c),
  text_lt_total (x ∷ a) (y ∷ b),
  text_lt_total (y ∷ b) (z ∷ c),
  text_lt_asymm (x ∷ a) (y ∷ b),
  text_lt_asymm (y ∷ b) (z ∷ c),
  text_lt_asymm (x ∷ a) (z ∷ c),
)
cmp_trans_parts [] [] [] k m n = ground arith
cmp_trans_parts [] [] (z ∷ c) k m n = ground arith
cmp_trans_parts [] (y ∷ b) [] k m n = ground arith
cmp_trans_parts [] (y ∷ b) (z ∷ c) k m n = ground arith
cmp_trans_parts (x ∷ a) [] [] k m n = ground arith
cmp_trans_parts (x ∷ a) [] (z ∷ c) k m n = ground arith
cmp_trans_parts (x ∷ a) (y ∷ b) [] k m n = ground arith

cmp_trans : (t u v : Token) → Composes (cmp t u) (cmp u v) (cmp t v)
cmp_trans t u v =
    cmp_trans_parts t.maybe_string u.maybe_string v.maybe_string t.maybe_number u.maybe_number
      v.maybe_number

tokens_less_irrefl : (ts : List Token) → tokens_less ts ts ≡ false
unfolding tokens_less
tokens_less_irrefl [] = refl
tokens_less_irrefl (t ∷ ts) = ground (arith, cmp-flip t t, tokens_less_irrefl ts)

tokens_less_trans :
    (ts us vs : List Token)
    → tokens_less ts us ≡ true
    → tokens_less us vs ≡ true
    → tokens_less ts vs ≡ true
unfolding tokens_less
tokens_less_trans (t ∷ ts) (u ∷ us) (v ∷ vs) h k =
    ground (arith, cmp_trans t u v, tokens_less_trans ts us vs)
tokens_less_trans [] [] vs h k = cc
tokens_less_trans [] (u ∷ us) [] h k = cc
tokens_less_trans [] (u ∷ us) (v ∷ vs) h k = refl
tokens_less_trans (t ∷ ts) [] vs h k = cc
tokens_less_trans (t ∷ ts) (u ∷ us) [] h k = cc

less_tokens :
    (a b : Text) → tunnel_name_is_less a b ≡ true → tokens_less (tokens a) (tokens b) ≡ true
less_tokens a b h = elim (Bool-cases (text_eq a b)) [
  | inl y ↦ let f : false ≡ true = rw y at (open_less h) in cc
  | inr n ↦ rw n at (open_less h)
]
  where
    open_less :
        tunnel_name_is_less a b ≡ true
        → (if text_eq a b then false else tokens_less (tokens a) (tokens b)) ≡ true
    open_less h = unfold tunnel_name_is_less in h

tunnel_name_is_less_irrefl : (a : Text) → tunnel_name_is_less a a ≡ false
tunnel_name_is_less_irrefl a = unfold tunnel_name_is_less in rw text_eq_refl

tunnel_name_is_less_through :
    (a b c : Text)
    → tunnel_name_is_less a b ≡ true
    → tunnel_name_is_less b c ≡ true
    → tunnel_name_is_less a c ≡ true
tunnel_name_is_less_through a b c h k =
    let l =
      tokens_less_trans (tokens a) (tokens b) (tokens c) (less_tokens a b h) (less_tokens b c k) in
    unfold tunnel_name_is_less in ground (arith, text_eq_iff a c, tokens_less_irrefl (tokens a))

-- The order in which tunnels are listed is transitive: where one name comes before a second and
-- that before a third, the first comes before the third, and the third not before the first.
pub tunnel_name_is_less_trans :
    (a b c : Text)
    → tunnel_name_is_less a b ≡ true
    → tunnel_name_is_less b c ≡ true
    → (tunnel_name_is_less a c ≡ true) × (tunnel_name_is_less c a ≡ false)
tunnel_name_is_less_trans a b c h k =
    let l = tunnel_name_is_less_through a b c h k in
    (l, back (Bool-cases (tunnel_name_is_less c a)))
  where
    back :
        (tunnel_name_is_less c a ≡ true) ⊎ (tunnel_name_is_less c a ≡ false)
        → tunnel_name_is_less c a ≡ false
    back (inr n) = n
    back (inl y) =
        let round = tunnel_name_is_less_through c a c y (tunnel_name_is_less_through a b c h k) in
        let f : true ≡ false = sym round ∙ tunnel_name_is_less_irrefl c in cc
