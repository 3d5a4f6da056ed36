-- ===== src/Conf/Driver/Peers.antt =====
-- Reading back what `ToDriverConfiguration` wrote of one peer.
use wireguard_windows.Base.{
  ℕ, zero, suc, ◌+◌, ◌*◌, ◌/◌, ◌%◌, ◌^◌, ◌≤◌, ◌<◌, List, [], ◌∷◌, ◌++◌, some, length, ok, All, ◌≡◌,
  refl, sym, ap, ap₂, ◌∙◌, arith, drop, get_elem?,
}
use wireguard_windows.Conf.Types.{Addr, none_addr, v4, v6, Prefix, prefix_from}
use wireguard_windows.Conf.Driver.{address_bytes, family_of, ip_of, allowed_ip, read_allowed_ips}
use wireguard_windows.Conf.Driver.Layout.{allowed_ip_items}
use wireguard_windows.Driver.{bytes_of, number_from, Item}

-- An address in range, without a zone, and a prefix length that it has.
abbrev IsPlainAddr : Addr → ℕ → Type 0
IsPlainAddr none_addr bits = ⊥
IsPlainAddr (v4 n) bits = (n < 2 ^ 32) × (bits ≤ 32)
IsPlainAddr (v6 n zone) bits = (n < 2 ^ 128) × (zone ≡ []) × (bits ≤ 128)

abbrev pub IsPlain : Prefix → Type 0
IsPlain p = IsPlainAddr p.addr p.bits

number_from-append :
    (acc : ℕ) (xs ys : List ℕ) → number_from acc (xs ++ ys) ≡ number_from (number_from acc xs) ys
unfolding number_from
number_from-append acc [] ys = refl
number_from-append acc (x ∷ xs) ys = number_from-append (acc * 256 + x) xs ys

number_from-bytes_of : (k n : ℕ) → n < 256 ^ k → number_from 0 (bytes_of k n) ≡ n
unfolding bytes_of number_from
number_from-bytes_of zero n h = omega arith
number_from-bytes_of (suc k) n h =
    number_from-append 0 (bytes_of k (n / 256)) (n % 256 ∷ [])
    ∙ ap (λ m. m * 256 + n % 256) (number_from-bytes_of k (n / 256) (omega arith))
    ∙ omega arith

abbrev prefix : Addr → ℕ → Prefix
prefix a bits = record { addr = a; bits = bits }

ip_of-address_bytes :
    (a : Addr) (bits : ℕ)
    → IsPlainAddr a bits
    → prefix_from (ip_of (family_of a) (address_bytes a)) (bits % 256) ≡ prefix a bits
unfolding ip_of address_bytes family_of prefix_from bytes_of
ip_of-address_bytes none_addr bits h = absurd h
ip_of-address_bytes (v4 n) bits h =
    ap₂ prefix (ap v4 (number_from-bytes_of 4 n (omega (arith, h.0)))) (omega (arith, h.1))
ip_of-address_bytes (v6 n zone) bits h =
    ap₂ prefix (ap₂ v6 (number_from-bytes_of 16 n (omega (arith, h.0))) (sym h.1))
      (omega (arith, h.2))

pub get_elem?-drop :
    {A : Type 0} (xs : List A) (i : ℕ) {x : A} {rest : List A}
    → drop i xs ≡ x ∷ rest
    → get_elem? xs i ≡ some x
get_elem?-drop [] zero e = absurd (cc)
get_elem?-drop [] (suc i) e = absurd (cc)
get_elem?-drop (y ∷ xs) zero e = cc
get_elem?-drop (y ∷ xs) (suc i) e = get_elem?-drop xs i e

drop-suc :
    {A : Type 0} (xs : List A) (i : ℕ) {x : A} {rest : List A}
    → drop i xs ≡ x ∷ rest
    → drop (suc i) xs ≡ rest
drop-suc [] zero e = absurd (cc)
drop-suc [] (suc i) e = absurd (cc)
drop-suc (y ∷ xs) zero e = cc
drop-suc (y ∷ xs) (suc i) e = drop-suc xs i e

drop_at :
    {A : Type 0} (xs : List A) (i j : ℕ) {ys : List A} → i ≡ j → drop i xs ≡ ys → drop j xs ≡ ys
drop_at xs i j h e = ap (λ k. drop k xs) (sym h) ∙ e

pub drop_next :
    {A : Type 0} (xs : List A) (i : ℕ) {x : A} {rest : List A}
    → drop i xs ≡ x ∷ rest
    → drop (i + 1) xs ≡ rest
drop_next xs i e = drop_at xs (suc i) (i + 1) (omega arith) (drop-suc xs i e)

pub read_allowed_ips-allowed_ip_items :
    (items : List Item) (ips : List Prefix) (i : ℕ) (rest : List Item)
    → All IsPlain ips
    → drop i items ≡ allowed_ip_items ips ++ rest
    → read_allowed_ips items (length ips) i ≡ ok ips
unfolding read_allowed_ips allowed_ip
read_allowed_ips-allowed_ip_items items [] i rest h e = refl
read_allowed_ips-allowed_ip_items items (a ∷ ips) i rest h e =
    let ih = read_allowed_ips-allowed_ip_items items ips (i + 1) rest h.1 (drop_next items i e) in
    rw (get_elem?-drop items i e, read_allowed_ips, ih, ip_of-address_bytes a.addr a.bits h.0) refl

pub drop-allowed_ip_items :
    (items : List Item) (ips : List Prefix) (i : ℕ) (rest : List Item)
    → drop i items ≡ allowed_ip_items ips ++ rest
    → drop (i + length ips) items ≡ rest
drop-allowed_ip_items items [] i rest e = drop_at items i (i + 0) (omega arith) e
drop-allowed_ip_items items (a ∷ ips) i rest e =
    drop_at items (i + 1 + length ips) (i + suc (length ips)) (omega arith)
      (drop-allowed_ip_items items ips (i + 1) rest (drop_next items i e))
