-- ===== src/Conf/Uapi/Total.antt =====
-- conf/uapi.go: `FromUAPI` and the pointer to the current peer, which may be nil.
use wireguard_windows.Base.{
  Bool, true, false, List, [], ◌∷◌, Option, none, some, if◌then◌else◌, ok, err, panic, ◌>>=◌,
  Returns, Returns->>=, Holds, ◌≡◌, ◌≢◌, refl, sym, subst, arith, inl, inr, Bool-cases,
  Option-cases,
}
use wireguard_windows.Base.Text.{Text, codes, is_empty, text_eq, cut, split}
use wireguard_windows.Conf.Types.{Peer, Config}
use wireguard_windows.Conf.Values.{Std, Parsed, parse_port}
use wireguard_windows.Conf.Values.Total.{
  parse_port-Returns, parse_ip_cidr-Returns, parse_persistent_keepalive-Returns,
  parse_endpoint-Returns,
}
use wireguard_windows.Conf.Uapi.{
  parse_key_hex, parse_bytes_or_stamp, Reading, set_uapi_interface, set_uapi_peer, on_peer, open_if,
  exec_uapi, read_uapi, no_reading, one_of, ignored_interface_keys, finish_uapi, from_uapi,
}

parse_key_hex-Returns : (s : Text) → Returns (parse_key_hex s)
unfolding parse_key_hex
parse_key_hex-Returns s = ground arith

parse_bytes_or_stamp-Returns : (s : Text) → Returns (parse_bytes_or_stamp s)
unfolding parse_bytes_or_stamp
parse_bytes_or_stamp-Returns s = ground arith

set_uapi_peer-Returns :
    (std : Std) (key val : Text) (p : Peer) → Returns (set_uapi_peer std key val p)
unfolding set_uapi_peer
set_uapi_peer-Returns std key val p = ground (
  arith,
  parse_key_hex-Returns val,
  parse_bytes_or_stamp-Returns val,
  parse_ip_cidr-Returns std val,
  parse_persistent_keepalive-Returns val,
  parse_endpoint-Returns std val,
)

set_uapi_interface-Returns : (key val : Text) (r : Reading) → Returns (set_uapi_interface key val r)
unfolding set_uapi_interface
set_uapi_interface-Returns key val r =
    ground (arith, parse_key_hex-Returns val, parse_port-Returns val)

-- In a peer section there is a current peer.
abbrev HasPeer : Bool → Option Peer → Type 0
HasPeer false p = Unit
HasPeer true none = ⊥
HasPeer true (some p) = Unit

abbrev IsReady : Reading → Type 0
IsReady r = HasPeer r.in_peer r.peer

-- The call returns, and its result is ready.
abbrev IsSafe : Parsed Reading → Type 0
IsSafe m = Returns m × Holds IsReady m

bind-IsSafe :
    {A : Type 0} (m : Parsed A) (f : A → Reading)
    → Returns m
    → ((a : A) → IsReady (f a))
    → IsSafe (m >>= λ a. ok (f a))
bind-IsSafe (ok a) f r h = (tt, h a)
bind-IsSafe (err e) f r h = (tt, tt)
bind-IsSafe panic f r h = absurd r

if-IsSafe : (b : Bool) (x y : Parsed Reading) → IsSafe x → IsSafe y → IsSafe (if b then x else y)
if-IsSafe true x y h k = h
if-IsSafe false x y h k = k

on_peer-IsSafe :
    (std : Std) (key val : Text) (r : Reading) (o : Option Peer)
    → r.in_peer ≡ true
    → HasPeer true o
    → IsSafe (on_peer std key val r o)
on_peer-IsSafe std key val r none i h = absurd h
on_peer-IsSafe std key val r (some p) i h =
    bind-IsSafe (set_uapi_peer std key val p) (λ q. record r { peer = some q })
      (set_uapi_peer-Returns std key val p) (λ q. subst (λ b. HasPeer b (some q)) (sym i) tt)

set_uapi_interface-IsSafe :
    (key val : Text) (r : Reading)
    → IsReady r
    → r.in_peer ≡ false
    → IsSafe (set_uapi_interface key val r)
unfolding set_uapi_interface
set_uapi_interface-IsSafe key val r ready i =
    if-IsSafe (text_eq key (codes "private_key")) _ _
      (bind-IsSafe (parse_key_hex val) (λ k. record r { private_key = k })
        (parse_key_hex-Returns val) (λ k. ready))
      (if-IsSafe (text_eq key (codes "listen_port")) _ _
        (bind-IsSafe (parse_port val) (λ p. record r { listen_port = p }) (parse_port-Returns val)
          (λ p. ready))
        (if-IsSafe (one_of key ignored_interface_keys) (ok r) _ (tt, ready) (tt, tt)))

open_if-IsReady :
    (b : Bool) (existing : List Peer) (r : Reading) → IsReady r → IsReady (open_if b existing r)
open_if-IsReady true existing r h = tt
open_if-IsReady false existing r h = h

branch-IsSafe :
    (b : Bool) (x y : Parsed Reading)
    → (b ≡ true → IsSafe x)
    → (b ≡ false → IsSafe y)
    → IsSafe (if b then x else y)
branch-IsSafe true x y h k = h refl
branch-IsSafe false x y h k = k refl

setting-IsSafe :
    (std : Std) (key val : Text) (s : Reading)
    → IsReady s
    → IsSafe (if s.in_peer then on_peer std key val s s.peer else set_uapi_interface key val s)
setting-IsSafe std key val s ready =
    branch-IsSafe s.in_peer (on_peer std key val s s.peer) (set_uapi_interface key val s)
      (λ y. on_peer-IsSafe std key val s s.peer y (subst (λ b. HasPeer b s.peer) y ready))
      (λ n. set_uapi_interface-IsSafe key val s ready n)

exec_uapi-IsSafe :
    (std : Std) (existing : List Peer) (line : Text) (r : Reading)
    → IsReady r
    → IsSafe (exec_uapi std existing line r)
unfolding exec_uapi
exec_uapi-IsSafe std existing line r ready = elim (Option-cases (cut b'=' line).1) [
  | inl e ↦ rw (e, exec_uapi) (tt, tt)
  | inr (val, e) ↦
      let key = (cut b'=' line).0 in
      let s = open_if (text_eq key (codes "public_key")) existing r in
      rw (e, exec_uapi)
        (if-IsSafe (text_eq key (codes "errno")) _ _
          (if-IsSafe (text_eq val (codes "0")) (ok r) _ (tt, ready) (tt, tt))
          (setting-IsSafe std key val s
            (open_if-IsReady (text_eq key (codes "public_key")) existing r ready)))
]

read_uapi-Returns :
    (std : Std) (existing : List Peer) (lines : List Text) (r : Reading)
    → IsReady r
    → Returns (read_uapi std existing lines r)
unfolding read_uapi
read_uapi-Returns std existing [] r h = tt
read_uapi-Returns std existing (l ∷ []) r h = tt
read_uapi-Returns std existing (l ∷ next ∷ lines) r h = elim (Bool-cases (is_empty l)) [
  | inl y ↦ rw (y, read_uapi) tt
  | inr n ↦
      let (returns, ready) = exec_uapi-IsSafe std existing l r h in
      rw (n, read_uapi)
        (Returns->>= IsReady (exec_uapi std existing l r) _ returns ready
          (λ s k. read_uapi-Returns std existing (next ∷ lines) s k))
]

-- Whatever the device answers, `FromUAPI` returns a configuration or an error: it follows no nil
-- pointer to a peer.
pub from_uapi-ne-panic :
    (std : Std) (input : Text) (existing : Config) → from_uapi std input existing ≢ panic
unfolding from_uapi
from_uapi-ne-panic std input existing h =
    returned (read_uapi std existing.peers (split 10 input) no_reading)
      (read_uapi-Returns std existing.peers (split 10 input) no_reading tt) h
  where
    returned :
        (m : Parsed Reading) → Returns m → (m >>= λ r. ok (finish_uapi existing r)) ≡ panic → ⊥
    returned (ok r) t e = cc
    returned (err k) t e = cc
    returned panic t e = t
