-- ===== src/Conf/Parser/Total.antt =====
-- conf/parser.go: `FromWgQuick` and the pointer to the current peer, which may be nil.
use wireguard_windows.Base.{
  List, [], ◌∷◌, Option, none, some, panic, ◌≢◌, inl, inr, Bool-cases, arith, Result, Returns,
  Returns->>=,
}
use wireguard_windows.Base.Text.{Text, split}
use wireguard_windows.Conf.Types.{Interface, Peer}
use wireguard_windows.Conf.Values.{Std}
use wireguard_windows.Conf.Keys.{InterfaceKey, PeerKey, interface_key, peer_key}
use wireguard_windows.Conf.Settings.Total.{
  validate-Returns, set_interface-Returns, set_peer-Returns,
}
use wireguard_windows.Conf.Name.{tunnel_name_is_valid}
use wireguard_windows.Conf.Parser.Sound.{PeerInv, Inv, initial-Inv, exec-Inv, exec_all-Inv}
use wireguard_windows.Conf.Parser.{
  Line, blank, interface_header, peer_header, no_equals, setting, read_line, Section, in_interface,
  in_peer, not_in_a_section, Parser, initial, finish_peer_of, set_in_interface, set_in_peer,
  interface_setting, peer_setting, setting_in, no_equals_in, exec, exec_all, check_config, finish,
  from_wg_quick,
}

finish_peer_of-Returns : (o : Option Peer) (s : Parser) → Returns (finish_peer_of o s)
unfolding finish_peer_of
finish_peer_of-Returns none s = tt
finish_peer_of-Returns (some p) s = ground (arith, validate-Returns p s.peer_ws_keys)

no_equals_in-Returns : (sec : Section) (stripped : Text) → Returns (no_equals_in sec stripped)
unfolding no_equals_in
no_equals_in-Returns in_peer stripped = tt
no_equals_in-Returns _ stripped = tt

module _ (std : Std) where
  set_in_interface-Returns :
      (key : Text) (o : Option InterfaceKey) (val : Text) (i : Interface) (s : Parser)
      → Returns (set_in_interface std key o val i s)
  unfolding set_in_interface
  set_in_interface-Returns key none val i s = tt
  set_in_interface-Returns key (some k) val i s =
      ground (arith, set_interface-Returns std k val i s.saw_private_key)

  set_in_peer-Returns :
      (key : Text) (o : Option PeerKey) (val : Text) (p : Peer) (s : Parser)
      → Returns (set_in_peer std key o val p s)
  unfolding set_in_peer
  set_in_peer-Returns key none val p s = tt
  set_in_peer-Returns key (some k) val p s =
      ground (arith, set_peer-Returns std k val p s.peer_ws_keys)

  interface_setting-Returns :
      (key val comment : Text) (s : Parser) → Returns (interface_setting std key val comment s)
  unfolding interface_setting
  interface_setting-Returns key val comment s =
      set_in_interface-Returns key (interface_key key) val _ s

  peer_setting-Returns :
      (key val comment : Text) (s : Parser) (o : Option Peer)
      → PeerInv in_peer o s.peer_ws_keys
      → Returns (peer_setting std key val comment s o)
  unfolding peer_setting
  peer_setting-Returns key val comment s none h = absurd h
  peer_setting-Returns key val comment s (some p) h = set_in_peer-Returns key (peer_key key) val _ s

  setting_in-Returns :
      (sec : Section) (stripped key val comment : Text) (s : Parser)
      → PeerInv sec s.peer s.peer_ws_keys
      → Returns (setting_in std sec stripped key val comment s)
  unfolding setting_in
  setting_in-Returns not_in_a_section stripped key val comment s h = tt
  setting_in-Returns in_interface stripped key val comment s h =
      ground (arith, interface_setting-Returns key val comment s)
  setting_in-Returns in_peer stripped key val comment s h =
      ground (arith, peer_setting-Returns key val comment s s.peer h)

  exec-Returns : (l : Line) (s : Parser) → Inv s → Returns (exec std l s)
  unfolding exec
  exec-Returns (blank comment) s v = tt
  exec-Returns (interface_header comment) s v = ground (arith, finish_peer_of-Returns s.peer s)
  exec-Returns (peer_header comment) s v = ground (arith, finish_peer_of-Returns s.peer s)
  exec-Returns (no_equals stripped) s v = no_equals_in-Returns s.section stripped
  exec-Returns (setting stripped key val comment) s v =
      setting_in-Returns s.section stripped key val comment s v.current

  exec_all-Returns : (lines : List Text) (s : Parser) → Inv s → Returns (exec_all std lines s)
  unfolding exec_all
  exec_all-Returns [] s v = tt
  exec_all-Returns (line ∷ lines) s v =
      Returns->>= Inv (exec std (read_line line) s) _ (exec-Returns (read_line line) s v)
        (exec-Inv std (read_line line) s v) (exec_all-Returns lines)

finish-Returns : (s : Parser) → Returns (finish s)
unfolding finish check_config
finish-Returns s = ground (arith, finish_peer_of-Returns s.peer s)

Returns-ne-panic {ℓ κ} : {E : Type κ} {A : Type ℓ} (m : Result E A) → Returns m → m ≢ panic
Returns-ne-panic m h e = rw e at h

from_wg_quick-Returns : (std : Std) (s name : Text) → Returns (from_wg_quick std s name)
unfolding from_wg_quick
from_wg_quick-Returns std s name = elim (Bool-cases (tunnel_name_is_valid name)) [
  | inr n ↦ rw n tt
  | inl y ↦ rw y (
      Returns->>= Inv (exec_all std (split 10 s) (initial name)) finish
        (exec_all-Returns std (split 10 s) (initial name) (initial-Inv name y))
        (exec_all-Inv std (split 10 s) (initial name) (initial-Inv name y))
        (λ t _. finish-Returns t))
]

-- `FromWgQuick` returns a configuration or an error on every text: it never follows the nil
-- pointer of a peer that is not there.
pub from_wg_quick-ne-panic : (std : Std) (s name : Text) → from_wg_quick std s name ≢ panic
from_wg_quick-ne-panic std s name = Returns-ne-panic _ (from_wg_quick-Returns std s name)
