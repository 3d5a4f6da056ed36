-- ===== src/Conf/Parser/Sound.antt =====
-- What a configuration that `FromWgQuick` returns is known to satisfy.
use wireguard_windows.Base.{
  Bool, true, false, List, [], ◌∷◌, Option, none, some, ok, ◌≡◌, refl, inl, inr, Bool-cases, All,
  All-append, All-map, arith, Holds, Holds-of, Holds-ok, Holds->>=, Holds-×,
}
use wireguard_windows.Base.Text.{Text, split}
use wireguard_windows.Conf.Types.{Config, Interface, Peer, empty_peer, is_zero}
use wireguard_windows.Conf.Values.{Std}
use wireguard_windows.Conf.Keys.{InterfaceKey, PeerKey, interface_key, peer_key}
use wireguard_windows.Conf.Settings.{validate_web_socket_peer, set_interface, set_peer}
use wireguard_windows.Conf.Settings.Ranges.{
  InterfaceIsInRange, PeerIsInRange, set_interface-InterfaceIsInRange, set_peer-PeerIsInRange,
}
use wireguard_windows.Conf.Settings.WebSocket.{
  ListsSettings, FollowsWebSocketRules, set_peer-ListsSettings, validate-FollowsWebSocketRules,
}
use wireguard_windows.Conf.Name.{tunnel_name_is_valid}
use wireguard_windows.Conf.Parser.{
  Line, blank, interface_header, peer_header, no_equals, setting, read_line, Section, in_interface,
  in_peer, not_in_a_section, Parser, initial, add_peer, finish_peer_of, finish_peer, open_interface,
  open_peer, set_in_interface, set_in_peer, interface_setting, peer_setting, setting_in,
  no_equals_in, exec, exec_all, all_have_public_keys, prune_peer, prune_config, check_config,
  finish, from_wg_quick,
}

-- A peer that is finished.
pub record PeerIsSound (p : Peer) : Type 0 where
  pub ranges : PeerIsInRange p
  pub rules : FollowsWebSocketRules p

-- What is known of the current peer, with the names of its settings.
pub record CurrentInv (p : Peer) (ws : List Text) : Type 0 where
  pub ranges : PeerIsInRange p
  pub lists : ListsSettings (p, ws)

-- In a [Peer] section there is a current peer.
abbrev pub PeerInv : Section → Option Peer → List Text → Type 0
PeerInv in_peer none ws = ⊥
PeerInv _ none ws = Unit
PeerInv _ (some p) ws = CurrentInv p ws

pub record ConfInv (c : Config) : Type 0 where
  pub name_valid : tunnel_name_is_valid c.name ≡ true
  pub interface : InterfaceIsInRange c.interface
  pub peers : All PeerIsSound c.peers

pub record Inv (s : Parser) : Type 0 where
  pub conf : ConfInv s.conf
  pub current : PeerInv s.section s.peer s.peer_ws_keys

-- The state behind `finishPeer`.
pub record Finished (s : Parser) : Type 0 where
  pub conf : ConfInv s.conf
  pub no_peer : s.peer ≡ none
  pub no_keys : s.peer_ws_keys ≡ []

pub initial-Inv : (name : Text) → tunnel_name_is_valid name ≡ true → Inv (initial name)
initial-Inv name valid = record {
  conf = record {
    name_valid = valid;
    interface = record { key_length_is = refl; port_le = omega arith; mtu_is = inl refl };
    peers = tt;
  };
  current = tt;
}

empty_peer-CurrentInv : CurrentInv empty_peer []
empty_peer-CurrentInv = record {
  ranges = ground arith;
  lists = record { none_set = λ e. ground arith };
}

add_peer-ConfInv : (c : Config) (p : Peer) → ConfInv c → PeerIsSound p → ConfInv (add_peer c p)
add_peer-ConfInv c p v h = record {
  name_valid = v.name_valid;
  interface = v.interface;
  peers = All-append PeerIsSound c.peers (p ∷ []) v.peers (h, tt);
}

finish_peer_of-Finished :
    (sec : Section) (o : Option Peer) (s : Parser)
    → ConfInv s.conf
    → PeerInv sec o s.peer_ws_keys
    → Holds Finished (finish_peer_of o s)
unfolding finish_peer_of
finish_peer_of-Finished sec none s v h = record { conf = v; no_peer = refl; no_keys = refl }
finish_peer_of-Finished sec (some p) s v h =
    Holds->>= (λ _. FollowsWebSocketRules p) Finished (validate_web_socket_peer p s.peer_ws_keys) _
      (Holds-of _ _ λ _ e. validate-FollowsWebSocketRules p s.peer_ws_keys (current sec h).lists e)
      (λ _ rules. record {
        conf =
            add_peer-ConfInv s.conf p v (record { ranges = (current sec h).ranges; rules = rules });
        no_peer = refl;
        no_keys = refl;
      })
  where
    current : (sec : Section) → PeerInv sec (some p) s.peer_ws_keys → CurrentInv p s.peer_ws_keys
    current in_peer h = h
    current in_interface h = h
    current not_in_a_section h = h

pub finish_peer-Finished : (s : Parser) → Inv s → Holds Finished (finish_peer s)
finish_peer-Finished s v = finish_peer_of-Finished s.section s.peer s v.conf v.current

pub open_interface-Inv : (comment : Text) (s : Parser) → Finished s → Inv (open_interface comment s)
unfolding open_interface
open_interface-Inv comment s f = record { conf = ground (arith, f.conf); current = rw f.no_peer tt }

pub open_peer-Inv : (comment : Text) (s : Parser) → Finished s → Inv (open_peer comment s)
unfolding open_peer
open_peer-Inv comment s f = record { conf = f.conf; current = rw f.no_keys (ground arith) }

at_any : (sec : Section) (p : Peer) (ws : List Text) → CurrentInv p ws → PeerInv sec (some p) ws
at_any in_peer p ws h = h
at_any in_interface p ws h = h
at_any not_in_a_section p ws h = h

no_equals_in-Inv : (sec : Section) (stripped : Text) → Holds Inv (no_equals_in sec stripped)
unfolding no_equals_in
no_equals_in-Inv in_peer stripped = tt
no_equals_in-Inv _ stripped = tt

module _ (std : Std) where
  set_in_interface-Inv :
      (key : Text) (o : Option InterfaceKey) (val : Text) (i : Interface) (s : Parser)
      → Inv s
      → InterfaceIsInRange i
      → Holds Inv (set_in_interface std key o val i s)
  unfolding set_in_interface
  set_in_interface-Inv key none val i s v h = tt
  set_in_interface-Inv key (some k) val i s v h =
      Holds->>= (λ r. InterfaceIsInRange r.0) Inv (set_interface std k val (i, s.saw_private_key)) _
        (set_interface-InterfaceIsInRange std k val i s.saw_private_key h)
        (λ r inside. record {
          conf = record {
            name_valid = v.conf.name_valid;
            interface = inside;
            peers = v.conf.peers;
          };
          current = v.current;
        })

  interface_setting-Inv :
      (key val comment : Text) (s : Parser)
      → Inv s
      → Holds Inv (interface_setting std key val comment s)
  unfolding interface_setting
  interface_setting-Inv key val comment s v =
      set_in_interface-Inv key (interface_key key) val _ s v (
        let r = v.conf.interface in
        record { key_length_is = r.key_length_is; port_le = r.port_le; mtu_is = r.mtu_is })

  set_in_peer-Inv :
      (key : Text) (o : Option PeerKey) (val : Text) (p : Peer) (s : Parser)
      → ConfInv s.conf
      → CurrentInv p s.peer_ws_keys
      → Holds Inv (set_in_peer std key o val p s)
  unfolding set_in_peer
  set_in_peer-Inv key none val p s v h = tt
  set_in_peer-Inv key (some k) val p s v h =
      let call = set_peer std k val (p, s.peer_ws_keys) in
      Holds->>= (λ r. PeerIsInRange r.0 × ListsSettings r) Inv call _
        (Holds-× (λ r. PeerIsInRange r.0) ListsSettings call
          (set_peer-PeerIsInRange std k val p s.peer_ws_keys h.ranges)
          (set_peer-ListsSettings std k val p s.peer_ws_keys h.lists))
        (λ r both. record {
          conf = v;
          current = at_any s.section r.0 r.1 (record { ranges = both.0; lists = both.1 });
        })

  peer_setting-Inv :
      (key val comment : Text) (s : Parser) (o : Option Peer)
      → ConfInv s.conf
      → PeerInv in_peer o s.peer_ws_keys
      → Holds Inv (peer_setting std key val comment s o)
  unfolding peer_setting
  peer_setting-Inv key val comment s none v h = absurd h
  peer_setting-Inv key val comment s (some p) v h =
      set_in_peer-Inv key (peer_key key) val _ s v (ground arith)

  setting_in-Inv :
      (sec : Section) (stripped key val comment : Text) (s : Parser)
      → Inv s
      → s.section ≡ sec
      → Holds Inv (setting_in std sec stripped key val comment s)
  unfolding setting_in
  setting_in-Inv not_in_a_section stripped key val comment s v e = tt
  setting_in-Inv in_interface stripped key val comment s v e =
      ground (arith, interface_setting-Inv key val comment s v)
  setting_in-Inv in_peer stripped key val comment s v e =
      ground (arith, peer_setting-Inv key val comment s s.peer v.conf (rw e at v.current))

  -- Every line keeps the invariant.
  pub exec-Inv : (l : Line) (s : Parser) → Inv s → Holds Inv (exec std l s)
  unfolding exec
  exec-Inv (blank comment) s v = record { conf = v.conf; current = v.current }
  exec-Inv (interface_header comment) s v =
      Holds->>= Finished Inv (finish_peer s) _ (finish_peer-Finished s v)
        (open_interface-Inv comment)
  exec-Inv (peer_header comment) s v =
      Holds->>= Finished Inv (finish_peer s) _ (finish_peer-Finished s v) (open_peer-Inv comment)
  exec-Inv (no_equals stripped) s v = no_equals_in-Inv s.section stripped
  exec-Inv (setting stripped key val comment) s v =
      setting_in-Inv s.section stripped key val comment s v refl

  pub exec_all-Inv : (lines : List Text) (s : Parser) → Inv s → Holds Inv (exec_all std lines s)
  unfolding exec_all
  exec_all-Inv [] s v = v
  exec_all-Inv (line ∷ lines) s v =
      Holds->>= Inv Inv (exec std (read_line line) s) _ (exec-Inv (read_line line) s v)
        (exec_all-Inv lines)

-- What `FromWgQuick` promises of a configuration.
pub record ConfigIsSound (c : Config) : Type 0 where
  pub name_valid : tunnel_name_is_valid c.name ≡ true
  pub interface : InterfaceIsInRange c.interface
  pub peers : All PeerIsSound c.peers
  pub public_keys : All (λ p. is_zero p.public_key ≡ false) c.peers

prune_peer-PeerIsSound : (p : Peer) → PeerIsSound p → PeerIsSound (prune_peer p)
unfolding prune_peer
prune_peer-PeerIsSound p h = ground arith

prune_config-ConfInv :
    (pending : List Text) (c : Config) → ConfInv c → ConfInv (prune_config pending c)
unfolding prune_config
prune_config-ConfInv pending c v = record {
  name_valid = v.name_valid;
  interface = ground arith;
  peers = All-map PeerIsSound PeerIsSound prune_peer c.peers prune_peer-PeerIsSound v.peers;
}

all_have_public_keys-All :
    (ps : List Peer) → all_have_public_keys ps ≡ true → All (λ p. is_zero p.public_key ≡ false) ps
unfolding all_have_public_keys
all_have_public_keys-All [] h = tt
all_have_public_keys-All (p ∷ ps) h = (ground arith, all_have_public_keys-All ps (ground arith))

check_config-ConfigIsSound :
    (saw : Bool) (c : Config) → ConfInv c → Holds ConfigIsSound (check_config saw c)
unfolding check_config
check_config-ConfigIsSound false c v = tt
check_config-ConfigIsSound true c v = elim (Bool-cases (all_have_public_keys c.peers)) [
  | inl y ↦ rw y (record {
    name_valid = v.name_valid;
    interface = v.interface;
    peers = v.peers;
    public_keys = all_have_public_keys-All c.peers y;
  })
  | inr n ↦ rw n tt
]

finish-ConfigIsSound : (s : Parser) → Inv s → Holds ConfigIsSound (finish s)
unfolding finish
finish-ConfigIsSound s v =
    Holds->>= Finished ConfigIsSound (finish_peer s) _ (finish_peer-Finished s v) λ t f.
      check_config-ConfigIsSound t.saw_private_key (prune_config t.pending_comments t.conf)
        (prune_config-ConfInv t.pending_comments t.conf f.conf)

from_wg_quick-Holds : (std : Std) (s name : Text) → Holds ConfigIsSound (from_wg_quick std s name)
unfolding from_wg_quick
from_wg_quick-Holds std s name = elim (Bool-cases (tunnel_name_is_valid name)) [
  | inr n ↦ rw n tt
  | inl y ↦ rw y (
      Holds->>= Inv ConfigIsSound (exec_all std (split 10 s) (initial name)) finish
        (exec_all-Inv std (split 10 s) (initial name) (initial-Inv name y)) finish-ConfigIsSound)
]

-- A configuration that `FromWgQuick` returns has a valid name, keys of 32 bytes, public keys that
-- are not zero, ports, MTU, keepalives and timings within their ranges, and peers that follow the
-- rules of the WebSocket settings.
pub from_wg_quick-ConfigIsSound :
    (std : Std) (s name : Text) {c : Config} → from_wg_quick std s name ≡ ok c → ConfigIsSound c
from_wg_quick-ConfigIsSound std s name =
    Holds-ok ConfigIsSound (from_wg_quick std s name) (from_wg_quick-Holds std s name)
