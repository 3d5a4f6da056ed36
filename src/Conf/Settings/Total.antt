-- ===== src/Conf/Settings/Total.antt =====
-- conf/parser.go: the settings and run-time panics.
use wireguard_windows.Base.{Bool, List, [], ◌∷◌, ◌++◌, arith, Returns, Returns->>=, Holds-of}
use wireguard_windows.Base.Text.{Text}
use wireguard_windows.Conf.Types.{Prefix, Interface, Peer}
use wireguard_windows.Conf.Values.{Std, parse_ip_cidr, split_list}
use wireguard_windows.Conf.Values.Total.{
  parse_port-Returns, parse_mtu-Returns, parse_persistent_keepalive-Returns,
  parse_table_off-Returns, parse_ws_mode-Returns, parse_ws_bool-Returns, parse_ws_millis-Returns,
  split_list-Returns, parse_ip_cidr-Returns, parse_key_base64-Returns, parse_endpoint-Returns,
  parse_ws_url-Returns,
}
use wireguard_windows.Conf.Keys.{InterfaceKey, PeerKey}
use wireguard_windows.Conf.Settings.{
  append_prefixes, set_endpoint, check_target, set_interface, set_peer, validate_web_socket_peer,
}

pub validate-Returns : (p : Peer) (ws : List Text) → Returns (validate_web_socket_peer p ws)
unfolding validate_web_socket_peer
validate-Returns p ws = ground arith

module _ (std : Std) where
  append_prefixes-Returns :
      (out : List Prefix) (ts : List Text) → Returns (append_prefixes std out ts)
  unfolding append_prefixes
  append_prefixes-Returns out [] = tt
  append_prefixes-Returns out (t ∷ ts) =
      Returns->>= (λ _. Unit {0}) (parse_ip_cidr std t) _ (parse_ip_cidr-Returns std t)
        (Holds-of _ _ λ _ _. tt) (λ a _. append_prefixes-Returns (out ++ a ∷ []) ts)

  pub set_interface-Returns :
      (k : InterfaceKey) (val : Text) (i : Interface) (saw : Bool)
      → Returns (set_interface std k val (i, saw))
  unfolding set_interface
  set_interface-Returns InterfaceKey.address val i saw =
      Returns->>= (λ _. Unit {0}) (split_list val) _ (split_list-Returns val)
        (Holds-of _ _ λ _ _. tt) (λ ts _. ground (arith, append_prefixes-Returns i.addresses ts))
  set_interface-Returns _ val i saw = ground (
    arith,
    parse_key_base64-Returns std val,
    parse_port-Returns val,
    parse_mtu-Returns val,
    split_list-Returns val,
    parse_table_off-Returns val,
  )

  set_endpoint-Returns : (val : Text) (p : Peer) → Returns (set_endpoint std val p)
  unfolding set_endpoint
  set_endpoint-Returns val p =
      ground (arith, parse_endpoint-Returns std val, parse_ws_url-Returns std val)

  check_target-Returns : (val : Text) → Returns (check_target std val)
  unfolding check_target
  check_target-Returns val = ground (arith, parse_endpoint-Returns std val)

  pub set_peer-Returns :
      (k : PeerKey) (val : Text) (p : Peer) (ws : List Text) → Returns (set_peer std k val (p, ws))
  unfolding set_peer
  set_peer-Returns PeerKey.allowed_ips val p ws =
      Returns->>= (λ _. Unit {0}) (split_list val) _ (split_list-Returns val)
        (Holds-of _ _ λ _ _. tt) (λ ts _. ground (arith, append_prefixes-Returns p.allowed_ips ts))
  set_peer-Returns PeerKey.endpoint val p ws = ground (arith, set_endpoint-Returns val p)
  set_peer-Returns _ val p ws = ground (
    arith,
    parse_key_base64-Returns std val,
    parse_persistent_keepalive-Returns val,
    parse_ws_mode-Returns val,
    parse_ws_bool-Returns val,
    parse_ws_millis-Returns val,
    check_target-Returns val,
  )
