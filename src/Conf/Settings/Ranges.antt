-- ===== src/Conf/Settings/Ranges.antt =====
-- What every setting keeps of the interface and of the peer: the numbers are in the ranges of
-- their fields, and keys have 32 bytes.
use wireguard_windows.Base.{
  ◌^◌, ◌-◌, ◌≤◌, Bool, List, ◌∷◌, ◌++◌, Option, none, some, ◌≡◌, ◌⊎◌, arith, length, Holds,
  Holds-of,
}
use wireguard_windows.Base.Text.{Text}
use wireguard_windows.Base.Decimal.{parse_uint}
use wireguard_windows.Conf.Types.{key_length, Interface, Peer}
use wireguard_windows.Conf.Values.{
  Std, Url, parse_port, parse_mtu, parse_persistent_keepalive, parse_ws_millis, parse_key_base64,
  parse_endpoint, parse_ws_url, url_endpoint, ws_endpoint, bracketed,
}
use wireguard_windows.Conf.Values.Endpoints.{parse_endpoint-IsEndpoint}
use wireguard_windows.Conf.Keys.{InterfaceKey, PeerKey}
use wireguard_windows.Conf.Settings.{set_endpoint, set_interface, set_peer}

pub record InterfaceIsInRange (i : Interface) : Type 0 where
  pub key_length_is : length i.private_key ≡ key_length
  pub port_le : i.listen_port ≤ 65535
  pub mtu_is : (i.mtu ≡ 0) ⊎ ((576 ≤ i.mtu) × (i.mtu ≤ 65535))

pub record PeerIsInRange (p : Peer) : Type 0 where
  pub key_length_is : length p.public_key ≡ key_length
  pub preshared_length_is : length p.preshared_key ≡ key_length
  pub port_le : p.endpoint.port ≤ 65535
  pub keepalive_le : p.persistent_keepalive ≤ 65535
  pub ping_le : p.ws_ping_interval ≤ 2 ^ 32 - 1
  pub backoff_min_le : p.ws_backoff_min ≤ 2 ^ 32 - 1
  pub backoff_max_le : p.ws_backoff_max ≤ 2 ^ 32 - 1

parse_mtu_bounds : (s : Text) → Holds (λ n. (576 ≤ n) × (n ≤ 65535)) (parse_mtu s)
unfolding parse_mtu
parse_mtu_bounds s = ground arith

parse_persistent_keepalive-le : (s : Text) → Holds (λ n. n ≤ 65535) (parse_persistent_keepalive s)
unfolding parse_persistent_keepalive
parse_persistent_keepalive-le s = ground arith

parse_ws_millis-le : (s : Text) → Holds (λ n. n ≤ 2 ^ 32 - 1) (parse_ws_millis s)
unfolding parse_ws_millis parse_uint
parse_ws_millis-le s = ground arith

port_le : (s : Text) → Holds (λ n. n ≤ 65535) (parse_port s)
unfolding parse_port
port_le s = ground arith

module _ (std : Std) where
  parse_key_base64-length : (s : Text) → Holds (λ k. length k ≡ key_length) (parse_key_base64 std s)
  unfolding parse_key_base64
  parse_key_base64-length s = ground arith

  parse_endpoint-port_le : (s : Text) → Holds (λ e. e.port ≤ 65535) (parse_endpoint std s)
  parse_endpoint-port_le s = Holds-of _ _ λ e h. (parse_endpoint-IsEndpoint std s h).port

  ws_endpoint-port_le : (s : Text) (u : Url) → Holds (λ e. e.port ≤ 65535) (ws_endpoint std s u)
  unfolding ws_endpoint
  ws_endpoint-port_le s u =
      ground (arith, parse_endpoint-port_le (bracketed u.hostname ++ b':' ∷ u.port))

  url_endpoint-port_le :
      (s : Text) (u : Option Url) → Holds (λ e. e.port ≤ 65535) (url_endpoint std s u)
  unfolding url_endpoint
  url_endpoint-port_le s none = tt
  url_endpoint-port_le s (some u) = ground (arith, ws_endpoint-port_le s u)

  parse_ws_url-port_le : (s : Text) → Holds (λ e. e.port ≤ 65535) (parse_ws_url std s)
  parse_ws_url-port_le s = unfold parse_ws_url in url_endpoint-port_le s (std.parse_url s)

  -- A setting of an [Interface] section keeps its numbers in range.
  pub set_interface-InterfaceIsInRange :
      (k : InterfaceKey) (val : Text) (i : Interface) (saw : Bool)
      → InterfaceIsInRange i
      → Holds (λ r. InterfaceIsInRange r.0) (set_interface std k val (i, saw))
  unfolding set_interface
  set_interface-InterfaceIsInRange InterfaceKey.private_key val i saw v =
      ground (arith, parse_key_base64-length val)
  set_interface-InterfaceIsInRange InterfaceKey.mtu val i saw v =
      ground (arith, parse_mtu_bounds val)
  set_interface-InterfaceIsInRange _ val i saw v = ground (arith, port_le val)

  set_endpoint-PeerIsInRange :
      (val : Text) (p : Peer) → PeerIsInRange p → Holds PeerIsInRange (set_endpoint std val p)
  unfolding set_endpoint
  set_endpoint-PeerIsInRange val p v =
      ground (arith, parse_endpoint-port_le val, parse_ws_url-port_le val)

  -- A setting of a [Peer] section keeps its numbers in range.
  pub set_peer-PeerIsInRange :
      (k : PeerKey) (val : Text) (p : Peer) (ws : List Text)
      → PeerIsInRange p
      → Holds (λ r. PeerIsInRange r.0) (set_peer std k val (p, ws))
  unfolding set_peer
  set_peer-PeerIsInRange PeerKey.endpoint val p ws v =
      ground (arith, set_endpoint-PeerIsInRange val p v)
  set_peer-PeerIsInRange _ val p ws v = ground (
    arith,
    parse_key_base64-length val,
    parse_persistent_keepalive-le val,
    parse_ws_millis-le val,
  )
