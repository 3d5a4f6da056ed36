-- ===== src/Conf/Settings.antt =====
-- conf/parser.go: one setting of an [Interface] or a [Peer] section, the two `switch key` of
-- `FromWgQuick`, and the rules on the WebSocket settings of a peer.
pub mod Ranges
pub mod Total
pub mod WebSocket
use wireguard_windows.Base.{
  Bool, true, not, ◌&&◌, List, [], ◌∷◌, ◌++◌, none, some, if◌then◌else◌, ok, err, panic, ◌>>=◌,
}
use wireguard_windows.Base.Text.{Text, codes, is_empty}
use wireguard_windows.Conf.Types.{
  Addr, Prefix, Interface, Peer, ws_mode_text, is_ws_none, is_wstunnel,
}
use wireguard_windows.Conf.Values.{
  Std, Parsed, fail, parse_port, parse_mtu, parse_persistent_keepalive, parse_table_off,
  parse_ws_mode, parse_ws_bool, parse_ws_millis, split_list, is_ws_url, redact_ws_url,
  parse_ip_cidr, parse_key_base64, parse_endpoint, parse_ws_url, endpoint_string, endpoint_is_empty,
  ws_needs_mode, mode_needs_ws_url, tunnel_needs_ws_url, tunnel_needs_target, target_needs_tunnel,
  settings_need_mode, invalid_ws_tunnel_target,
}
use wireguard_windows.Conf.Keys.{InterfaceKey, PeerKey}

-- `validateWebSocketPeer`; the keys are the canonical names of the WS* settings of the peer.
unfoldable pub validate_web_socket_peer : Peer → List Text → Parsed (Unit {0})
validate_web_socket_peer p ws_keys =
    if not (is_empty p.ws_url) && is_ws_none p.ws_mode
    then fail ws_needs_mode (redact_ws_url p.ws_url)
    else if is_empty p.ws_url && not (is_ws_none p.ws_mode) && not (endpoint_is_empty p.endpoint)
    then fail mode_needs_ws_url (endpoint_string p.endpoint)
    else if is_wstunnel p.ws_mode && is_empty p.ws_url
    then fail tunnel_needs_ws_url (ws_mode_text p.ws_mode)
    else if is_wstunnel p.ws_mode && is_empty p.ws_tunnel_target
    then fail tunnel_needs_target (ws_mode_text p.ws_mode)
    else if not (is_empty p.ws_tunnel_target) && not (is_wstunnel p.ws_mode)
    then fail target_needs_tunnel p.ws_tunnel_target
    else if is_ws_none p.ws_mode
    then elim ws_keys [ [] ↦ ok tt | key ∷ _ ↦ fail settings_need_mode key ]
    else ok tt

-- The interface, and whether a private key was seen.
abbrev pub InterfaceState : Type 0
InterfaceState = Interface × Bool

-- The peer, and the names of the WS* settings that it set.
abbrev pub PeerState : Type 0
PeerState = Peer × List Text

module _ (std : Std) where
  append_prefixes : List Prefix → List Text → Parsed (List Prefix)
  append_prefixes out [] = ok out
  append_prefixes out (address ∷ addresses) =
      parse_ip_cidr std address >>= λ a. append_prefixes (out ++ a ∷ []) addresses

  -- A name server is an address; anything else is a search domain.
  append_dns : List Addr → List Text → List Text → List Addr × List Text
  append_dns dns search [] = (dns, search)
  append_dns dns search (address ∷ addresses) = elim (std.parse_addr address) [
    | none ↦ append_dns dns (search ++ address ∷ []) addresses
    | some a ↦ append_dns (dns ++ a ∷ []) search addresses
  ]

  unfoldable pub set_interface : InterfaceKey → Text → InterfaceState → Parsed InterfaceState
  unfolding append_prefixes append_dns
  set_interface InterfaceKey.private_key val (c, saw) = do
    k ← parse_key_base64 std val
    ok (record c { private_key = k }, true)
  set_interface InterfaceKey.listen_port val (c, saw) = do
    p ← parse_port val
    ok (record c { listen_port = p }, saw)
  set_interface InterfaceKey.mtu val (c, saw) = do m ← parse_mtu val; ok (record c { mtu = m }, saw)
  set_interface InterfaceKey.address val (c, saw) = do
    addresses ← split_list val
    out ← append_prefixes c.addresses addresses
    ok (record c { addresses = out }, saw)
  set_interface InterfaceKey.dns val (c, saw) = do
    addresses ← split_list val
    let out = append_dns c.dns c.dns_search addresses
    ok (record c { dns = out.0; dns_search = out.1 }, saw)
  set_interface InterfaceKey.pre_up val (c, saw) = ok (record c { pre_up = val }, saw)
  set_interface InterfaceKey.post_up val (c, saw) = ok (record c { post_up = val }, saw)
  set_interface InterfaceKey.pre_down val (c, saw) = ok (record c { pre_down = val }, saw)
  set_interface InterfaceKey.post_down val (c, saw) = ok (record c { post_down = val }, saw)
  set_interface InterfaceKey.table val (c, saw) = do
    off ← parse_table_off val
    ok (record c { table_off = off }, saw)

  set_endpoint : Text → Peer → Parsed Peer
  set_endpoint val p =
      if is_ws_url val
      then (parse_ws_url std val >>= λ e. ok (record p { endpoint = e; ws_url = val }))
      else parse_endpoint std val >>= λ e. ok (record p { endpoint = e; ws_url = [] })

  -- Any error of `parseEndpoint` becomes this one.
  check_target : Text → Parsed (Unit {0})
  check_target val = elim (parse_endpoint std val) [
    | ok _ ↦ ok tt
    | err _ ↦ fail invalid_ws_tunnel_target val
    | panic ↦ panic
  ]

  unfoldable pub set_peer : PeerKey → Text → PeerState → Parsed PeerState
  unfolding append_prefixes set_endpoint check_target
  set_peer PeerKey.public_key val (p, ws) = do
    k ← parse_key_base64 std val
    ok (record p { public_key = k }, ws)
  set_peer PeerKey.preshared_key val (p, ws) = do
    k ← parse_key_base64 std val
    ok (record p { preshared_key = k }, ws)
  set_peer PeerKey.allowed_ips val (p, ws) = do
    addresses ← split_list val
    out ← append_prefixes p.allowed_ips addresses
    ok (record p { allowed_ips = out }, ws)
  set_peer PeerKey.persistent_keepalive val (p, ws) = do
    n ← parse_persistent_keepalive val
    ok (record p { persistent_keepalive = n }, ws)
  set_peer PeerKey.endpoint val (p, ws) = do q ← set_endpoint val p; ok (q, ws)
  set_peer PeerKey.ws_mode val (p, ws) = do m ← parse_ws_mode val; ok (record p { ws_mode = m }, ws)
  set_peer PeerKey.ws_tunnel_target val (p, ws) = do
    _ ← check_target val
    ok (record p { ws_tunnel_target = val }, ws ++ codes "WSTunnelTarget" ∷ [])
  set_peer PeerKey.ws_bearer val (p, ws) =
      ok (record p { ws_bearer = val }, ws ++ codes "WSBearer" ∷ [])
  set_peer PeerKey.ws_mask val (p, ws) = do
    b ← parse_ws_bool val
    ok (record p { ws_mask = b }, ws ++ codes "WSMask" ∷ [])
  set_peer PeerKey.ws_tls_ca val (p, ws) =
      ok (record p { ws_tls_ca = val }, ws ++ codes "WSTLSCA" ∷ [])
  set_peer PeerKey.ws_tls_cert val (p, ws) =
      ok (record p { ws_tls_cert = val }, ws ++ codes "WSTLSCert" ∷ [])
  set_peer PeerKey.ws_tls_key val (p, ws) =
      ok (record p { ws_tls_key = val }, ws ++ codes "WSTLSKey" ∷ [])
  set_peer PeerKey.ws_tls_insecure val (p, ws) = do
    b ← parse_ws_bool val
    ok (record p { ws_tls_insecure = b }, ws ++ codes "WSTLSInsecure" ∷ [])
  set_peer PeerKey.ws_ping_interval val (p, ws) = do
    m ← parse_ws_millis val
    ok (record p { ws_ping_interval = m }, ws ++ codes "WSPingInterval" ∷ [])
  set_peer PeerKey.ws_backoff_min val (p, ws) = do
    m ← parse_ws_millis val
    ok (record p { ws_backoff_min = m }, ws ++ codes "WSBackoffMin" ∷ [])
  set_peer PeerKey.ws_backoff_max val (p, ws) = do
    m ← parse_ws_millis val
    ok (record p { ws_backoff_max = m }, ws ++ codes "WSBackoffMax" ∷ [])
