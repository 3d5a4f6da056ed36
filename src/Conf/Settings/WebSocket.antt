-- ===== src/Conf/Settings/WebSocket.antt =====
-- The WebSocket rules: what a peer that passed `validateWebSocketPeer` looks like.
use wireguard_windows.Base.{false, List, [], ◌∷◌, ◌++◌, ok, ◌≡◌, ◌≢◌, arith, Holds}
use wireguard_windows.Base.Text.{Text}
use wireguard_windows.Conf.Types.{Peer, ws_none, wstunnel}
use wireguard_windows.Conf.Values.{Std}
use wireguard_windows.Conf.Values.{endpoint_is_empty}
use wireguard_windows.Conf.Keys.{PeerKey}
use wireguard_windows.Conf.Settings.{PeerState, set_endpoint, set_peer, validate_web_socket_peer}

-- None of the settings of the transport is set.
pub record HasNoWsSettings (p : Peer) : Type 0 where
  pub target : p.ws_tunnel_target ≡ []
  pub bearer : p.ws_bearer ≡ []
  pub mask : p.ws_mask ≡ false
  pub ca : p.ws_tls_ca ≡ []
  pub cert : p.ws_tls_cert ≡ []
  pub tls_key : p.ws_tls_key ≡ []
  pub insecure : p.ws_tls_insecure ≡ false
  pub ping : p.ws_ping_interval ≡ 0
  pub backoff_min : p.ws_backoff_min ≡ 0
  pub backoff_max : p.ws_backoff_max ≡ 0

-- The names list the settings that were made.
pub record ListsSettings (s : PeerState) : Type 0 where
  pub none_set : s.1 ≡ [] → HasNoWsSettings s.0

pub record FollowsWebSocketRules (p : Peer) : Type 0 where
  pub url_needs_mode : p.ws_url ≢ [] → p.ws_mode ≢ ws_none
  pub mode_needs_url : p.ws_mode ≢ ws_none → p.ws_url ≡ [] → p.endpoint.host ≡ []
  pub tunnel_needs : p.ws_mode ≡ wstunnel → (p.ws_url ≢ []) × (p.ws_tunnel_target ≢ [])
  pub target_needs_tunnel : p.ws_tunnel_target ≢ [] → p.ws_mode ≡ wstunnel
  pub settings_need_mode : p.ws_mode ≡ ws_none → HasNoWsSettings p

concat-ne-nil : (ws : List Text) (t : Text) → ws ++ t ∷ [] ≢ []
concat-ne-nil [] t = λ e. cc
concat-ne-nil (w ∷ ws) t = λ e. cc

module _ (std : Std) where
  set_endpoint-HasNoWsSettings :
      (val : Text) (p : Peer) (ws : List Text)
      → ListsSettings (p, ws)
      → Holds (λ q. ListsSettings (q, ws)) (set_endpoint std val p)
  unfolding set_endpoint
  set_endpoint-HasNoWsSettings val p ws v = ground arith

  pub set_peer-ListsSettings :
      (k : PeerKey) (val : Text) (p : Peer) (ws : List Text)
      → ListsSettings (p, ws)
      → Holds ListsSettings (set_peer std k val (p, ws))
  unfolding set_peer
  set_peer-ListsSettings PeerKey.endpoint val p ws v =
      ground (arith, set_endpoint-HasNoWsSettings val p ws v)
  set_peer-ListsSettings _ val p ws v = grind (arith, concat-ne-nil)

-- A peer that passes follows the rules.
pub validate-FollowsWebSocketRules :
    (p : Peer) (ws : List Text)
    → ListsSettings (p, ws)
    → validate_web_socket_peer p ws ≡ ok tt
    → FollowsWebSocketRules p
unfolding validate_web_socket_peer endpoint_is_empty
validate-FollowsWebSocketRules p ws v h = record {
  url_needs_mode = ground arith;
  mode_needs_url = ground arith;
  tunnel_needs = ground arith;
  target_needs_tunnel = ground arith;
  settings_need_mode = ground arith;
}
