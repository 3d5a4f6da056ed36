-- ===== src/Conf/Config/Secrets.antt =====
-- What `Redact` hides.
use wireguard_windows.Base.{ℕ, ◌+◌, List, [], ◌∷◌, ◌≡◌, refl, ap₂, arith}
use wireguard_windows.Conf.Types.{Peer, Config}
use wireguard_windows.Conf.Config.{redact_peer, redact_peers, redact}

-- Two peers that may differ in their keys, the bearer token and the comments alone.
pub record PeerAgrees (p q : Peer) : Type 0 where
  pub allowed_ips : p.allowed_ips ≡ q.allowed_ips
  pub endpoint : p.endpoint ≡ q.endpoint
  pub keepalive : p.persistent_keepalive ≡ q.persistent_keepalive
  pub ws_mode : p.ws_mode ≡ q.ws_mode
  pub ws_url : p.ws_url ≡ q.ws_url
  pub target : p.ws_tunnel_target ≡ q.ws_tunnel_target
  pub mask : p.ws_mask ≡ q.ws_mask
  pub ca : p.ws_tls_ca ≡ q.ws_tls_ca
  pub cert : p.ws_tls_cert ≡ q.ws_tls_cert
  pub tls_key : p.ws_tls_key ≡ q.ws_tls_key
  pub insecure : p.ws_tls_insecure ≡ q.ws_tls_insecure
  pub ping : p.ws_ping_interval ≡ q.ws_ping_interval
  pub backoff_min : p.ws_backoff_min ≡ q.ws_backoff_min
  pub backoff_max : p.ws_backoff_max ≡ q.ws_backoff_max
  pub rx : p.rx_bytes ≡ q.rx_bytes
  pub tx : p.tx_bytes ≡ q.tx_bytes
  pub handshake : p.last_handshake_time ≡ q.last_handshake_time

abbrev pub PeersAgree : List Peer → List Peer → Type 0
PeersAgree [] [] = Unit
PeersAgree (p ∷ ps) (q ∷ qs) = PeerAgrees p q × PeersAgree ps qs
PeersAgree _ _ = ⊥

-- Two configurations that may differ in what is secret: the keys, the commands, the bearer
-- tokens, the comments and the TLS files.
pub record Agrees (c d : Config) : Type 0 where
  pub name : c.name ≡ d.name
  pub addresses : c.interface.addresses ≡ d.interface.addresses
  pub listen_port : c.interface.listen_port ≡ d.interface.listen_port
  pub mtu : c.interface.mtu ≡ d.interface.mtu
  pub dns : c.interface.dns ≡ d.interface.dns
  pub dns_search : c.interface.dns_search ≡ d.interface.dns_search
  pub table_off : c.interface.table_off ≡ d.interface.table_off
  pub peers : PeersAgree c.peers d.peers

redact_peer-eq : (i : ℕ) (p q : Peer) → PeerAgrees p q → redact_peer i p ≡ redact_peer i q
unfolding redact_peer
redact_peer-eq i p q h = ground arith

redact_peers-eq :
    (i : ℕ) (ps qs : List Peer) → PeersAgree ps qs → redact_peers i ps ≡ redact_peers i qs
unfolding redact_peers
redact_peers-eq i [] [] h = refl
redact_peers-eq i [] (q ∷ qs) h = absurd h
redact_peers-eq i (p ∷ ps) [] h = absurd h
redact_peers-eq i (p ∷ ps) (q ∷ qs) h =
    ap₂ ◌∷◌ (redact_peer-eq i p q h.0) (redact_peers-eq (i + 1) ps qs h.1)

-- Configurations that differ in their secrets alone, in keys, commands, bearer tokens, comments and
-- TLS files, have the same redaction.
pub redact-Agrees : (c d : Config) → Agrees c d → redact c ≡ redact d
unfolding redact
redact-Agrees c d h = ground (arith, redact_peers-eq 0 c.peers d.peers h.peers)
