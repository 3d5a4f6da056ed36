-- ===== src/Syntax/Fields.antt =====
-- ui/syntax/highlighter.go: which setting or section a span names.
use wireguard_windows.Base.{Bool, true, false, List, [], ◌∷◌, if◌then◌else◌}
use wireguard_windows.Base.Text.{Text, codes}
use wireguard_windows.Syntax.{StringSpan, is_caseless_same}

-- `field`
pub data Field : Type 0 where
  interface_section peer_section invalid : Field
  private_key listen_port address dns mtu table : Field
  pre_up post_up pre_down post_down : Field
  public_key preshared_key allowed_ips endpoint persistent_keepalive : Field
  ws_mode ws_tunnel_target ws_bearer ws_mask ws_tls_ca ws_tls_cert ws_tls_key ws_tls_insecure :
      Field
  ws_ping_interval ws_backoff_min ws_backoff_max : Field

unfoldable pub section_for_field : Field → Field
section_for_field interface_section = invalid
section_for_field peer_section = invalid
section_for_field invalid = invalid
section_for_field private_key = interface_section
section_for_field listen_port = interface_section
section_for_field address = interface_section
section_for_field dns = interface_section
section_for_field mtu = interface_section
section_for_field table = interface_section
section_for_field pre_up = interface_section
section_for_field post_up = interface_section
section_for_field pre_down = interface_section
section_for_field post_down = interface_section
section_for_field _ = peer_section

-- The sections are the same.
unfoldable pub same_section : Field → Field → Bool
same_section interface_section interface_section = true
same_section peer_section peer_section = true
same_section invalid invalid = true
same_section _ _ = false

module _ (b : Text) (s : StringSpan) where
  -- The first name of a list that the span is.
  first_named : List (Text × Field) → Field
  first_named [] = invalid
  first_named ((name, f) ∷ rest) =
      let later = first_named rest in if is_caseless_same b s name then f else later

  unfoldable pub field : Field
  unfolding first_named
  field = first_named (
      (codes "PrivateKey", private_key)
      ∷ (codes "ListenPort", listen_port)
      ∷ (codes "Address", address)
      ∷ (codes "DNS", dns)
      ∷ (codes "MTU", mtu)
      ∷ (codes "Table", table)
      ∷ (codes "PublicKey", public_key)
      ∷ (codes "PresharedKey", preshared_key)
      ∷ (codes "AllowedIPs", allowed_ips)
      ∷ (codes "Endpoint", endpoint)
      ∷ (codes "PersistentKeepalive", persistent_keepalive)
      ∷ (codes "PreUp", pre_up)
      ∷ (codes "PostUp", post_up)
      ∷ (codes "PreDown", pre_down)
      ∷ (codes "PostDown", post_down)
      ∷ (codes "WSMode", ws_mode)
      ∷ (codes "WSTunnelTarget", ws_tunnel_target)
      ∷ (codes "WSBearer", ws_bearer)
      ∷ (codes "WSMask", ws_mask)
      ∷ (codes "WSTLSCA", ws_tls_ca)
      ∷ (codes "WSTLSCert", ws_tls_cert)
      ∷ (codes "WSTLSKey", ws_tls_key)
      ∷ (codes "WSTLSInsecure", ws_tls_insecure)
      ∷ (codes "WSPingInterval", ws_ping_interval)
      ∷ (codes "WSBackoffMin", ws_backoff_min)
      ∷ (codes "WSBackoffMax", ws_backoff_max)
      ∷ [])

  unfoldable pub section_type : Field
  unfolding first_named
  section_type =
      first_named ((codes "[Peer]", peer_section) ∷ (codes "[Interface]", interface_section) ∷ [])
