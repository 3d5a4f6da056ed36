-- ===== src/Conf/Keys.antt =====
-- The keys of the two sections of a wg-quick file: the labels of the two `switch key` of
-- `FromWgQuick` in conf/parser.go, and the names by which conf/writer.go writes them.
use wireguard_windows.Base.{Bool, Option, none, some, if◌then◌else◌, ◌||◌, ◌≡◌, refl}
use wireguard_windows.Base.Text.{Text, codes, text_eq, to_lower, lower}

pub data InterfaceKey : Type 0 where
  private_key listen_port mtu address dns : InterfaceKey
  pre_up post_up pre_down post_down table : InterfaceKey

pub data PeerKey : Type 0 where
  public_key preshared_key allowed_ips persistent_keepalive endpoint : PeerKey
  ws_mode ws_tunnel_target ws_bearer ws_mask : PeerKey
  ws_tls_ca ws_tls_cert ws_tls_key ws_tls_insecure : PeerKey
  ws_ping_interval ws_backoff_min ws_backoff_max : PeerKey

unfoldable pub interface_key : Text → Option InterfaceKey
unfolding text_eq
interface_key s =
    if text_eq s (codes "privatekey")
    then some private_key
    else if text_eq s (codes "listenport")
    then some listen_port
    else if text_eq s (codes "mtu")
    then some mtu
    else if text_eq s (codes "address")
    then some address
    else if text_eq s (codes "dns")
    then some dns
    else if text_eq s (codes "preup")
    then some pre_up
    else if text_eq s (codes "postup")
    then some post_up
    else if text_eq s (codes "predown")
    then some pre_down
    else if text_eq s (codes "postdown")
    then some post_down
    else if text_eq s (codes "table")
    then some table
    else none

unfoldable pub peer_key : Text → Option PeerKey
unfolding text_eq
peer_key s =
    if text_eq s (codes "publickey")
    then some public_key
    else if text_eq s (codes "presharedkey")
    then some preshared_key
    else if text_eq s (codes "allowedips")
    then some allowed_ips
    else if text_eq s (codes "persistentkeepalive")
    then some persistent_keepalive
    else if text_eq s (codes "endpoint")
    then some endpoint
    else if text_eq s (codes "wsmode")
    then some ws_mode
    else if text_eq s (codes "wstunneltarget")
    then some ws_tunnel_target
    else if text_eq s (codes "wsbearer")
    then some ws_bearer
    else if text_eq s (codes "wsmask")
    then some ws_mask
    else if text_eq s (codes "wstlsca")
    then some ws_tls_ca
    else if text_eq s (codes "wstlscert")
    then some ws_tls_cert
    else if text_eq s (codes "wstlskey")
    then some ws_tls_key
    else if text_eq s (codes "wstlsinsecure")
    then some ws_tls_insecure
    else if text_eq s (codes "wspinginterval")
    then some ws_ping_interval
    else if text_eq s (codes "wsbackoffmin")
    then some ws_backoff_min
    else if text_eq s (codes "wsbackoffmax")
    then some ws_backoff_max
    else none

-- The commands, whose value is the whole rest of the line, '#' included.
unfoldable pub is_hook : Text → Bool
unfolding text_eq
is_hook s =
    text_eq s (codes "preup")
    || text_eq s (codes "postup")
    || text_eq s (codes "predown")
    || text_eq s (codes "postdown")

unfoldable pub interface_key_name : InterfaceKey → Text
interface_key_name private_key = codes "PrivateKey"
interface_key_name listen_port = codes "ListenPort"
interface_key_name mtu = codes "MTU"
interface_key_name address = codes "Address"
interface_key_name dns = codes "DNS"
interface_key_name pre_up = codes "PreUp"
interface_key_name post_up = codes "PostUp"
interface_key_name pre_down = codes "PreDown"
interface_key_name post_down = codes "PostDown"
interface_key_name table = codes "Table"

unfoldable pub peer_key_name : PeerKey → Text
peer_key_name public_key = codes "PublicKey"
peer_key_name preshared_key = codes "PresharedKey"
peer_key_name allowed_ips = codes "AllowedIPs"
peer_key_name persistent_keepalive = codes "PersistentKeepalive"
peer_key_name endpoint = codes "Endpoint"
peer_key_name ws_mode = codes "WSMode"
peer_key_name ws_tunnel_target = codes "WSTunnelTarget"
peer_key_name ws_bearer = codes "WSBearer"
peer_key_name ws_mask = codes "WSMask"
peer_key_name ws_tls_ca = codes "WSTLSCA"
peer_key_name ws_tls_cert = codes "WSTLSCert"
peer_key_name ws_tls_key = codes "WSTLSKey"
peer_key_name ws_tls_insecure = codes "WSTLSInsecure"
peer_key_name ws_ping_interval = codes "WSPingInterval"
peer_key_name ws_backoff_min = codes "WSBackoffMin"
peer_key_name ws_backoff_max = codes "WSBackoffMax"

-- The name that the writer writes is read as the key it was written for.
pub interface_key-interface_key_name :
    (k : InterfaceKey) → interface_key (to_lower (interface_key_name k)) ≡ some k
unfolding interface_key interface_key_name lower
interface_key-interface_key_name = elim [
  | private_key ↦ refl
  | listen_port ↦ refl
  | mtu ↦ refl
  | address ↦ refl
  | dns ↦ refl
  | pre_up ↦ refl
  | post_up ↦ refl
  | pre_down ↦ refl
  | post_down ↦ refl
  | table ↦ refl
]

-- The name under which the writer writes a setting of a peer is read, in lower case, as the key
-- that it was written for.
pub peer_key-peer_key_name : (k : PeerKey) → peer_key (to_lower (peer_key_name k)) ≡ some k
unfolding peer_key peer_key_name lower
peer_key-peer_key_name public_key = refl
peer_key-peer_key_name _ = refl
