-- ===== src/Conf/Uapi.antt =====
-- conf/uapi.go: the text of a configuration for the device in user space, and the text that it
-- answers with. A text that ends within a line is the end of the file.
pub mod Total
use wireguard_windows.Base.{
  ℕ, suc, ◌+◌, ◌*◌, ◌%◌, ◌^◌, Bool, true, false, not, List, [], ◌∷◌, ◌++◌, Option, none, some,
  if◌then◌else◌, ltb, ◌==◌, any, length, Result, ok, err, panic, ◌>>=◌,
}
use wireguard_windows.Base.Text.{Text, codes, is_empty, text_eq, cut, split}
use wireguard_windows.Base.Decimal.{decimal, parse_uint}
use wireguard_windows.Base.Hex.{hex_encode, hex_decode}
use wireguard_windows.Conf.Types.{
  Key, zero_key, key_length, is_zero, is_ws_none, ws_mode_text, Prefix, Interface, Peer, Config,
  empty_peer, no_section_comments,
}
use wireguard_windows.Conf.Values.{
  Std, Parsed, fail, invalid_key, wrong_key_length, missing_equals, invalid_interface_key,
  invalid_peer_key, getting_failed, wrong_protocol_version, not_64_bits, end_of_file,
  endpoint_string, endpoint_is_empty, parse_port, parse_ip_cidr, parse_persistent_keepalive,
  parse_endpoint,
}
use wireguard_windows.Conf.Config.{prefix_string}

-- A line with a key and a value.
unfoldable pub pair_line : Text → Text → Text
pair_line key value = key ++ (b'=' ∷ value) ++ 10 ∷ []

abbrev pub line_if : Bool → Text → Text → Text
line_if b key value = if b then pair_line key value else []

-- `writeWSUAPI`
unfoldable pub write_ws_uapi : Peer → Text
write_ws_uapi p =
    line_if (not (is_empty p.ws_url)) (codes "ws_url") p.ws_url
    ++ line_if (not (is_empty p.ws_tunnel_target)) (codes "wstunnel_target") p.ws_tunnel_target
    ++ line_if (not (is_empty p.ws_bearer)) (codes "ws_bearer") p.ws_bearer
    ++ line_if p.ws_mask (codes "ws_mask") (codes "true")
    ++ line_if (not (is_empty p.ws_tls_ca)) (codes "ws_tls_ca") p.ws_tls_ca
    ++ line_if (not (is_empty p.ws_tls_cert)) (codes "ws_tls_cert") p.ws_tls_cert
    ++ line_if (not (is_empty p.ws_tls_key)) (codes "ws_tls_key") p.ws_tls_key
    ++ line_if p.ws_tls_insecure (codes "ws_tls_insecure") (codes "true")
    ++ line_if (ltb 0 p.ws_ping_interval) (codes "ws_ping_interval") (decimal p.ws_ping_interval)
    ++ line_if (ltb 0 p.ws_backoff_min) (codes "ws_backoff_min") (decimal p.ws_backoff_min)
    ++ line_if (ltb 0 p.ws_backoff_max) (codes "ws_backoff_max") (decimal p.ws_backoff_max)

unfoldable pub allowed_ip_lines : Std → List Prefix → Text
allowed_ip_lines std [] = []
allowed_ip_lines std (a ∷ ips) =
    pair_line (codes "allowed_ip") (prefix_string std a) ++ allowed_ip_lines std ips

unfoldable pub peer_lines : Std → Peer → Text
peer_lines std p =
    pair_line (codes "public_key") (hex_encode p.public_key)
    ++ pair_line (codes "transport")
        (if is_ws_none p.ws_mode then codes "udp" else ws_mode_text p.ws_mode)
    ++ line_if (not (is_zero p.preshared_key)) (codes "preshared_key") (hex_encode p.preshared_key)
    ++ line_if (not (endpoint_is_empty p.endpoint)) (codes "endpoint") (endpoint_string p.endpoint)
    ++ (if is_ws_none p.ws_mode then [] else write_ws_uapi p)
    ++ pair_line (codes "persistent_keepalive_interval") (decimal p.persistent_keepalive)
    ++ pair_line (codes "replace_allowed_ips") (codes "true")
    ++ allowed_ip_lines std p.allowed_ips

unfoldable pub peers_lines : Std → List Peer → Text
peers_lines std [] = []
peers_lines std (p ∷ ps) = peer_lines std p ++ peers_lines std ps

-- `ToUAPI`
unfoldable pub to_uapi : Std → Config → Text
to_uapi std c =
    pair_line (codes "private_key") (hex_encode c.interface.private_key)
    ++ line_if (ltb 0 c.interface.listen_port) (codes "listen_port")
        (decimal c.interface.listen_port)
    ++ pair_line (codes "replace_peers") (codes "true")
    ++ peers_lines std c.peers

unfoldable pub parse_key_hex : Text → Parsed Key
parse_key_hex s = elim (hex_decode s) [
  | none ↦ fail invalid_key s
  | some k ↦ if length k == key_length then ok k else fail wrong_key_length s
]

unfoldable pub parse_bytes_or_stamp : Text → Parsed ℕ
parse_bytes_or_stamp s = elim (parse_uint 64 s) [ none ↦ fail not_64_bits s | some n ↦ ok n ]

-- The variables of `FromUAPI`.
pub record Reading : Type 0 where
  pub private_key : Key
  pub listen_port : ℕ
  pub peers : List Peer
  pub peer : Option Peer
  pub in_peer : Bool

unfoldable pub with_ws_settings : List Peer → Peer → Peer
with_ws_settings [] p = p
with_ws_settings (e ∷ existing) p =
    let rest = with_ws_settings existing p in
    if not (text_eq e.public_key p.public_key) then rest else record p {
      ws_mode = e.ws_mode;
      ws_url = e.ws_url;
      ws_tunnel_target = e.ws_tunnel_target;
      ws_bearer = e.ws_bearer;
      ws_mask = e.ws_mask;
      ws_tls_ca = e.ws_tls_ca;
      ws_tls_cert = e.ws_tls_cert;
      ws_tls_key = e.ws_tls_key;
      ws_tls_insecure = e.ws_tls_insecure;
      ws_ping_interval = e.ws_ping_interval;
      ws_backoff_min = e.ws_backoff_min;
      ws_backoff_max = e.ws_backoff_max;
    }

-- `addPeer`
abbrev pub added_of : List Peer → Reading → Option Peer → Reading
added_of existing r none = r
added_of existing r (some p) = record r {
  peers = r.peers ++ with_ws_settings existing p ∷ [];
  peer = none;
}

unfoldable pub add_uapi_peer : List Peer → Reading → Reading
add_uapi_peer existing r = added_of existing r r.peer

abbrev pub one_of : Text → List Text → Bool
one_of key keys = any (text_eq key) keys

abbrev pub ignored_interface_keys : List Text
ignored_interface_keys =
    codes "fwmark"
    ∷ codes "ws_listen"
    ∷ codes "ws_server_tls_cert"
    ∷ codes "ws_server_tls_key"
    ∷ codes "ws_server_bearer"
    ∷ codes "ws_trusted_proxies"
    ∷ []

abbrev pub ignored_peer_keys : List Text
ignored_peer_keys =
    codes "transport"
    ∷ codes "ws_url"
    ∷ codes "wstunnel_target"
    ∷ codes "ws_bearer"
    ∷ codes "ws_mask"
    ∷ codes "ws_tls_ca"
    ∷ codes "ws_tls_cert"
    ∷ codes "ws_tls_key"
    ∷ codes "ws_tls_insecure"
    ∷ codes "ws_ping_interval"
    ∷ codes "ws_backoff_min"
    ∷ codes "ws_backoff_max"
    ∷ []

unfoldable pub set_uapi_interface : Text → Text → Reading → Parsed Reading
set_uapi_interface key val r =
    if text_eq key (codes "private_key")
    then (parse_key_hex val >>= λ k. ok (record r { private_key = k }))
    else if text_eq key (codes "listen_port")
    then (parse_port val >>= λ p. ok (record r { listen_port = p }))
    else if one_of key ignored_interface_keys
    then ok r
    else fail invalid_interface_key key

-- A sum of nanoseconds in 64 bits.
abbrev pub plus_time : ℕ → ℕ → ℕ
plus_time t n = (t + n) % 2 ^ 64

unfoldable pub set_uapi_peer : Std → Text → Text → Peer → Parsed Peer
set_uapi_peer std key val p =
    if text_eq key (codes "public_key")
    then (parse_key_hex val >>= λ k. ok (record p { public_key = k }))
    else if text_eq key (codes "preshared_key")
    then (parse_key_hex val >>= λ k. ok (record p { preshared_key = k }))
    else if text_eq key (codes "protocol_version")
    then (if text_eq val (codes "1") then ok p else fail wrong_protocol_version val)
    else if text_eq key (codes "allowed_ip")
    then (parse_ip_cidr std val >>= λ a. ok (record p { allowed_ips = p.allowed_ips ++ a ∷ [] }))
    else if text_eq key (codes "persistent_keepalive_interval")
    then (parse_persistent_keepalive val >>= λ k. ok (record p { persistent_keepalive = k }))
    else if text_eq key (codes "endpoint")
    then (parse_endpoint std val >>= λ e. ok (record p { endpoint = e }))
    else if text_eq key (codes "tx_bytes")
    then (parse_bytes_or_stamp val >>= λ b. ok (record p { tx_bytes = b }))
    else if text_eq key (codes "rx_bytes")
    then (parse_bytes_or_stamp val >>= λ b. ok (record p { rx_bytes = b }))
    else if text_eq key (codes "last_handshake_time_sec")
    then (parse_bytes_or_stamp val >>= λ t.
        ok (record p { last_handshake_time = plus_time p.last_handshake_time (t * 1000000000) }))
    else if text_eq key (codes "last_handshake_time_nsec")
    then (parse_bytes_or_stamp val >>= λ t.
        ok (record p { last_handshake_time = plus_time p.last_handshake_time t }))
    else if one_of key ignored_peer_keys
    then ok p
    else fail invalid_peer_key key

-- A setting of the current peer; without one, a nil pointer is followed.
abbrev pub on_peer : Std → Text → Text → Reading → Option Peer → Parsed Reading
on_peer std key val r none = panic
on_peer std key val r (some p) =
    set_uapi_peer std key val p >>= λ q. ok (record r { peer = some q })

abbrev pub open_if : Bool → List Peer → Reading → Reading
open_if false existing r = r
open_if true existing r = record (add_uapi_peer existing r) {
  peer = some empty_peer;
  in_peer = true;
}

-- One round of the loop, on a line that is not empty.
unfoldable pub exec_uapi : Std → List Peer → Text → Reading → Parsed Reading
exec_uapi std existing line r = elim (cut b'=' line).1 [
  | none ↦ fail missing_equals line
  | some val ↦
      let key = (cut b'=' line).0 in
      let s = open_if (text_eq key (codes "public_key")) existing r in
      if text_eq key (codes "errno")
      then (if text_eq val (codes "0") then ok r else fail getting_failed val)
      else if s.in_peer
      then on_peer std key val s s.peer
      else set_uapi_interface key val s
]

-- The loop over what stands between line feeds; what follows the last one is no line.
unfoldable pub read_uapi : Std → List Peer → List Text → Reading → Parsed Reading
read_uapi std existing [] r = err end_of_file
read_uapi std existing (unfinished ∷ []) r = err end_of_file
read_uapi std existing (line ∷ next ∷ lines) r =
    if is_empty line
    then ok r
    else exec_uapi std existing line r >>= λ s. read_uapi std existing (next ∷ lines) s

-- The position of the last peer with this key, or the number of peers.
unfoldable pub position_of : Key → List Peer → ℕ → Option ℕ → Option ℕ
position_of key [] i found = found
position_of key (e ∷ existing) i found =
    position_of key existing (i + 1) (if text_eq e.public_key key then some i else found)

abbrev pub or_last : ℕ → Option ℕ → ℕ
or_last n none = n
or_last n (some i) = i

unfoldable pub position : List Peer → Peer → ℕ
position existing p = or_last (length existing) (position_of p.public_key existing 0 none)

-- sort.SliceStable by the position: a peer goes behind those that it does not precede.
unfoldable pub insert_peer : List Peer → Peer → List Peer → List Peer
insert_peer existing p [] = p ∷ []
insert_peer existing p (q ∷ sorted) =
    let rest = insert_peer existing p sorted in
    if ltb (position existing p) (position existing q) then p ∷ q ∷ sorted else q ∷ rest

unfoldable pub sort_peers : List Peer → List Peer → List Peer → List Peer
sort_peers existing [] sorted = sorted
sort_peers existing (p ∷ ps) sorted = sort_peers existing ps (insert_peer existing p sorted)

abbrev pub no_reading : Reading
no_reading = record {
  private_key = zero_key;
  listen_port = 0;
  peers = [];
  peer = none;
  in_peer = false;
}

unfoldable pub finish_uapi : Config → Reading → Config
finish_uapi existing r =
    let i = existing.interface in
    let read = add_uapi_peer existing.peers r in
    record {
      name = existing.name;
      interface = record i {
        private_key = read.private_key;
        listen_port = read.listen_port;
        comments = no_section_comments;
      };
      peers = sort_peers existing.peers read.peers [];
      ws_tls_files = [];
      trailing_comments = [];
    }

-- `FromUAPI`
unfoldable pub from_uapi : Std → Text → Config → Parsed Config
from_uapi std input existing =
    read_uapi std existing.peers (split 10 input) no_reading >>= λ r. ok (finish_uapi existing r)
