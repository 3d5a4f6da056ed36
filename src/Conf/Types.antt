-- ===== src/Conf/Types.antt =====
-- conf/config.go: the records of a configuration. A map is an association list, a nil map the
-- empty one. Addresses are those of net/netip, an address as a number of 32 or 128 bits.
use wireguard_windows.Base.{ℕ, ◌-◌, ◌*◌, ◌/◌, ◌^◌, Bool, true, false, List, [], replicate}
use wireguard_windows.Base.Text.{Text, codes, text_eq}

-- netip.Addr: `none_addr` is its zero value; an IPv6 address has a zone.
pub data Addr : Type 0 where
  none_addr : Addr
  v4 : ℕ → Addr
  v6 : ℕ → Text → Addr

pub record Prefix : Type 0 where
  pub addr : Addr
  pub bits : ℕ

unfoldable pub bit_len : Addr → ℕ
bit_len none_addr = 0
bit_len (v4 _) = 32
bit_len (v6 _ _) = 128

unfoldable pub is_6 : Addr → Bool
is_6 (v6 _ _) = true
is_6 _ = false

abbrev without_zone : Addr → Addr
without_zone (v6 a _) = v6 a []
without_zone a = a

-- netip.PrefixFrom, which drops the zone.
unfoldable pub prefix_from : Addr → ℕ → Prefix
prefix_from a n = record { addr = without_zone a; bits = n }

abbrev clear_low : ℕ → ℕ → ℕ
clear_low a n = a / 2 ^ n * 2 ^ n

abbrev mask_addr : Addr → ℕ → Addr
mask_addr (v4 a) n = v4 (clear_low a (32 - n))
mask_addr (v6 a z) n = v6 (clear_low a (128 - n)) []
mask_addr none_addr n = none_addr

-- netip.Prefix.Masked
unfoldable pub masked : Prefix → Prefix
masked p = record { addr = mask_addr p.addr p.bits; bits = p.bits }

pub record Endpoint : Type 0 where
  pub host : Text
  pub port : ℕ

abbrev pub Key : Type 0
Key = List ℕ

abbrev pub key_length : ℕ
key_length = 32

abbrev pub zero_key : Key
zero_key = replicate key_length 0

unfoldable pub is_zero : Key → Bool
is_zero k = text_eq zero_key k

pub data WsMode : Type 0 where
  ws_none websocket wstunnel : WsMode

abbrev pub ws_mode_text : WsMode → Text
ws_mode_text ws_none = []
ws_mode_text websocket = codes "websocket"
ws_mode_text wstunnel = codes "wstunnel"

abbrev pub is_ws_none : WsMode → Bool
is_ws_none ws_none = true
is_ws_none _ = false

abbrev pub is_wstunnel : WsMode → Bool
is_wstunnel wstunnel = true
is_wstunnel _ = false

pub record Comments : Type 0 where
  pub before : List Text
  pub suffix : Text

pub record SectionComments : Type 0 where
  pub header : Comments
  pub lines : List (Text × Comments)

pub record Interface : Type 0 where
  pub private_key : Key
  pub addresses : List Prefix
  pub listen_port : ℕ
  pub mtu : ℕ
  pub dns : List Addr
  pub dns_search : List Text
  pub pre_up : Text
  pub post_up : Text
  pub pre_down : Text
  pub post_down : Text
  pub table_off : Bool
  pub comments : SectionComments

pub record Peer : Type 0 where
  pub public_key : Key
  pub preshared_key : Key
  pub allowed_ips : List Prefix
  pub endpoint : Endpoint
  pub persistent_keepalive : ℕ
  pub ws_mode : WsMode
  pub ws_url : Text
  pub ws_tunnel_target : Text
  pub ws_bearer : Text
  pub ws_mask : Bool
  pub ws_tls_ca : Text
  pub ws_tls_cert : Text
  pub ws_tls_key : Text
  pub ws_tls_insecure : Bool
  pub ws_ping_interval : ℕ
  pub ws_backoff_min : ℕ
  pub ws_backoff_max : ℕ
  pub rx_bytes : ℕ
  pub tx_bytes : ℕ
  pub last_handshake_time : ℕ
  pub comments : SectionComments

pub record Config : Type 0 where
  pub name : Text
  pub interface : Interface
  pub peers : List Peer
  pub ws_tls_files : List (Text × List ℕ)
  pub trailing_comments : List Text

-- The zero values.
abbrev pub no_comments : Comments
no_comments = record { before = []; suffix = [] }

abbrev pub no_section_comments : SectionComments
no_section_comments = record { header = no_comments; lines = [] }

abbrev pub empty_endpoint : Endpoint
empty_endpoint = record { host = []; port = 0 }

abbrev pub empty_interface : Interface
empty_interface = record {
  private_key = zero_key;
  addresses = [];
  listen_port = 0;
  mtu = 0;
  dns = [];
  dns_search = [];
  pre_up = [];
  post_up = [];
  pre_down = [];
  post_down = [];
  table_off = false;
  comments = no_section_comments;
}

abbrev pub empty_peer : Peer
empty_peer = record {
  public_key = zero_key;
  preshared_key = zero_key;
  allowed_ips = [];
  endpoint = empty_endpoint;
  persistent_keepalive = 0;
  ws_mode = ws_none;
  ws_url = [];
  ws_tunnel_target = [];
  ws_bearer = [];
  ws_mask = false;
  ws_tls_ca = [];
  ws_tls_cert = [];
  ws_tls_key = [];
  ws_tls_insecure = false;
  ws_ping_interval = 0;
  ws_backoff_min = 0;
  ws_backoff_max = 0;
  rx_bytes = 0;
  tx_bytes = 0;
  last_handshake_time = 0;
  comments = no_section_comments;
}
