-- ===== src/Tests/Conf.antt =====
-- The theorems about conf/ at inputs that meet their hypotheses.
use wireguard_windows.Base.{
  true, false, List, [], ◌∷◌, some, ok, panic, ◌≡◌, ◌≢◌, refl, map, All, arith,
}
use wireguard_windows.Base.Text.{
  Text, codes, text_eq, lower, trim_space, is_blank, is_space, cut, split, cut_last, index_byte,
  last_index_byte, join, trim_right,
}
use wireguard_windows.Base.Text.Cuts.{Lacks}
use wireguard_windows.Base.Decimal.{atoi}
use wireguard_windows.Conf.Types.{Config, Endpoint, is_6, zero_key, is_zero, empty_interface}
use wireguard_windows.Conf.Values.{
  Parsed, parse_key_base64, parse_port, parse_mtu, parse_endpoint, strip_brackets, slice_of,
  endpoint_string, split_list,
}
use wireguard_windows.Conf.Values.Endpoints.{parse_endpoint-endpoint_string}
use wireguard_windows.Conf.Values.Items.{IsItem, split_list-join-split_list}
use wireguard_windows.Conf.Keys.{
  PeerKey, interface_key, peer_key, is_hook, peer_key_name, peer_key-peer_key_name,
}
use wireguard_windows.Conf.Settings.{set_interface, set_peer, validate_web_socket_peer}
use wireguard_windows.Conf.Comment.{attach, prune_section_comments, prune_comments}
use wireguard_windows.Conf.Name.{
  is_reserved, has_special_chars, allowed_name_format, tunnel_name_is_valid, service_name_of_tunnel,
  tokens, cmp, tunnel_name_is_less,
}
use wireguard_windows.Conf.Name.Valid.{follows_name_rules, tunnel_name_is_valid-eq}
use wireguard_windows.Conf.Name.Sorting.{tunnel_name_is_less_trans}
use wireguard_windows.Conf.Parser.{read_line, exec, finish, from_wg_quick}
use wireguard_windows.Conf.Parser.Sound.{ConfigIsSound, from_wg_quick-ConfigIsSound}
use wireguard_windows.Conf.Parser.Total.{from_wg_quick-ne-panic}
use wireguard_windows.Conf.Config.{intersects_with, dedup, redact}
use wireguard_windows.Conf.Config.Routes.{intersects_with_comm}
use wireguard_windows.Conf.Config.Distinct.{distinct, dedup-distinct}
use wireguard_windows.Conf.Config.Secrets.{redact-Agrees}
use wireguard_windows.Tests.Sample.{sample}

abbrev wg0 : Text
wg0 = codes "wg0"

abbrev file : Text
file = codes "[Interface]\nPrivateKey = abc\nListenPort=51820 # port\n[Peer]\npublickey = xyz"

-- The configuration that a parse returned, or an empty one.
abbrev config_or : Config → Parsed Config → Config
config_or d (ok c) = c
config_or d _ = d

abbrev empty_config : Config
empty_config = record {
  name = [];
  interface = empty_interface;
  peers = [];
  ws_tls_files = [];
  trailing_comments = [];
}

parsed : Config
unfolding from_wg_quick
parsed = config_or empty_config (from_wg_quick sample file wg0)

file-parsed : from_wg_quick sample file wg0 ≡ ok parsed
unfolding parsed from_wg_quick exec read_line tunnel_name_is_valid is_reserved has_special_chars
    allowed_name_format text_eq lower trim_space trim_right is_blank cut split interface_key
    peer_key is_hook set_interface set_peer parse_key_base64 parse_port parse_mtu atoi sample attach
    validate_web_socket_peer finish prune_section_comments prune_comments is_zero
file-parsed = refl

from_wg_quick-ConfigIsSound_example : ConfigIsSound parsed
from_wg_quick-ConfigIsSound_example = from_wg_quick-ConfigIsSound sample file wg0 file-parsed

from_wg_quick-ne-panic_example : from_wg_quick sample file wg0 ≢ panic
from_wg_quick-ne-panic_example = from_wg_quick-ne-panic sample file wg0

-- An IPv6 endpoint in its brackets.
abbrev v6_endpoint : Endpoint
v6_endpoint = record { host = codes ":12"; port = 80 }

read_v6 : parse_endpoint sample (codes "[:12]:0080") ≡ ok v6_endpoint
unfolding parse_endpoint cut_last parse_port atoi strip_brackets slice_of index_byte last_index_byte
    sample is_6
read_v6 = refl

parse_endpoint-endpoint_string_example :
    parse_endpoint sample (endpoint_string v6_endpoint) ≡ ok v6_endpoint
parse_endpoint-endpoint_string_example =
    parse_endpoint-endpoint_string sample (codes "[:12]:0080") read_v6

abbrev two_items : List Text
two_items = codes "f1/8" ∷ codes "f2" ∷ []

read_items : split_list (codes "f1/8,\tf2 ") ≡ ok two_items
unfolding split_list split trim_space
read_items = refl

split_list-join-split_list_example :
    All IsItem two_items
    × All (Lacks b',') two_items
    × (split_list (join (codes ", ") two_items) ≡ ok two_items)
split_list-join-split_list_example = split_list-join-split_list (codes "f1/8,\tf2 ") read_items

peer_key-peer_key_name_example :
    peer_key (map lower (peer_key_name PeerKey.ws_tls_ca)) ≡ some PeerKey.ws_tls_ca
peer_key-peer_key_name_example = peer_key-peer_key_name PeerKey.ws_tls_ca

tunnel_name_is_valid-eq_example :
    tunnel_name_is_valid (codes "con.x") ≡ follows_name_rules (codes "con.x")
tunnel_name_is_valid-eq_example = tunnel_name_is_valid-eq (codes "con.x")

service_of_wg0 : service_name_of_tunnel wg0 ≡ some (codes "WireGuardWSTunnel$wg0")
unfolding service_name_of_tunnel tunnel_name_is_valid is_reserved has_special_chars
    allowed_name_format cut text_eq lower
service_of_wg0 = refl

-- Numbers are compared as numbers, and names without regard to case.
sorted_names :
    (tunnel_name_is_less (codes "wg2") (codes "WG10") ≡ true)
    × (tunnel_name_is_less (codes "WG10") (codes "wg10-b") ≡ true)
unfolding tunnel_name_is_less tokens cmp text_eq lower join atoi is_space
sorted_names = (refl, refl)

tunnel_name_is_less_trans_example :
    (tunnel_name_is_less (codes "wg2") (codes "wg10-b") ≡ true)
    × (tunnel_name_is_less (codes "wg10-b") (codes "wg2") ≡ false)
tunnel_name_is_less_trans_example =
    tunnel_name_is_less_trans (codes "wg2") (codes "WG10") (codes "wg10-b") sorted_names.0
      sorted_names.1

intersects_with_comm_example :
    intersects_with parsed empty_config ≡ intersects_with empty_config parsed
intersects_with_comm_example = intersects_with_comm parsed empty_config

abbrev identity : Text → Text
identity s = s

dedup-distinct_example :
    dedup identity (codes "a" ∷ codes "b" ∷ codes "a" ∷ [])
    ≡ distinct identity [] (codes "a" ∷ codes "b" ∷ codes "a" ∷ [])
dedup-distinct_example = dedup-distinct identity (codes "a" ∷ codes "b" ∷ codes "a" ∷ [])

-- The empty configuration with a private key and a command.
abbrev secret_config : Config
secret_config =
    let i = empty_interface in
    record empty_config { interface = record i { private_key = 1 ∷ zero_key; pre_up = codes "x" } }

redact-Agrees_example : redact secret_config ≡ redact empty_config
redact-Agrees_example = redact-Agrees secret_config empty_config (ground arith)
