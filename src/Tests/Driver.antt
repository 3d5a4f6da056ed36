-- ===== src/Tests/Driver.antt =====
-- The theorems about the configuration of a device at a configuration with two peers.
use wireguard_windows.Base.{
  ◌++◌, any, ℕ, List, panic, ◌≢◌, [], ◌∷◌, map, ok, ◌≡◌, refl, replicate, ◌+◌, ◌^◌,
}
use wireguard_windows.Base.Text.{Text, codes, split, cut, text_eq}
use wireguard_windows.Conf.Types.{v4, v6, Peer, Config, empty_interface, empty_peer}
use wireguard_windows.Conf.Values.{Parsed}
use wireguard_windows.Base.Decimal.{parse_uint}
use wireguard_windows.Base.Hex.{hex_decode}
use wireguard_windows.Conf.Uapi.{
  from_uapi, read_uapi, exec_uapi, set_uapi_interface, set_uapi_peer, parse_key_hex,
  parse_bytes_or_stamp, add_uapi_peer, with_ws_settings, finish_uapi, sort_peers, insert_peer,
  position, position_of,
}
use wireguard_windows.Conf.Uapi.Total.{from_uapi-ne-panic}
use wireguard_windows.Tests.Sample.{sample}

abbrev laptop : Peer
laptop = record empty_peer {
  public_key = replicate 32 5;
  allowed_ips =
      record { addr = v4 0x0a000002; bits = 32 }
      ∷ record { addr = v6 (2 ^ 120 + 9) []; bits = 64 }
      ∷ [];
  endpoint = record { host = codes "f77"; port = 51820 };
  persistent_keepalive = 25;
}

abbrev phone : Peer
phone = record empty_peer {
  public_key = replicate 32 6;
  preshared_key = replicate 32 9;
  allowed_ips = record { addr = v4 0x0a000003; bits = 32 } ∷ [];
}

abbrev office : Config
office = record {
  name = codes "office";
  interface = record empty_interface { private_key = replicate 32 4; listen_port = 443 };
  peers = laptop ∷ phone ∷ [];
  ws_tls_files = [];
  trailing_comments = [];
}

-- The answer of a device in user space, with the second peer of the configuration in front.
abbrev answer : Text
answer =
    codes "fwmark=0\npublic_key=0606060606060606060606060606060606060606060606060606060606060606\n"
    ++ codes
        "tx_bytes=7\npublic_key=0505050505050505050505050505050505050505050505050505050505050505\n"
    ++ codes "errno=0\n\n"

abbrev sent_bytes : Parsed Config → List ℕ
sent_bytes (ok c) = map (λ (p : Peer). p.tx_bytes) c.peers
sent_bytes _ = []

reads_in_order : sent_bytes (from_uapi sample answer office) ≡ 0 ∷ 7 ∷ []
unfolding from_uapi read_uapi exec_uapi set_uapi_interface set_uapi_peer parse_key_hex
    parse_bytes_or_stamp add_uapi_peer with_ws_settings finish_uapi sort_peers insert_peer position
    position_of split cut text_eq any hex_decode parse_uint
reads_in_order = refl

from_uapi-ne-panic_example : from_uapi sample answer office ≢ panic
from_uapi-ne-panic_example = from_uapi-ne-panic sample answer office
