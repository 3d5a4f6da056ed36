-- ===== src/Tests/Syntax.antt =====
-- The highlighter at concrete texts.
use wireguard_windows.Conf.Values.{parse_mtu, parse_port, parse_persistent_keepalive}
use wireguard_windows.Conf.Keys.{InterfaceKey, PeerKey, interface_key_name, peer_key_name}
use wireguard_windows.Syntax.Names.{
  section_of_name, section_of_name-interface_key_name, section_of_name-peer_key_name,
}
use wireguard_windows.Syntax.Numbers.{
  text_of, is_valid_mtu-parse_mtu, is_valid_port-parse_port,
  is_valid_persistent_keep_alive-parse_persistent_keepalive,
}
use wireguard_windows.Base.{ℕ, arith, true, ◌≡◌, refl, ok, length, [], ◌∷◌}
use wireguard_windows.Base.Text.{Text, codes}
use wireguard_windows.Syntax.{StringSpan, same_at, is_same, is_valid_hostname, is_caseless_same}
use wireguard_windows.Syntax.Accept.{
  is_valid_port, is_valid_persistent_keep_alive, is_valid_mtu, is_valid_uint, decimal_loop,
}
use wireguard_windows.Syntax.Fields.{
  interface_section, peer_section, field, section_type, section_for_field, same_section,
}
use wireguard_windows.Syntax.Highlight.{
  Spans, append, highlight_value, section_name, field_name, delimiter, mtu_number, comment,
}
use wireguard_windows.Syntax.Scan.{
  highlight_config, scan_loop, scan_byte, flush, start_line, longer, on_blank, on_equals, on_other,
  is_comment, is_key,
}
use wireguard_windows.Syntax.Order.{Within}
use wireguard_windows.Syntax.Order.Lines.{highlight_config-Within}

abbrev editor_text : Text
editor_text = codes "[Interface]\nMTU = 1420 #x"

highlighted :
    highlight_config editor_text
    ≡ ok (
        record { t = section_name; s = 0; len = 11 }
        ∷ record { t = field_name; s = 12; len = 3 }
        ∷ record { t = delimiter; s = 16; len = 1 }
        ∷ record { t = mtu_number; s = 18; len = 4 }
        ∷ record { t = comment; s = 23; len = 2 }
        ∷ [])
unfolding highlight_config scan_loop scan_byte flush start_line longer on_blank on_equals on_other
    is_comment is_key append highlight_value is_valid_mtu is_valid_uint decimal_loop field
    section_type section_for_field same_section is_caseless_same
highlighted = refl

highlight_config-Within_example :
    (spans : Spans) × (highlight_config editor_text ≡ ok spans)
    × Within 0 spans (length editor_text)
highlight_config-Within_example = highlight_config-Within editor_text

-- Two dots in a row are accepted: the loop goes on at a dot before it looks at the byte in front.
two_dots : is_valid_hostname (codes "a..b") (record { s = 0; len = 4 }) ≡ true
unfolding is_valid_hostname
two_dots = refl

-- The value of the MTU in the text, and a keepalive that is off.
abbrev mtu_span : StringSpan
mtu_span = record { s = 18; len = 4 }

abbrev off_span : StringSpan
off_span = record { s = 1; len = 3 }

accepted :
    (is_valid_mtu editor_text mtu_span ≡ true)
    × (is_valid_port editor_text mtu_span ≡ true)
    × (is_valid_persistent_keep_alive (codes "=off") off_span ≡ true)
unfolding is_valid_mtu is_valid_port is_valid_persistent_keep_alive is_valid_uint decimal_loop
    is_same same_at
accepted = (refl, refl, refl)

is_valid_mtu-parse_mtu_example : (n : ℕ) × (parse_mtu (text_of editor_text mtu_span) ≡ ok n)
is_valid_mtu-parse_mtu_example =
    is_valid_mtu-parse_mtu editor_text mtu_span (omega arith) accepted.0

is_valid_port-parse_port_example : (n : ℕ) × (parse_port (text_of editor_text mtu_span) ≡ ok n)
is_valid_port-parse_port_example =
    is_valid_port-parse_port editor_text mtu_span (omega arith) accepted.1

is_valid_persistent_keep_alive-parse_persistent_keepalive_example :
    (n : ℕ) × (parse_persistent_keepalive (text_of (codes "=off") off_span) ≡ ok n)
is_valid_persistent_keep_alive-parse_persistent_keepalive_example =
    is_valid_persistent_keep_alive-parse_persistent_keepalive (codes "=off") off_span (omega arith)
      accepted.2

section_of_name-interface_key_name_example :
    section_of_name (interface_key_name InterfaceKey.listen_port) ≡ interface_section
section_of_name-interface_key_name_example =
    section_of_name-interface_key_name InterfaceKey.listen_port

section_of_name-peer_key_name_example :
    section_of_name (peer_key_name PeerKey.ws_tls_ca) ≡ peer_section
section_of_name-peer_key_name_example = section_of_name-peer_key_name PeerKey.ws_tls_ca
