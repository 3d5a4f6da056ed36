-- ===== src/Syntax/Names.antt =====
-- ui/syntax/highlighter.go: its names of settings, beside those of the parser and the writer.
use wireguard_windows.Base.{◌≡◌, refl, length}
use wireguard_windows.Base.Text.{Text}
use wireguard_windows.Conf.Keys.{InterfaceKey, PeerKey, interface_key_name, peer_key_name}
use wireguard_windows.Syntax.{is_caseless_same}
use wireguard_windows.Syntax.Fields.{
  Field, interface_section, peer_section, section_for_field, field,
}

-- The section of the setting that a whole text names.
abbrev pub section_of_name : Text → Field
section_of_name t = section_for_field (field t (record { s = 0; len = length t }))

-- The name under which the writer writes a setting of an interface is coloured as a setting of an
-- [Interface] section.
pub section_of_name-interface_key_name :
    (k : InterfaceKey) → section_of_name (interface_key_name k) ≡ interface_section
unfolding section_for_field field is_caseless_same interface_key_name
section_of_name-interface_key_name InterfaceKey.private_key = refl
section_of_name-interface_key_name _ = refl

-- The name under which the writer writes a setting of a peer is coloured as a setting of a [Peer]
-- section.
pub section_of_name-peer_key_name : (k : PeerKey) → section_of_name (peer_key_name k) ≡ peer_section
unfolding section_for_field field is_caseless_same peer_key_name
section_of_name-peer_key_name PeerKey.public_key = refl
section_of_name-peer_key_name _ = refl
