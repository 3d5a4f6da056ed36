-- ===== src/Conf/Driver/Layout.antt =====
-- The buffer that `ToDriverConfiguration` fills, as the list of its records, and its size.
use wireguard_windows.Base.{
  ◌+◌, ◌*◌, ◌%◌, ◌^◌, List, [], ◌∷◌, ◌++◌, some, length, ◌≡◌, refl, arith, sym, ap, ◌∙◌, append-nil,
  append_assoc,
}
use wireguard_windows.Conf.Types.{Prefix, Peer, Config}
use wireguard_windows.Conf.Values.{Std}
use wireguard_windows.Conf.Driver.{
  allowed_ip, driver_peer, append_allowed_ips, append_peers, preallocation, to_driver_configuration,
}
use wireguard_windows.Driver.{
  DriverInterface, interface_has_private_key, interface_has_listen_port, Item, interface_item,
  peer_item, allowed_ip_item, append_item, preallocate, build, byte_length,
}

abbrev pub allowed_ip_items : List Prefix → List Item
allowed_ip_items [] = []
allowed_ip_items (a ∷ ips) = allowed_ip_item (allowed_ip a) ∷ allowed_ip_items ips

byte_length-append : (xs ys : List Item) → byte_length (xs ++ ys) ≡ byte_length xs + byte_length ys
unfolding byte_length
byte_length-append [] ys = omega arith
byte_length-append (x ∷ xs) ys = omega (arith, byte_length-append xs ys)

byte_length-allowed_ip_items :
    (ips : List Prefix) → byte_length (allowed_ip_items ips) ≡ 24 * length ips
unfolding byte_length
byte_length-allowed_ip_items [] = refl
byte_length-allowed_ip_items (a ∷ ips) = omega (arith, byte_length-allowed_ip_items ips)

append_allowed_ips-some :
    (ips : List Prefix) (items : List Item)
    → append_allowed_ips ips (some items) ≡ some (items ++ allowed_ip_items ips)
unfolding append_allowed_ips append_item
append_allowed_ips-some [] items = ap some (sym (append-nil items))
append_allowed_ips-some (a ∷ ips) items =
    append_allowed_ips-some ips _ ∙ ap some (append_assoc items _ (allowed_ip_items ips))

module _ (std : Std) where
  abbrev pub peer_items : List Peer → List Item
  peer_items [] = []
  peer_items (p ∷ ps) =
      peer_item (driver_peer std p) ∷ (allowed_ip_items p.allowed_ips ++ peer_items ps)

  byte_length-peer_items : (ps : List Peer) → byte_length (peer_items ps) ≡ preallocation ps
  unfolding byte_length preallocation
  byte_length-peer_items [] = refl
  byte_length-peer_items (p ∷ ps) = omega (
    arith,
    byte_length-append (allowed_ip_items p.allowed_ips) (peer_items ps),
    byte_length-allowed_ip_items p.allowed_ips,
    byte_length-peer_items ps,
  )

  append_peers-some :
      (ps : List Peer) (items : List Item)
      → append_peers std ps (some items) ≡ some (items ++ peer_items ps)
  unfolding append_peers append_item
  append_peers-some [] items = ap some (sym (append-nil items))
  append_peers-some (p ∷ ps) items =
      ap (append_peers std ps) (append_allowed_ips-some p.allowed_ips _)
      ∙ append_peers-some ps _
      ∙ ap some (append_assoc (items ++ peer_item (driver_peer std p) ∷ []) _ (peer_items ps))
      ∙ ap some (append_assoc items (peer_item (driver_peer std p) ∷ []) _)

  abbrev pub driver_interface : Config → DriverInterface
  driver_interface c = record {
    flags = interface_has_private_key + interface_has_listen_port;
    listen_port = c.interface.listen_port;
    private_key = c.interface.private_key;
    peer_count = length c.peers % 2 ^ 32;
  }

  abbrev pub config_items : Config → List Item
  config_items c = interface_item (driver_interface c) ∷ peer_items c.peers

  pub to_driver_configuration-config_items :
      (c : Config)
      → to_driver_configuration std c
        ≡ (some (config_items c), (80 + preallocation c.peers) % 2 ^ 32)
  unfolding to_driver_configuration preallocate append_item build byte_length
  to_driver_configuration-config_items c =
      ap build (append_peers-some c.peers (interface_item (driver_interface c) ∷ []))
      ∙ ap (λ n. (some (config_items c), (80 + n) % 2 ^ 32)) (byte_length-peer_items c.peers)
