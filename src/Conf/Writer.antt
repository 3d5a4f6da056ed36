-- ===== src/Conf/Writer.antt =====
-- conf/writer.go: `ToWgQuick`. What is written piece by piece to a builder is one text.
use wireguard_windows.Base.{
  Bool, true, false, not, ◌&&◌, List, [], ◌∷◌, ◌++◌, map, if◌then◌else◌, ltb,
}
use wireguard_windows.Base.Text.{Text, codes, is_empty, to_lower, join}
use wireguard_windows.Base.Decimal.{decimal}
use wireguard_windows.Conf.Types.{
  Comments, SectionComments, Interface, Peer, Config, is_zero, is_ws_none, ws_mode_text,
}
use wireguard_windows.Conf.Values.{Std, endpoint_string, endpoint_is_empty}
use wireguard_windows.Conf.Keys.{InterfaceKey, PeerKey, interface_key_name, peer_key_name}
use wireguard_windows.Conf.Comment.{line_comments}
use wireguard_windows.Conf.Config.{prefix_string}

abbrev bool_text : Bool → Text
bool_text true = codes "true"
bool_text false = codes "false"

unfoldable pub write_lines : List Text → Text
write_lines [] = []
write_lines (line ∷ lines) = line ++ (10 ∷ write_lines lines)

abbrev with_suffix : Text → Text → Text
with_suffix line [] = line
with_suffix line (c ∷ suffix) = line ++ (b' ' ∷ c ∷ suffix)

-- `writeLine`
unfoldable pub write_line : Comments → Text → Text
unfolding write_lines
write_line c line = write_lines c.before ++ (with_suffix line c.suffix ++ 10 ∷ [])

-- `writeField`: a field that is not set is written only to carry its comments.
unfoldable pub write_field : SectionComments → Text → Bool → Text → Text
unfolding write_line line_comments
write_field comments key present value =
    let c = line_comments (to_lower key) comments.lines in
    if not present && is_empty c.before && is_empty c.suffix
    then []
    else write_line c (key ++ (codes " = " ++ value))

module _ (std : Std) where
  open std use {addr_string, base64_encode}

  -- A list is written when it has an item.
  write_list : SectionComments → Text → List Text → Text
  unfolding write_field join
  write_list comments key [] = []
  write_list comments key (t ∷ ts) = write_field comments key true (join (codes ", ") (t ∷ ts))

  unfoldable pub write_interface : Interface → Text
  unfolding write_list write_line write_field interface_key_name prefix_string
  write_interface i =
      let field = λ (k : InterfaceKey) (present : Bool) (value : Text).
        write_field i.comments (interface_key_name k) present value in
      let items = λ (k : InterfaceKey) (values : List Text).
        write_list i.comments (interface_key_name k) values in
      write_line i.comments.header (codes "[Interface]")
      ++ (field InterfaceKey.private_key true (base64_encode i.private_key)
          ++ (field InterfaceKey.listen_port (ltb 0 i.listen_port) (decimal i.listen_port)
              ++ (items InterfaceKey.address (map (prefix_string std) i.addresses)
                  ++ (items InterfaceKey.dns (map addr_string i.dns ++ i.dns_search)
                      ++ (field InterfaceKey.mtu (ltb 0 i.mtu) (decimal i.mtu)
                          ++ (field InterfaceKey.pre_up (not (is_empty i.pre_up)) i.pre_up
                              ++ (field InterfaceKey.post_up (not (is_empty i.post_up)) i.post_up
                                  ++ (field InterfaceKey.pre_down (not (is_empty i.pre_down))
                                        i.pre_down
                                      ++ (field InterfaceKey.post_down (not (is_empty i.post_down))
                                            i.post_down
                                          ++ field InterfaceKey.table i.table_off (
                                              if i.table_off
                                              then codes "off"
                                              else codes "auto"))))))))))

  write_endpoint : Peer → Text
  unfolding write_field peer_key_name
  write_endpoint p =
      if not (is_empty p.ws_url)
      then write_field p.comments (peer_key_name PeerKey.endpoint) true p.ws_url
      else write_field p.comments (peer_key_name PeerKey.endpoint)
          (not (endpoint_is_empty p.endpoint)) (endpoint_string p.endpoint)

  unfoldable pub write_peer : Peer → Text
  unfolding write_list write_line write_field peer_key_name prefix_string write_endpoint
  write_peer p =
      let field = λ (k : PeerKey) (present : Bool) (value : Text).
        write_field p.comments (peer_key_name k) present value in
      10
      ∷ (write_line p.comments.header (codes "[Peer]")
          ++ (field PeerKey.public_key true (base64_encode p.public_key)
              ++ (field PeerKey.preshared_key (not (is_zero p.preshared_key))
                    (base64_encode p.preshared_key)
                  ++ (write_list p.comments (peer_key_name PeerKey.allowed_ips)
                        (map (prefix_string std) p.allowed_ips)
                      ++ (write_endpoint p
                          ++ (field PeerKey.persistent_keepalive (ltb 0 p.persistent_keepalive)
                                (decimal p.persistent_keepalive)
                              ++ (field PeerKey.ws_mode (not (is_ws_none p.ws_mode))
                                    (ws_mode_text p.ws_mode)
                                  ++ (field PeerKey.ws_tunnel_target
                                        (not (is_empty p.ws_tunnel_target)) p.ws_tunnel_target
                                      ++ (field PeerKey.ws_mask p.ws_mask (bool_text p.ws_mask)
                                          ++ (field PeerKey.ws_tls_ca (not (is_empty p.ws_tls_ca))
                                                p.ws_tls_ca
                                              ++ (field PeerKey.ws_tls_cert
                                                    (not (is_empty p.ws_tls_cert)) p.ws_tls_cert
                                                  ++ (field PeerKey.ws_tls_key
                                                        (not (is_empty p.ws_tls_key)) p.ws_tls_key
                                                      ++ (field PeerKey.ws_tls_insecure
                                                            p.ws_tls_insecure
                                                            (bool_text p.ws_tls_insecure)
                                                          ++ (field PeerKey.ws_ping_interval
                                                            (ltb 0 p.ws_ping_interval)
                                                            (decimal p.ws_ping_interval)
                                                            ++ (field PeerKey.ws_backoff_min
                                                            (ltb 0 p.ws_backoff_min)
                                                            (decimal p.ws_backoff_min)
                                                            ++ (field PeerKey.ws_backoff_max
                                                            (ltb 0 p.ws_backoff_max)
                                                            (decimal p.ws_backoff_max)
                                                            ++ field PeerKey.ws_bearer
                                                            (not (is_empty p.ws_bearer))
                                                            p.ws_bearer))))))))))))))))

  write_peers : List Peer → Text
  unfolding write_peer
  write_peers [] = []
  write_peers (p ∷ ps) = write_peer p ++ write_peers ps

  -- `ToWgQuick`
  unfoldable pub to_wg_quick : Config → Text
  unfolding write_interface write_peers write_lines
  to_wg_quick c =
      write_interface c.interface ++ (write_peers c.peers ++ write_lines c.trailing_comments)
