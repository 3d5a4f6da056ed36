-- ===== src/Conf/Values/Total.antt =====
-- conf/parser.go: the readers of values and run-time panics.
use wireguard_windows.Base.{
  ℕ, ◌-◌, ◌≤◌, ◌<◌, length, ◌≢◌, refl, List, [], ◌∷◌, ◌++◌, Option, none, some, arith, Returns,
}
use wireguard_windows.Base.Text.{Text, split, cut_last, last_index_byte}
use wireguard_windows.Conf.Values.{
  Std, Url, parse_port, parse_mtu, parse_persistent_keepalive, parse_table_off, parse_ws_mode,
  parse_ws_bool, parse_ws_millis, split_parts, split_list, parse_ip_cidr, parse_key_base64,
  strip_brackets, endpoint_parts, parse_endpoint, ws_endpoint, url_endpoint, parse_ws_url,
  bracketed, slice_of, is_bracketed_v6, zone_or,
}

pub parse_port-Returns : (s : Text) → Returns (parse_port s)
unfolding parse_port
parse_port-Returns s = ground arith

pub parse_mtu-Returns : (s : Text) → Returns (parse_mtu s)
unfolding parse_mtu
parse_mtu-Returns s = ground arith

pub parse_persistent_keepalive-Returns : (s : Text) → Returns (parse_persistent_keepalive s)
unfolding parse_persistent_keepalive
parse_persistent_keepalive-Returns s = ground arith

pub parse_table_off-Returns : (s : Text) → Returns (parse_table_off s)
unfolding parse_table_off
parse_table_off-Returns s = ground arith

pub parse_ws_mode-Returns : (s : Text) → Returns (parse_ws_mode s)
unfolding parse_ws_mode
parse_ws_mode-Returns s = ground arith

pub parse_ws_bool-Returns : (s : Text) → Returns (parse_ws_bool s)
unfolding parse_ws_bool
parse_ws_bool-Returns s = ground arith

pub parse_ws_millis-Returns : (s : Text) → Returns (parse_ws_millis s)
unfolding parse_ws_millis
parse_ws_millis-Returns s = ground arith

split_parts-Returns : (w : Text) (parts : List Text) → Returns (split_parts w parts)
unfolding split_parts
split_parts-Returns w [] = tt
split_parts-Returns w (part ∷ parts) = ground (arith, split_parts-Returns w parts)

pub split_list-Returns : (s : Text) → Returns (split_list s)
unfolding split_list
split_list-Returns s = split_parts-Returns s (split b',' s)

-- A position inside the text, if there is one.
abbrev OccursIn : Text → Option ℕ → Type 0
OccursIn s none = Unit
OccursIn s (some i) = i < length s

last_index_byte-OccursIn : (b : ℕ) (s : Text) → OccursIn s (last_index_byte b s)
unfolding last_index_byte
last_index_byte-OccursIn b [] = tt
last_index_byte-OccursIn b (c ∷ s) = ground (arith, last_index_byte-OccursIn b s)

module _ (std : Std) where
  pub parse_ip_cidr-Returns : (s : Text) → Returns (parse_ip_cidr std s)
  unfolding parse_ip_cidr
  parse_ip_cidr-Returns s = ground arith

  pub parse_key_base64-Returns : (s : Text) → Returns (parse_key_base64 std s)
  unfolding parse_key_base64
  parse_key_base64-Returns s = ground arith

  zone_or-le : (s : Text) (i : Option ℕ) → OccursIn s i → zone_or i (length s - 1) ≤ length s
  zone_or-le s none h = omega arith
  zone_or-le s (some i) h = ground (arith, h)

  zone_or-ge : (s : Text) (i : Option ℕ) → 3 < length s → 1 ≤ zone_or i (length s - 1)
  zone_or-ge s none h = omega arith
  zone_or-ge s (some i) h = ground (arith, h)

  -- The text in brackets lies inside a host of more than three bytes.
  is_bracketed_v6-Returns : (s : Text) → 3 < length s → Returns (is_bracketed_v6 std s)
  unfolding is_bracketed_v6 slice_of
  is_bracketed_v6-Returns s long =
      let i = last_index_byte b'%' s in
      ground (arith, zone_or-le s i (last_index_byte-OccursIn b'%' s), zone_or-ge s i long)

  strip_brackets-Returns : (s : Text) → s ≢ [] → Returns (strip_brackets std s)
  unfolding strip_brackets slice_of
  strip_brackets-Returns [] ne = absurd (ne refl)
  strip_brackets-Returns (c ∷ s) ne = ground (arith, is_bracketed_v6-Returns (c ∷ s))

  endpoint_parts-Returns : (s : Text) (o : Option (Text × Text)) → Returns (endpoint_parts std s o)
  unfolding endpoint_parts
  endpoint_parts-Returns s none = tt
  endpoint_parts-Returns s (some ([], p)) = tt
  endpoint_parts-Returns s (some (c ∷ h, p)) =
      ground (arith, parse_port-Returns p, strip_brackets-Returns (c ∷ h) (λ q. cc))

  pub parse_endpoint-Returns : (s : Text) → Returns (parse_endpoint std s)
  parse_endpoint-Returns s = unfold parse_endpoint in endpoint_parts-Returns s (cut_last b':' s)

  ws_endpoint-Returns : (s : Text) (u : Url) → Returns (ws_endpoint std s u)
  unfolding ws_endpoint
  ws_endpoint-Returns s u =
      ground (arith, parse_endpoint-Returns (bracketed u.hostname ++ b':' ∷ u.port))

  url_endpoint-Returns : (s : Text) (u : Option Url) → Returns (url_endpoint std s u)
  unfolding url_endpoint
  url_endpoint-Returns s none = tt
  url_endpoint-Returns s (some u) = ground (arith, ws_endpoint-Returns s u)

  pub parse_ws_url-Returns : (s : Text) → Returns (parse_ws_url std s)
  parse_ws_url-Returns s = unfold parse_ws_url in url_endpoint-Returns s (std.parse_url s)
