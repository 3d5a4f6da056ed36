-- ===== src/Syntax/Highlight.antt =====
-- ui/syntax/highlighter.go: the coloured spans of a text. An index behind the end of the list of
-- spans is a panic.
use wireguard_windows.Base.{
  ℕ, zero, suc, ◌+◌, ◌-◌, Bool, true, false, not, ◌&&◌, ◌||◌, List, [], ◌∷◌, ◌++◌, none, some,
  if◌then◌else◌, ◌==◌, Result, ok, panic, ◌>>=◌,
}
use wireguard_windows.Base.Text.{Text}
use wireguard_windows.Syntax.{
  StringSpan, byte_at, at, is_valid_key, is_valid_hostname, is_valid_ipv4, is_valid_ipv6,
}
use wireguard_windows.Syntax.Accept.{
  is_valid_port, is_valid_mtu, is_valid_table, is_valid_persistent_keep_alive,
  is_valid_pre_post_up_down, is_valid_endpoint, is_valid_ws_mode, is_valid_ws_bool,
  is_valid_ws_millis, is_valid_ws_url, is_valid_network, find_byte,
}
use wireguard_windows.Syntax.Fields.{
  Field, private_key, listen_port, address, dns, mtu, table, pre_up, post_up, pre_down, post_down,
  public_key, preshared_key, allowed_ips, endpoint, persistent_keepalive, ws_mode, ws_tunnel_target,
  ws_bearer, ws_mask, ws_tls_ca, ws_tls_cert, ws_tls_key, ws_tls_insecure, ws_ping_interval,
  ws_backoff_min, ws_backoff_max,
}

-- `highlight`
pub data Highlight : Type 0 where
  section_name field_name private_text public_text preshared_text ip cidr host port : Highlight
  mtu_number keepalive comment delimiter table_name cmd error : Highlight

abbrev pub validate_highlight : Bool → Highlight → Highlight
validate_highlight is_valid t = if is_valid then t else error

-- `highlightSpan`
pub record HighlightSpan : Type 0 where
  pub t : Highlight
  pub s : ℕ
  pub len : ℕ

abbrev pub Spans : Type 0
Spans = List HighlightSpan

abbrev pub is_delimiter : Highlight → Bool
is_delimiter delimiter = true
is_delimiter _ = false

abbrev is_error : Highlight → Bool
is_error error = true
is_error _ = false

-- `append`; the offset is counted from the beginning of the text.
unfoldable pub append : Spans → StringSpan → Highlight → Spans
append hsa s t = if s.len == 0 then hsa else hsa ++ record { t = t; s = s.s; len = s.len } ∷ []

-- The last span becomes an error if it is a delimiter; there is none to look at in an empty list.
unfoldable pub mark_last : Spans → Result ⊥ Spans
mark_last [] = panic
mark_last (x ∷ []) = ok ((if is_delimiter x.t then record x { t = error } else x) ∷ [])
mark_last (x ∷ y ∷ hsa) = mark_last (y ∷ hsa) >>= λ rest. ok (x ∷ rest)

abbrev pub span : ℕ → ℕ → StringSpan
span s len = record { s = s; len = len }

-- What stands around the byte at `i`, coloured with the byte as a delimiter.
unfoldable pub append_around : Spans → StringSpan → ℕ → Highlight → Highlight → Spans
unfolding append
append_around hsa s i before after =
    let hsa = append hsa (span s.s i) before in
    let hsa = append hsa (span (s.s + i) 1) delimiter in
    append hsa (span (s.s + (i + 1)) (s.len - i - 1)) after

-- The index of the last of the first `n` bytes that is a ':', or 0.
abbrev pub last_colon : Text → StringSpan → ℕ → ℕ
last_colon b s zero = 0
last_colon b s (suc n) = let rest = last_colon b s n in if at b s n == b':' then n else rest

module _ (b : Text) where
  unfoldable pub network_value : Spans → StringSpan → Spans
  network_value hsa s =
      if not (is_valid_network b s) then append hsa s error else elim (find_byte b b'/' s s.len 0) [
        | none ↦ append hsa s ip
        | some slash ↦ append_around hsa s slash ip cidr
      ]

  unfoldable pub highlight_multivalue_value : Spans → StringSpan → Field → Spans
  unfolding network_value
  highlight_multivalue_value hsa s dns = append hsa s (
      if is_valid_ipv4 b s || is_valid_ipv6 b s
      then ip
      else if is_valid_hostname b s
      then host
      else error)
  highlight_multivalue_value hsa s address = network_value hsa s
  highlight_multivalue_value hsa s allowed_ips = network_value hsa s
  highlight_multivalue_value hsa s _ = append hsa s error

  -- The loop of `highlightMultivalue`: `n` bytes are left, from the position `p` on.
  unfoldable pub multivalue_loop : Field → ℕ → ℕ → Spans → StringSpan → ℕ → Spans × StringSpan
  multivalue_loop section zero p hsa current last_space = (hsa, span current.s last_space)
  multivalue_loop section (suc n) p hsa current last_space =
      let c = byte_at b p in
      let comma = c == b',' in
      let blank = c == b' ' || c == 9 in
      let value = highlight_multivalue_value hsa (span current.s last_space) section in
      let hsa' = if comma then append value (span p 1) delimiter else hsa in
      let longer = span current.s (current.len + 1) in
      let current' =
        if comma
        then span (p + 1) 0
        else if blank && (p == current.s && current.len == 0)
        then span (current.s + 1) current.len
        else longer in
      let last_space' = if comma then 0 else if blank then last_space else longer.len in
      multivalue_loop section n (p + 1) hsa' current' last_space'

  unfoldable pub highlight_multivalue : Spans → StringSpan → Field → Result ⊥ Spans
  unfolding multivalue_loop
  highlight_multivalue hsa s section =
      let (hsa', current) = multivalue_loop section s.len s.s hsa (span s.s 0) 0 in
      if not (current.len == 0)
      then ok (highlight_multivalue_value hsa' current section)
      else mark_last hsa'

  unfoldable pub highlight_endpoint : Spans → StringSpan → Spans
  highlight_endpoint hsa s =
      if is_valid_ws_url b s
      then append hsa s host
      else if not (is_valid_endpoint b s)
      then append hsa s error
      else append_around hsa s (last_colon b s s.len) host port

  unfoldable pub highlight_value : Spans → StringSpan → Field → Result ⊥ Spans
  unfolding highlight_endpoint
  highlight_value hsa s f =
      let checked : Bool → Highlight → Result ⊥ Spans =
        λ v t. ok (append hsa s (validate_highlight v t)) in
      elim f [
        | private_key ↦ checked (is_valid_key b s) private_text
        | public_key ↦ checked (is_valid_key b s) public_text
        | preshared_key ↦ checked (is_valid_key b s) preshared_text
        | mtu ↦ checked (is_valid_mtu b s) mtu_number
        | table ↦ checked (is_valid_table b s) table_name
        | pre_up ↦ checked (is_valid_pre_post_up_down b s) cmd
        | post_up ↦ checked (is_valid_pre_post_up_down b s) cmd
        | pre_down ↦ checked (is_valid_pre_post_up_down b s) cmd
        | post_down ↦ checked (is_valid_pre_post_up_down b s) cmd
        | listen_port ↦ checked (is_valid_port b s) port
        | persistent_keepalive ↦ checked (is_valid_persistent_keep_alive b s) keepalive
        | endpoint ↦ ok (highlight_endpoint hsa s)
        | address ↦ highlight_multivalue hsa s address
        | dns ↦ highlight_multivalue hsa s dns
        | allowed_ips ↦ highlight_multivalue hsa s allowed_ips
        | ws_mode ↦ checked (is_valid_ws_mode b s) host
        | ws_tunnel_target ↦ checked (is_valid_endpoint b s) host
        | ws_bearer ↦ checked (not (s.len == 0)) host
        | ws_tls_ca ↦ checked (not (s.len == 0)) host
        | ws_tls_cert ↦ checked (not (s.len == 0)) host
        | ws_tls_key ↦ checked (not (s.len == 0)) host
        | ws_mask ↦ checked (is_valid_ws_bool b s) host
        | ws_tls_insecure ↦ checked (is_valid_ws_bool b s) host
        | ws_ping_interval ↦ checked (is_valid_ws_millis b s) keepalive
        | ws_backoff_min ↦ checked (is_valid_ws_millis b s) keepalive
        | ws_backoff_max ↦ checked (is_valid_ws_millis b s) keepalive
        | _ ↦ ok (append hsa s error)
      ]
