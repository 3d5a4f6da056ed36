-- ===== src/Syntax/Accept.antt =====
-- ui/syntax/highlighter.go: the tests for numbers, endpoints, networks and the WebSocket settings.
use wireguard_windows.Base.{
  ℕ, zero, suc, ◌+◌, ◌-◌, ◌*◌, ◌^◌, Bool, true, false, not, ◌&&◌, ◌||◌, Option, none, some,
  if◌then◌else◌, ◌==◌, ltb, leb,
}
use wireguard_windows.Base.Text.{Text, codes, is_digit}
use wireguard_windows.Syntax.{
  StringSpan, is_hexadecimal, is_alphabet, or_32, byte_at, at, every_at, is_same, is_caseless_same,
  is_valid_hostname, is_valid_ipv4, is_valid_ipv6,
}

module _ (b : Text) where
  -- The loops of `isValidUint`: `n` bytes are left, from `p` on; none if a byte is no digit. Ten
  -- digits stay below 2 ^ 64.
  unfoldable pub decimal_loop : ℕ → ℕ → ℕ → Option ℕ
  decimal_loop zero p val = some val
  decimal_loop (suc n) p val =
      let c = byte_at b p in
      let rest = decimal_loop n (p + 1) (10 * val + (c - b'0')) in if is_digit c then rest else none

  hex_loop : ℕ → ℕ → ℕ → Option ℕ
  hex_loop zero p val = some val
  hex_loop (suc n) p val =
      let c = byte_at b p in
      let digit = if is_digit c then c - b'0' else or_32 c - b'a' + 10 in
      let rest = hex_loop n (p + 1) (16 * val + digit) in if is_hexadecimal c then rest else none

  unfoldable pub is_valid_uint : StringSpan → Bool → ℕ → ℕ → Bool
  unfolding hex_loop
  is_valid_uint s support_hex min max =
      let hex = support_hex && ltb 2 s.len && at b s 0 == b'0' && at b s 1 == b'x' in
      let val = if hex then hex_loop (s.len - 2) (s.s + 2) 0 else decimal_loop s.len s.s 0 in
      if ltb 10 s.len || s.len == 0
      then false
      else elim val [ none ↦ false | some v ↦ leb v max && leb min v ]

  unfoldable pub is_valid_port : StringSpan → Bool
  is_valid_port s = is_valid_uint s false 0 65535

  unfoldable pub is_valid_mtu : StringSpan → Bool
  is_valid_mtu s = is_valid_uint s false 576 65535

  unfoldable pub is_valid_table : StringSpan → Bool
  is_valid_table s =
      is_same b s (codes "off")
      || is_same b s (codes "auto")
      || is_same b s (codes "main")
      || is_valid_uint s false 0 (2 ^ 32 - 1)

  unfoldable pub is_valid_persistent_keep_alive : StringSpan → Bool
  is_valid_persistent_keep_alive s =
      if is_same b s (codes "off") then true else is_valid_uint s false 0 65535

  abbrev pub is_valid_pre_post_up_down : StringSpan → Bool
  is_valid_pre_post_up_down s = not (s.len == 0)

  abbrev is_scope_byte : ℕ → Bool
  is_scope_byte c =
      is_alphabet c || is_digit c || c == b'_' || c == b'=' || c == b'+' || c == b'.' || c == b'-'

  unfoldable pub is_valid_scope : StringSpan → Bool
  is_valid_scope s =
      if ltb 64 s.len || s.len == 0 then false else every_at b is_scope_byte s.len s.s

  -- The loop over an endpoint in brackets: `n` bytes are left, from `i` on.
  bracket_loop : StringSpan → ℕ → ℕ → Bool → StringSpan → Bool
  bracket_loop s zero i seen_scope hostspan = false
  bracket_loop s (suc n) i seen_scope hostspan =
      let c = at b s i in
      let scope = c == b'%' in
      let next =
        if scope
        then record { s = s.s + (i + 1); len = 0 }
        else record hostspan { len = hostspan.len + 1 } in
      let rest = bracket_loop s n (i + 1) (scope || seen_scope) next in
      if scope
      then (if seen_scope || not (is_valid_ipv6 b hostspan) then false else rest)
      else if c == b']'
      then (if not (if seen_scope then is_valid_scope hostspan else is_valid_ipv6 b hostspan)
          then false
          else if i == s.len - 1 || not (at b s (i + 1) == b':')
          then false
          else is_valid_port (record { s = s.s + (i + 2); len = s.len - i - 2 }))
      else rest

  -- The first of `n` bytes, from `i` on, that is `c`.
  unfoldable pub find_byte : ℕ → StringSpan → ℕ → ℕ → Option ℕ
  find_byte c s zero i = none
  find_byte c s (suc n) i =
      let rest = find_byte c s n (i + 1) in if at b s i == c then some i else rest

  unfoldable pub is_valid_endpoint : StringSpan → Bool
  unfolding bracket_loop
  is_valid_endpoint s =
      if s.len == 0
      then false
      else if at b s 0 == b'['
      then bracket_loop s (s.len - 1) 1 false (record { s = s.s + 1; len = 0 })
      else elim (find_byte b':' s s.len 0) [
        | none ↦ false
        | some i ↦
            let host : StringSpan = record { s = s.s; len = i } in
            is_valid_port (record { s = s.s + (i + 1); len = s.len - i - 1 })
            && (is_valid_ipv4 b host || is_valid_hostname b host)
      ]

  unfoldable pub is_valid_ws_mode : StringSpan → Bool
  is_valid_ws_mode s =
      is_caseless_same b s (codes "websocket") || is_caseless_same b s (codes "wstunnel")

  unfoldable pub is_valid_ws_bool : StringSpan → Bool
  is_valid_ws_bool s = is_same b s (codes "true") || is_same b s (codes "false")

  unfoldable pub is_valid_ws_millis : StringSpan → Bool
  is_valid_ws_millis s = is_valid_uint s false 0 (2 ^ 32 - 1)

  -- The text behind a scheme, up to the next '/', is an endpoint.
  ws_authority : StringSpan → ℕ → Bool
  ws_authority s start =
      let len : ℕ = elim (find_byte b'/' s (s.len - start) start) [
        | none ↦ s.len - start
        | some i ↦ i - start
      ] in
      is_valid_endpoint (record { s = s.s + start; len = len })

  unfoldable pub is_valid_ws_url : StringSpan → Bool
  unfolding ws_authority
  is_valid_ws_url s =
      if ltb 5 s.len && is_caseless_same b (record { s = s.s; len = 5 }) (codes "ws://")
      then ws_authority s 5
      else if ltb 6 s.len && is_caseless_same b (record { s = s.s; len = 6 }) (codes "wss://")
      then ws_authority s 6
      else false

  -- The prefix length behind a slash, and the address in front of it.
  cidr_network : StringSpan → ℕ → Bool
  cidr_network s i =
      let ip : StringSpan = record { s = s.s; len = i } in
      let len = s.len - i - 1 in
      if ltb 3 len || len == 0 then false else elim (decimal_loop len (s.s + (i + 1)) 0) [
        | none ↦ false
        | some cidrval ↦
            if is_valid_ipv4 b ip
            then leb cidrval 32
            else if is_valid_ipv6 b ip
            then leb cidrval 128
            else false
      ]

  unfoldable pub is_valid_network : StringSpan → Bool
  unfolding cidr_network
  is_valid_network s = elim (find_byte b'/' s s.len 0) [
    | none ↦ is_valid_ipv4 b s || is_valid_ipv6 b s
    | some i ↦ cidr_network s i
  ]
