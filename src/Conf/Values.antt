-- ===== src/Conf/Values.antt =====
-- conf/parser.go: the functions that read one value. What they take from net/netip,
-- encoding/base64 and net/url is the parameter `std`.

pub mod Endpoints
pub mod Items
pub mod Total
use wireguard_windows.Base.{
  ℕ, ◌-◌, Bool, true, false, not, ◌&&◌, ◌||◌, List, [], ◌∷◌, ◌++◌, Option, none, some, Result, ok,
  err, panic, ◌>>=◌, or_err, if◌then◌else◌, ltb, ◌==◌, length, take, drop,
}
use wireguard_windows.Base.Text.{
  Text, codes, text_eq, is_empty, to_lower, trim_space, has_prefix, occurs, index_byte,
  last_index_byte, cut_last, cut_at, split,
}
use wireguard_windows.Base.Decimal.{ℤ, pos, negsuc, atoi, parse_uint, decimal}
use wireguard_windows.Conf.Types.{
  Addr, Prefix, bit_len, is_6, prefix_from, Endpoint, Key, key_length, WsMode, websocket, wstunnel,
}

-- The fields of net/url's URL that the parser reads.
pub record Url : Type 0 where
  pub scheme : Text
  pub opaque : Text
  pub has_user : Bool
  pub path : Text
  pub raw_query : Text
  pub force_query : Bool
  pub fragment : Text
  pub hostname : Text
  pub port : Text

pub record Std : Type 0 where
  pub parse_addr : Text → Option Addr
  pub parse_prefix : Text → Option Prefix
  pub addr_string : Addr → Text
  pub base64_decode : Text → Option (List ℕ)
  pub base64_encode : List ℕ → Text
  pub parse_url : Text → Option Url

-- One for each message.
pub data Why : Type 0 where
  invalid_ip missing_port invalid_host need_brackets invalid_ws_url : Why
  ws_url_has_user ws_url_needs_path invalid_ws_mode not_a_bool invalid_millis : Why
  ws_needs_mode mode_needs_ws_url tunnel_needs_ws_url : Why
  tunnel_needs_target target_needs_tunnel settings_need_mode : Why
  invalid_mtu invalid_port invalid_keepalive : Why
  invalid_key wrong_key_length two_commas invalid_name outside_section : Why
  missing_equals missing_value invalid_interface_key invalid_peer_key : Why
  invalid_ws_tunnel_target no_private_key no_public_key : Why
  getting_failed wrong_protocol_version not_64_bits : Why

-- `ParseError`, or an error of strconv or of a reader that is passed on.
pub data Error : Type 0 where
  parse_error : Why → Text → Error
  number_error : Text → Error
  end_of_file : Error

abbrev pub Parsed : Type 0 → Type 0
Parsed = Result Error

abbrev pub fail : {A : Type 0} → Why → Text → Parsed A
fail w s = err (parse_error w s)

abbrev int_between : ℕ → ℕ → Why → Text → Option ℤ → Parsed ℕ
int_between low high w s none = err (number_error s)
int_between low high w s (some (negsuc n)) = fail w s
int_between low high w s (some (pos n)) = if ltb n low || ltb high n then fail w s else ok n

unfoldable pub parse_mtu : Text → Parsed ℕ
parse_mtu s = int_between 576 65535 invalid_mtu s (atoi s)

unfoldable pub parse_port : Text → Parsed ℕ
parse_port s = int_between 0 65535 invalid_port s (atoi s)

unfoldable pub parse_persistent_keepalive : Text → Parsed ℕ
parse_persistent_keepalive s =
    if text_eq s (codes "off") then ok 0 else int_between 0 65535 invalid_keepalive s (atoi s)

abbrev no_number : {A : Type 0} → A → Text → Option ℕ → Parsed A
no_number a s none = err (number_error s)
no_number a s (some _) = ok a

unfoldable pub parse_table_off : Text → Parsed Bool
parse_table_off s =
    if text_eq s (codes "off")
    then ok true
    else if text_eq s (codes "auto") || text_eq s (codes "main")
    then ok false
    else no_number false s (parse_uint 32 s)

unfoldable pub parse_ws_mode : Text → Parsed WsMode
parse_ws_mode s =
    if text_eq (to_lower s) (codes "websocket")
    then ok websocket
    else if text_eq (to_lower s) (codes "wstunnel")
    then ok wstunnel
    else fail invalid_ws_mode s

unfoldable pub parse_ws_bool : Text → Parsed Bool
parse_ws_bool s =
    if text_eq s (codes "true")
    then ok true
    else if text_eq s (codes "false")
    then ok false
    else fail not_a_bool s

unfoldable pub parse_ws_millis : Text → Parsed ℕ
parse_ws_millis s = or_err (parse_uint 32 s) (parse_error invalid_millis s)

-- The loop of `splitList` over what is left of the parts; `s` is the whole value.
split_parts : Text → List Text → Parsed (List Text)
split_parts s [] = ok []
split_parts s (part ∷ parts) =
    let trim = trim_space part in
    let later = split_parts s parts in
    if is_empty trim then fail two_commas s else later >>= λ out. ok (trim ∷ out)

unfoldable pub split_list : Text → Parsed (List Text)
unfolding split_parts
split_list s = split_parts s (split b',' s)

unfoldable pub is_ws_url : Text → Bool
is_ws_url s = has_prefix (to_lower s) (codes "ws://") || has_prefix (to_lower s) (codes "wss://")

-- What stands behind the last `b`, or the whole text.
after_last : ℕ → Text → Text
after_last b s = elim (cut_last b s) [ none ↦ s | some (_, after) ↦ after ]

from_slash : Text → Text
from_slash s = elim (index_byte b'/' s) [ none ↦ [] | some i ↦ drop i s ]

unfoldable pub redact_ws_url : Text → Text
unfolding after_last from_slash
redact_ws_url s = elim (cut_at (codes "://") s) [
  | none ↦ codes "xxxxx"
  | some (scheme, rest) ↦ scheme ++ (codes "://xxxxx" ++ from_slash (after_last b'@' rest))
]

abbrev starts_with_byte : ℕ → Text → Bool
starts_with_byte b [] = false
starts_with_byte b (c ∷ s) = c == b

abbrev ends_with_byte : ℕ → Text → Bool
ends_with_byte b [] = false
ends_with_byte b (c ∷ []) = c == b
ends_with_byte b (c ∷ d ∷ s) = ends_with_byte b (d ∷ s)

abbrev pub slice : Text → ℕ → ℕ → Text
slice s i j = take (j - i) (drop i s)

-- s[i:j], whose bounds are checked.
unfoldable pub slice_of : Text → ℕ → ℕ → Parsed Text
slice_of s i j = if ltb j i || ltb (length s) j then panic else ok (slice s i j)

abbrev found_after : ℕ → Option ℕ → Bool
found_after k none = false
found_after k (some i) = ltb k i

-- `end`: the last '%' behind the first byte of the address, or the closing bracket.
abbrev pub zone_or : Option ℕ → ℕ → ℕ
zone_or none end = end
zone_or (some i) end = if ltb 1 i then i else end

-- A host with a colon is put in brackets.
unfoldable pub bracketed : Text → Text
bracketed host = if occurs (index_byte b':' host) then b'[' ∷ (host ++ b']' ∷ []) else host

module _ (std : Std) where
  open std use {parse_addr, parse_prefix, base64_decode, parse_url}

  unfoldable pub parse_ip_cidr : Text → Parsed Prefix
  parse_ip_cidr s = elim (parse_prefix s) [
    | some p ↦ ok p
    | none ↦ elim (parse_addr s) [
      | none ↦ fail invalid_ip s
      | some a ↦ ok (prefix_from a (bit_len a))
    ]
  ]

  unfoldable pub parse_key_base64 : Text → Parsed Key
  parse_key_base64 s = elim (base64_decode s) [
    | none ↦ fail invalid_key s
    | some k ↦ if length k == key_length then ok k else fail wrong_key_length s
  ]

  -- An IPv6 address, with or without a zone, in its brackets.
  unfoldable pub is_bracketed_v6 : Text → Parsed Bool
  is_bracketed_v6 host =
      let end = zone_or (last_index_byte b'%' host) (length host - 1) in
      slice_of host 1 end >>= λ inner. elim (parse_addr inner) [
        | none ↦ ok false
        | some a ↦ ok (is_6 a)
      ]

  -- What `parseEndpoint` does once the port is read; `host[0]` of no host is out of range.
  unfoldable pub strip_brackets : Text → Parsed Text
  unfolding is_bracketed_v6
  strip_brackets [] = panic
  strip_brackets (c ∷ s) =
      let host = c ∷ s in
      let colon = index_byte b':' host in
      let stripped = slice_of host 1 (length host - 1) in
      if starts_with_byte b'[' host || (ends_with_byte b']' host || occurs colon)
      then if ltb 3 (length host)
          && (starts_with_byte b'[' host && (ends_with_byte b']' host && found_after 0 colon))
        then (is_bracketed_v6 host >>= λ v6. (if v6 then stripped else fail need_brackets host))
        else fail need_brackets host
      else ok host

  endpoint_parts : Text → Option (Text × Text) → Parsed Endpoint
  endpoint_parts s none = fail missing_port s
  endpoint_parts s (some (host, port_str)) =
      if is_empty host
      then fail invalid_host host
      else parse_port port_str >>= λ port.
          strip_brackets host >>= λ stripped. ok (record { host = stripped; port = port })

  unfoldable pub parse_endpoint : Text → Parsed Endpoint
  unfolding endpoint_parts
  parse_endpoint s = endpoint_parts s (cut_last b':' s)

  unfoldable pub ws_endpoint : Text → Url → Parsed Endpoint
  unfolding bracketed
  ws_endpoint s u =
      if is_empty u.hostname || is_empty u.port
      then fail invalid_ws_url (redact_ws_url s)
      else elim (parse_endpoint (bracketed u.hostname ++ b':' ∷ u.port)) [
        | ok e ↦ ok e
        | err _ ↦ fail invalid_ws_url (redact_ws_url s)
        | panic ↦ panic
      ]

  unfoldable pub url_endpoint : Text → Option Url → Parsed Endpoint
  url_endpoint s none = fail invalid_ws_url (redact_ws_url s)
  url_endpoint s (some u) =
      if not (text_eq u.scheme (codes "ws") || text_eq u.scheme (codes "wss"))
        || not (is_empty u.opaque)
      then fail invalid_ws_url (redact_ws_url s)
      else if u.has_user
      then fail ws_url_has_user (redact_ws_url s)
      else if is_empty u.path
          && (not (is_empty u.raw_query) || u.force_query || not (is_empty u.fragment))
      then fail ws_url_needs_path (redact_ws_url s)
      else ws_endpoint s u

  unfoldable pub parse_ws_url : Text → Parsed Endpoint
  unfolding url_endpoint
  parse_ws_url s = url_endpoint s (parse_url s)

-- (*Endpoint).String
unfoldable pub endpoint_string : Endpoint → Text
endpoint_string e =
    if occurs (index_byte b':' e.host)
    then b'[' ∷ (e.host ++ (b']' ∷ b':' ∷ decimal e.port))
    else e.host ++ (b':' ∷ decimal e.port)

unfoldable pub endpoint_is_empty : Endpoint → Bool
endpoint_is_empty e = is_empty e.host
