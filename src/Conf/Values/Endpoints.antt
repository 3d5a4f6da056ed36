-- ===== src/Conf/Values/Endpoints.antt =====
-- `parseEndpoint` and `(*Endpoint).String`.
use wireguard_windows.Base.{
  ℕ, suc, ◌-◌, ◌≤◌, true, [], ◌∷◌, ◌++◌, Option, none, some, ok, ltb, ◌≡◌, refl, ap, ap₂,
  append_assoc, sym, ◌∙◌, ◌≢◌, inl, inr, Bool-cases, length, take, arith, ◌>>=◌, >>=-eq-ok,
  ok-injective, subst,
}
use wireguard_windows.Base.Text.{Text, occurs, index_byte, cut_last}
use wireguard_windows.Base.Text.Cuts.{Lacks, cut_last-append, index_byte-concat}
use wireguard_windows.Base.Decimal.{decimal, IsNumeral, atoi-decimal, decimal-IsNumeral}
use wireguard_windows.Conf.Types.{Endpoint}
use wireguard_windows.Conf.Values.{
  Std, int_between, parse_port, starts_with_byte, ends_with_byte, slice, strip_brackets, bracketed,
  slice_of, is_bracketed_v6, endpoint_parts, parse_endpoint, endpoint_string, invalid_port,
}

Lacks-of_numeral : (s : Text) → IsNumeral s → Lacks b':' s
Lacks-of_numeral [] h = tt
Lacks-of_numeral (c ∷ s) h = (ground (arith, h.0), Lacks-of_numeral s h.1)

-- The port that is read fits 16 bits.
pub parse_port-le : (s : Text) {n : ℕ} → parse_port s ≡ ok n → n ≤ 65535
unfolding parse_port
parse_port-le s h = ground arith

pub parse_port-decimal : (n : ℕ) → n ≤ 65535 → parse_port (decimal n) ≡ ok n
parse_port-decimal n h =
    unfold parse_port in
    (ap (int_between 0 65535 invalid_port (decimal n)) (atoi-decimal n (omega arith))
      ∙ ground arith)

take_all_but_last :
    (b c : ℕ) (s : Text)
    → ends_with_byte b (c ∷ s) ≡ true
    → take (length s) (c ∷ s) ++ b ∷ [] ≡ c ∷ s
take_all_but_last b c [] h = ground arith
take_all_but_last b c (d ∷ s) h = ap (◌∷◌ c) (take_all_but_last b d s h)

-- What stands between the brackets, in its brackets, is the host again.
rebracket :
    (host : Text)
    → ltb 3 (length host) ≡ true
    → starts_with_byte b'[' host ≡ true
    → ends_with_byte b']' host ≡ true
    → b'[' ∷ (slice host 1 (length host - 1) ++ b']' ∷ []) ≡ host
rebracket [] n a z = cc
rebracket (c ∷ []) n a z = ground arith
rebracket (c ∷ d ∷ s) n a z =
    let e : suc (suc (length s)) - 1 - 1 ≡ length s = omega arith in
    ap₂ ◌∷◌ (ground arith) (rw e (take_all_but_last b']' d s z))

-- A colon behind the first bracket is a colon between the brackets.
colon_inside :
    (host : Text)
    → ltb 3 (length host) ≡ true
    → starts_with_byte b'[' host ≡ true
    → ends_with_byte b']' host ≡ true
    → occurs (index_byte b':' host) ≡ true
    → occurs (index_byte b':' (slice host 1 (length host - 1))) ≡ true
colon_inside host n a z h =
    let inner = slice host 1 (length host - 1) in
    sym (index_byte-concat b':' b']' inner refl)
    ∙ sym (behind (inner ++ b']' ∷ []))
    ∙ ap (λ t. occurs (index_byte b':' t)) (rebracket host n a z)
    ∙ h
  where
    behind : (t : Text) → occurs (index_byte b':' (b'[' ∷ t)) ≡ occurs (index_byte b':' t)
    behind t = unfold index_byte in ground arith

bracketed-strip_brackets :
    (std : Std) (host : Text) {h : Text} → strip_brackets std host ≡ ok h → bracketed h ≡ host
unfolding strip_brackets is_bracketed_v6 slice_of bracketed
bracketed-strip_brackets std [] {h} e = cc
bracketed-strip_brackets std (c ∷ s) {h} e = ground (arith, rebracket (c ∷ s), colon_inside (c ∷ s))

endpoint_string-eq : (e : Endpoint) → endpoint_string e ≡ bracketed e.host ++ b':' ∷ decimal e.port
endpoint_string-eq e = elim (Bool-cases (occurs (index_byte b':' e.host))) [
  | inl y ↦
      unfold endpoint_string bracketed in
      rw y (ap (◌∷◌ b'[') (sym (append_assoc e.host (b']' ∷ []) (b':' ∷ decimal e.port))))
  | inr n ↦ unfold endpoint_string bracketed in rw n
]

module _ (std : Std) where
  parse_endpoint-append :
      (host port_str : Text)
      → Lacks b':' port_str
      → host ≢ []
      → parse_endpoint std (host ++ b':' ∷ port_str) ≡ (
          parse_port port_str >>= λ port.
          strip_brackets std host >>= λ stripped. ok (record { host = stripped; port = port }))
  parse_endpoint-append [] port_str h ne = absurd (ne refl)
  parse_endpoint-append (c ∷ host) port_str h ne =
      unfold parse_endpoint in
      ap (endpoint_parts std ((c ∷ host) ++ b':' ∷ port_str))
        (cut_last-append b':' (c ∷ host) port_str h)

  -- What was read as an endpoint: a host, in its brackets or without, and a port.
  pub record IsEndpoint (e : Endpoint) : Type 0 where
    pub host : strip_brackets std (bracketed e.host) ≡ ok e.host
    pub host_ne_nil : bracketed e.host ≢ []
    pub port : e.port ≤ 65535

  host-IsEndpoint :
      (host port_str : Text) {h : Text} {port : ℕ}
      → host ≢ []
      → parse_port port_str ≡ ok port
      → strip_brackets std host ≡ ok h
      → IsEndpoint (record { host = h; port = port })
  host-IsEndpoint host port_str ne p e = record {
    host = rw (bracketed-strip_brackets std host e) e;
    host_ne_nil = rw (bracketed-strip_brackets std host e) ne;
    port = parse_port-le port_str p;
  }

  endpoint_parts-IsEndpoint :
      (s : Text) (parts : Option (Text × Text)) {e : Endpoint}
      → endpoint_parts std s parts ≡ ok e
      → IsEndpoint e
  unfolding endpoint_parts
  endpoint_parts-IsEndpoint s none h = cc
  endpoint_parts-IsEndpoint s (some ([], port_str)) h = cc
  endpoint_parts-IsEndpoint s (some (c ∷ host, port_str)) h =
      let (port, p, later) = >>=-eq-ok (parse_port port_str) _ h in
      let (stripped, e, last) = >>=-eq-ok (strip_brackets std (c ∷ host)) _ later in
      subst IsEndpoint (ok-injective last) (host-IsEndpoint (c ∷ host) port_str (λ q. cc) p e)

  pub parse_endpoint-IsEndpoint :
      (s : Text) {e : Endpoint} → parse_endpoint std s ≡ ok e → IsEndpoint e
  parse_endpoint-IsEndpoint s h =
      endpoint_parts-IsEndpoint s (cut_last b':' s) (unfold parse_endpoint in h)

  -- An endpoint that was read is written as a text that is read as the same endpoint.
  pub parse_endpoint-endpoint_string :
      (s : Text) {e : Endpoint}
      → parse_endpoint std s ≡ ok e
      → parse_endpoint std (endpoint_string e) ≡ ok e
  parse_endpoint-endpoint_string s {e} h =
      let v = parse_endpoint-IsEndpoint s h in
      rw endpoint_string-eq (
        parse_endpoint-append (bracketed e.host) (decimal e.port)
          (Lacks-of_numeral (decimal e.port) (decimal-IsNumeral e.port)) v.host_ne_nil
        ∙ rw (parse_port-decimal e.port v.port, v.host))
