-- ===== src/Tunnel/Hosts.antt =====
-- tunnel/defaultroutemonitor.go: `webSocketServerHosts`, against the peers' hosts as a set.
use wireguard_windows.Base.{
  ◌==◌, true, ◌/◌, ◌%◌, ◌^◌, ◌≢◌, if◌then◌else◌, Option-cases, false, List, [], ◌∷◌, ◌++◌, Option,
  none, some, any, ◌≡◌, ◌↔◌, refl, sym, ap, subst, ◌⊎◌, inl, inr, arith, IsIn, IsIn-append,
  Bool-cases,
}
use wireguard_windows.Base.Text.{Text, is_empty}
use wireguard_windows.Conf.Types.{
  Addr, none_addr, v4, v6, bit_len, prefix_from, Prefix, Peer, Config,
}
use wireguard_windows.Conf.Config.{prefix_eq}
use wireguard_windows.Conf.Values.{Std}
use wireguard_windows.Driver.{Family, af_unspec, af_inet, af_inet6}
use wireguard_windows.Tunnel.{
  same, is_4, is_inet, unmap, server_host, add_host, hosts_loop, web_socket_server_hosts,
}
use wireguard_windows.Tunnel.Owned.{prefix_eq_refl, any-IsIn}

-- The one host that an address is in a family. An IPv4 address inside IPv6, ::ffff:0:0/96, is the
-- IPv4 host of its low 32 bits; an address that is not valid has no family but the other one.
abbrev pub IsHost : Family → Addr → Prefix → Type 0
IsHost af_inet none_addr h = ⊥
IsHost af_inet (v4 n) h = h ≡ prefix_from (v4 n) 32
IsHost af_inet (v6 n zone) h = (n / 2 ^ 32 ≡ 0xffff) × (h ≡ prefix_from (v4 (n % 2 ^ 32)) 32)
IsHost _ none_addr h = h ≡ prefix_from none_addr 0
IsHost _ (v4 n) h = ⊥
IsHost _ (v6 n zone) h = (n / 2 ^ 32 ≢ 0xffff) × (h ≡ prefix_from (v6 n zone) 128)

-- The peer has a WebSocket URL, and its endpoint is the address of this host.
pub record Dials (std : Std) (family : Family) (p : Peer) (h : Prefix) : Type 0 where
  pub has_url : p.ws_url ≢ []
  pub addr : Addr
  pub parsed : std.parse_addr p.endpoint.host ≡ some addr
  pub is_host : IsHost family addr h

-- Some peer dials a server at this host.
abbrev pub IsDialled : Std → Family → List Peer → Prefix → Type 0
IsDialled std family [] h = ⊥
IsDialled std family (p ∷ ps) h = Dials std family p h ⊎ IsDialled std family ps h

-- The host of an address, if it is of the family.
host_of : Family → Addr → Option Prefix
host_of family a =
    if same (is_4 (unmap a)) (is_inet family)
    then some (prefix_from (unmap a) (bit_len (unmap a)))
    else none

some_host : {x y : Prefix} → some x ≡ some y → x ≡ y
some_host e = cc

host_of-IsHost :
    (family : Family) (a : Addr) (h : Prefix)
    → ((host_of family a ≡ some h) → IsHost family a h)
      × (IsHost family a h → (host_of family a ≡ some h))
unfolding host_of unmap bit_len
host_of-IsHost af_inet none_addr h = (λ e. cc, λ k. absurd k)
host_of-IsHost af_inet (v4 n) h = (λ e. sym (some_host e), λ k. ap some (sym k))
host_of-IsHost af_inet (v6 n zone) h = elim (Bool-cases (n / 2 ^ 32 == 0xffff)) [
  | inl y ↦ rw y (λ e. (ground arith, sym (some_host e)), λ k. ap some (sym k.1))
  | inr no_v4 ↦ rw no_v4 (λ e. cc, λ k. absurd (ground (arith, k.0)))
]
host_of-IsHost af_unspec none_addr h = (λ e. sym (some_host e), λ k. ap some (sym k))
host_of-IsHost af_unspec (v4 n) h = (λ e. cc, λ k. absurd k)
host_of-IsHost af_unspec (v6 n zone) h = elim (Bool-cases (n / 2 ^ 32 == 0xffff)) [
  | inl y ↦ rw y (λ e. cc, λ k. absurd (k.0 (ground arith)))
  | inr no_v4 ↦ rw no_v4 (λ e. (λ q. ground arith, sym (some_host e)), λ k. ap some (sym k.1))
]
host_of-IsHost af_inet6 none_addr h = (λ e. sym (some_host e), λ k. ap some (sym k))
host_of-IsHost af_inet6 (v4 n) h = (λ e. cc, λ k. absurd k)
host_of-IsHost af_inet6 (v6 n zone) h = elim (Bool-cases (n / 2 ^ 32 == 0xffff)) [
  | inl y ↦ rw y (λ e. cc, λ k. absurd (k.0 (ground arith)))
  | inr no_v4 ↦ rw no_v4 (λ e. (λ q. ground arith, sym (some_host e)), λ k. ap some (sym k.1))
]

abbrev pub AreDistinct : List Prefix → Type 0
AreDistinct [] = Unit
AreDistinct (h ∷ hs) = (¬ IsIn h hs) × AreDistinct hs

any-false :
    (p : Prefix) (hosts : List Prefix) → any (λ h. prefix_eq h p) hosts ≡ false → ¬ IsIn p hosts
unfolding any
any-false p [] h i = i
any-false p (o ∷ hosts) h (inl e) =
    let r : prefix_eq p p ≡ false = subst (λ x. prefix_eq x p ≡ false) e (ground arith) in
    cc (r, prefix_eq_refl p)
any-false p (o ∷ hosts) h (inr i) = any-false p hosts (ground arith) i

IsIn-last : (h p : Prefix) (hosts : List Prefix) → IsIn h (hosts ++ p ∷ []) → IsIn h hosts ⊎ (p ≡ h)
IsIn-last h p [] (inl e) = inr e
IsIn-last h p [] (inr i) = absurd i
IsIn-last h p (o ∷ hosts) (inl e) = inl (inl e)
IsIn-last h p (o ∷ hosts) (inr i) = elim (IsIn-last h p hosts i) [
  | inl j ↦ inl (inr j)
  | inr e ↦ inr e
]

last-IsIn : (p : Prefix) (hosts : List Prefix) → IsIn p (hosts ++ p ∷ [])
last-IsIn p [] = inl refl
last-IsIn p (o ∷ hosts) = inr (last-IsIn p hosts)

AreDistinct-last :
    (p : Prefix) (hosts : List Prefix)
    → ¬ IsIn p hosts
    → AreDistinct hosts
    → AreDistinct (hosts ++ p ∷ [])
AreDistinct-last p [] n d = (λ i. i, tt)
AreDistinct-last p (o ∷ hosts) n d = (
  λ i. elim (IsIn-last o p hosts i) [ inl j ↦ d.0 j | inr e ↦ n (inl (sym e)) ],
  AreDistinct-last p hosts (λ i. n (inr i)) d.1,
)

server_host-Dials :
    (std : Std) (family : Family) (p : Peer) (h : Prefix)
    → ((server_host std family p ≡ some h) → Dials std family p h)
      × (Dials std family p h → (server_host std family p ≡ some h))
unfolding server_host host_of
server_host-Dials std family p h = (
  λ e. elim (text_cases p.ws_url) [
    | inl none_given ↦ let q = rw (none_given, server_host) at e in cc
    | inr (given, ne) ↦ elim (Option-cases (std.parse_addr p.endpoint.host)) [
      | inl n ↦ let q = rw (given, server_host, n) at e in cc
      | inr (a, parsed) ↦
          let q : host_of family a ≡ some h = rw (given, server_host, parsed) at e in
          record {
            has_url = ne;
            addr = a;
            parsed = parsed;
            is_host = (host_of-IsHost family a h).0 q;
          }
    ]
  ],
  λ d. elim (text_cases p.ws_url) [
    | inl none_given ↦ absurd (d.has_url (is_empty-nil p.ws_url none_given))
    | inr (given, ne) ↦ rw (given, d.parsed) ((host_of-IsHost family d.addr h).1 d.is_host)
  ],
)
  where
    is_empty-nil : (t : Text) → is_empty t ≡ true → t ≡ []
    is_empty-nil [] e = refl
    is_empty-nil (c ∷ t) e = cc

    text_cases : (t : Text) → (is_empty t ≡ true) ⊎ ((is_empty t ≡ false) × (t ≢ []))
    text_cases [] = inl refl
    text_cases (c ∷ t) = inr (refl, λ e. cc)

-- What one peer adds: its host, and nothing else.
add_host_cases :
    (o : Option Prefix) (hosts : List Prefix)
    → AreDistinct hosts
    → AreDistinct (add_host o hosts)
      × ((h : Prefix) → IsIn h (add_host o hosts) ↔ ((o ≡ some h) ⊎ IsIn h hosts))
unfolding add_host
add_host_cases none hosts d =
    (d, λ h. (λ i. inr i, λ k. elim k [ inl e ↦ absurd (cc) | inr i ↦ i ]))
add_host_cases (some p) hosts d = elim (Bool-cases (any (λ host. prefix_eq host p) hosts)) [
  | inl y ↦ rw y (
    d,
    λ h. (
      λ i. inr i,
      λ k. elim k [
        | inl e ↦ subst (λ x. IsIn x hosts) (some_host e) (any-IsIn p hosts y)
        | inr i ↦ i
      ],
    ),
  )
  | inr n ↦ rw n (
    AreDistinct-last p hosts (any-false p hosts n) d,
    λ h. (
      λ i. elim (IsIn-last h p hosts i) [ inl j ↦ inr j | inr e ↦ inl (ap some e) ],
      λ k. elim k [
        | inl e ↦ subst (λ x. IsIn x (hosts ++ p ∷ [])) (some_host e) (last-IsIn p hosts)
        | inr i ↦ IsIn-append h hosts (p ∷ []) i
      ],
    ),
  )
]

hosts_loop_cases :
    (std : Std) (family : Family) (peers : List Peer) (hosts : List Prefix)
    → AreDistinct hosts
    → AreDistinct (hosts_loop std family peers hosts)
      × ((h : Prefix)
          → IsIn h (hosts_loop std family peers hosts)
            ↔ (IsDialled std family peers h ⊎ IsIn h hosts))
unfolding hosts_loop
hosts_loop_cases std family [] hosts d =
    (d, λ h. (λ i. inr i, λ k. elim k [ inl e ↦ absurd e | inr i ↦ i ]))
hosts_loop_cases std family (p ∷ ps) hosts d =
    let o = server_host std family p in
    let dials = server_host-Dials std family p in
    let (d1, one) = add_host_cases o hosts d in
    let (d2, rest) = hosts_loop_cases std family ps (add_host o hosts) d1 in
    (
      d2,
      λ h. (
        λ i. elim ((rest h).0 i) [
          | inl k ↦ inl (inr k)
          | inr j ↦ elim ((one h).0 j) [ inl e ↦ inl (inl ((dials h).0 e)) | inr l ↦ inr l ]
        ],
        λ k. elim k [
          | inl (inl e) ↦ (rest h).1 (inr ((one h).1 (inl ((dials h).1 e))))
          | inl (inr k) ↦ (rest h).1 (inl k)
          | inr l ↦ (rest h).1 (inr ((one h).1 (inr l)))
        ],
      ),
    )

-- The hosts of a family are those of the peers that have a WebSocket URL and whose endpoint is an
-- address of that family, an IPv4 address inside IPv6 counting as IPv4, as prefixes of the
-- address's full length, and each stands there once.
pub web_socket_server_hosts-IsDialled :
    (std : Std) (config : Config) (family : Family)
    → AreDistinct (web_socket_server_hosts std config family)
      × ((h : Prefix)
          → IsIn h (web_socket_server_hosts std config family)
            ↔ IsDialled std family config.peers h)
unfolding web_socket_server_hosts
web_socket_server_hosts-IsDialled std config family =
    let (d, all) = hosts_loop_cases std family config.peers [] tt in
    (d, λ h. (λ i. elim ((all h).0 i) [ inl k ↦ k | inr j ↦ absurd j ], λ k. (all h).1 (inl k)))
