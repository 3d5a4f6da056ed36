-- ===== src/Conf/Config.antt =====
-- conf/config.go: the operations on a whole configuration.
pub mod Routes
pub mod Distinct
pub mod Secrets
use wireguard_windows.Base.{
  any, every, ℕ, zero, suc, ◌+◌, ◌/◌, ◌%◌, ◌^◌, Bool, true, false, not, ◌&&◌, ◌||◌, List, [], ◌∷◌,
  ◌++◌, map, Option, none, some, if◌then◌else◌, ◌==◌, length, get_elem?, set, take, replicate,
}
use wireguard_windows.Base.Text.{Text, codes, text_eq}
use wireguard_windows.Base.Decimal.{decimal}
use wireguard_windows.Conf.Types.{
  Addr, none_addr, v4, v6, Prefix, bit_len, prefix_from, masked, Interface, Peer, Config,
  is_ws_none, zero_key, no_section_comments,
}
use wireguard_windows.Conf.Values.{Std}

-- The == of netip.Prefix.
unfoldable pub addr_eq : Addr → Addr → Bool
addr_eq none_addr none_addr = true
addr_eq (v4 a) (v4 b) = a == b
addr_eq (v6 a z) (v6 b w) = a == b && text_eq z w
addr_eq _ _ = false

unfoldable pub prefix_eq : Prefix → Prefix → Bool
prefix_eq p q = addr_eq p.addr q.addr && p.bits == q.bits

-- The address itself, as a route.
unfoldable pub host_route : Prefix → Prefix
host_route a = prefix_from a.addr (bit_len a.addr)

-- A lookup in the map `allRoutes`.
unfoldable pub has_route : List Prefix → Prefix → Bool
unfolding any
has_route routes r = any (λ q. prefix_eq q r) routes

address_routes : List Prefix → List Prefix
address_routes [] = []
address_routes (a ∷ rest) = host_route a ∷ masked a ∷ address_routes rest

peer_routes : List Peer → List Prefix
peer_routes [] = []
peer_routes (p ∷ ps) = map masked p.allowed_ips ++ peer_routes ps

-- The keys of `allRoutes`.
unfoldable pub all_routes : Config → List Prefix
unfolding address_routes peer_routes
all_routes c = address_routes c.interface.addresses ++ peer_routes c.peers

-- `IntersectsWith`
unfoldable pub intersects_with : Config → Config → Bool
unfolding all_routes any
intersects_with conf other =
    let routes = all_routes conf in
    any (λ a. has_route routes (host_route a) || has_route routes (masked a))
      other.interface.addresses
    || any (λ p. any (λ a. has_route routes (masked a)) p.allowed_ips) other.peers

-- `HasWebSocketPeers`
unfoldable pub has_web_socket_peers : Config → Bool
unfolding any
has_web_socket_peers c = any (λ p. not (is_ws_none p.ws_mode)) c.peers

unfoldable pub seen : Text → List Text → Bool
seen s [] = false
seen s (t ∷ ts) = text_eq t s || seen s ts

-- The loop of `DeduplicateNetworkEntries` over one slice, in place: `n` rounds are left, entry `k`
-- is read from the array as it is now, the entries kept so far stand below `i`.
module _ {A : Type 0} (name : A → Text) where
  dedup_step : A → ℕ → List Text → List A → ℕ × List Text × List A
  dedup_step a i m xs = if seen (name a) m then (i, m, xs) else (i + 1, name a ∷ m, set xs i a)

  dedup_loop : ℕ → ℕ → ℕ → List Text → List A → List A
  unfolding dedup_step
  dedup_loop zero k i m xs = take i xs
  dedup_loop (suc n) k i m xs = elim (get_elem? xs k) [
    | none ↦ take i xs
    | some a ↦ let (i', m', xs') = dedup_step a i m xs in dedup_loop n (k + 1) i' m' xs'
  ]

  unfoldable pub dedup : List A → List A
  unfolding dedup_loop seen
  dedup xs = dedup_loop (length xs) 0 0 [] xs

module _ (std : Std) where
  unfoldable pub prefix_string : Prefix → Text
  prefix_string p = std.addr_string p.addr ++ (b'/' ∷ decimal p.bits)

  unfoldable pub dedup_peer : Peer → Peer
  dedup_peer p = record p { allowed_ips = dedup prefix_string p.allowed_ips }

  -- `DeduplicateNetworkEntries`
  unfoldable pub deduplicate_network_entries : Config → Config
  unfolding dedup_peer
  deduplicate_network_entries c =
      let i = c.interface in
      record c {
        interface = record i {
          addresses = dedup prefix_string i.addresses;
          dns = dedup std.addr_string i.dns;
        };
        peers = map dedup_peer c.peers;
      }

-- binary.LittleEndian.PutUint64 of `n`, on `k` bytes.
unfoldable pub little_endian : ℕ → ℕ → List ℕ
little_endian zero n = []
little_endian (suc k) n = n % 256 ∷ little_endian k (n / 256)

unfoldable pub redact_peer : ℕ → Peer → Peer
unfolding little_endian
redact_peer i p = record p {
  public_key = little_endian 8 (i % 2 ^ 64) ++ replicate 24 0;
  preshared_key = zero_key;
  ws_bearer = [];
  comments = no_section_comments;
}

redact_peers : ℕ → List Peer → List Peer
redact_peers i [] = []
redact_peers i (p ∷ ps) = redact_peer i p ∷ redact_peers (i + 1) ps

-- `Redact`
unfoldable pub redact : Config → Config
unfolding redact_peers
redact c =
    let i = c.interface in
    record c {
      interface = record i {
        private_key = zero_key;
        pre_up = [];
        post_up = [];
        pre_down = [];
        post_down = [];
        comments = no_section_comments;
      };
      peers = redact_peers 0 c.peers;
      trailing_comments = [];
      ws_tls_files = [];
    }
