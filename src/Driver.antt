-- ===== src/Driver.antt =====
-- driver/configuration_windows.go: the records that the driver reads and writes, one behind the
-- other in a buffer, and the walk over them; and the socket address of tunnel/winipcfg/types.go.
-- A pointer into the buffer is the number of records before it.
use wireguard_windows.Base.{
  ℕ, zero, suc, ◌+◌, ◌*◌, ◌/◌, ◌%◌, ◌^◌, Bool, List, [], ◌∷◌, ◌++◌, Option, none, some,
  if◌then◌else◌, ◌==◌,
}
use wireguard_windows.Base.Text.{Text, is_empty}
use wireguard_windows.Base.Decimal.{parse_uint, decimal}
use wireguard_windows.Conf.Types.{Addr, none_addr, v4, v6, Key}

pub data Family : Type 0 where
  af_unspec af_inet af_inet6 : Family

-- A number as `k` bytes, the most significant first, and back.
unfoldable pub bytes_of : ℕ → ℕ → List ℕ
bytes_of zero n = []
bytes_of (suc k) n = bytes_of k (n / 256) ++ n % 256 ∷ []

unfoldable pub number_from : ℕ → List ℕ → ℕ
number_from acc [] = acc
number_from acc (c ∷ cs) = number_from (acc * 256 + c) cs

-- `RawSockaddrInet`, with the members of the two families.
pub record Sockaddr : Type 0 where
  pub family : Family
  pub address : ℕ
  pub port : ℕ
  pub scope_id : ℕ

abbrev pub no_sockaddr : Sockaddr
no_sockaddr = record { family = af_unspec; address = 0; port = 0; scope_id = 0 }

abbrev scope_or_0 : Option ℕ → ℕ
scope_or_0 none = 0
scope_or_0 (some s) = s

-- A zone that is no number is dropped.
unfoldable pub scope_of : Text → ℕ
scope_of zone = if is_empty zone then 0 else scope_or_0 (parse_uint 32 zone)

-- `SetAddrPort` on a zeroed address.
unfoldable pub set_addr_port : Addr → ℕ → Sockaddr
set_addr_port none_addr port = no_sockaddr
set_addr_port (v4 n) port = record { family = af_inet; address = n; port = port; scope_id = 0 }
set_addr_port (v6 n zone) port = record {
  family = af_inet6;
  address = n;
  port = port;
  scope_id = scope_of zone;
}

unfoldable pub addr_of : Family → Sockaddr → Addr
addr_of af_inet a = v4 a.address
addr_of af_inet6 a = v6 a.address (if a.scope_id == 0 then [] else decimal a.scope_id)
addr_of af_unspec a = none_addr

unfoldable pub port_of : Family → Sockaddr → ℕ
port_of af_unspec a = 0
port_of _ a = a.port

pub record AllowedIp : Type 0 where
  pub address : List ℕ
  pub address_family : Family
  pub cidr : ℕ

pub record DriverPeer : Type 0 where
  pub flags : ℕ
  pub public_key : Key
  pub preshared_key : Key
  pub persistent_keepalive : ℕ
  pub endpoint : Sockaddr
  pub tx_bytes : ℕ
  pub rx_bytes : ℕ
  pub last_handshake : ℕ
  pub allowed_ips_count : ℕ

pub record DriverInterface : Type 0 where
  pub flags : ℕ
  pub listen_port : ℕ
  pub private_key : Key
  pub peer_count : ℕ

abbrev pub peer_has_public_key : ℕ
peer_has_public_key = 1

abbrev pub peer_has_preshared_key : ℕ
peer_has_preshared_key = 2

abbrev pub peer_has_persistent_keepalive : ℕ
peer_has_persistent_keepalive = 4

abbrev pub peer_has_endpoint : ℕ
peer_has_endpoint = 8

abbrev pub interface_has_private_key : ℕ
interface_has_private_key = 2

abbrev pub interface_has_listen_port : ℕ
interface_has_listen_port = 4

-- flags & flag != 0, for a flag of one bit.
abbrev pub has_flag : ℕ → ℕ → Bool
has_flag flags flag = flags / flag % 2 == 1

pub data Item : Type 0 where
  interface_item : DriverInterface → Item
  peer_item : DriverPeer → Item
  allowed_ip_item : AllowedIp → Item

-- unsafe.Sizeof of the records.
abbrev pub size_of : Item → ℕ
size_of (interface_item i) = 80
size_of (peer_item p) = 136
size_of (allowed_ip_item a) = 24

-- `ConfigBuilder`, whose buffer is nil until something is reserved or appended.
abbrev pub Builder : Type 0
Builder = Option (List Item)

unfoldable pub preallocate : ℕ → Builder → Builder
preallocate size none = some []
preallocate size (some items) = some items

-- `AppendInterface`, `AppendPeer` and `AppendAllowedIP`
unfoldable pub append_item : Item → Builder → Builder
append_item item none = some (item ∷ [])
append_item item (some items) = some (items ++ item ∷ [])

unfoldable pub byte_length : List Item → ℕ
byte_length [] = 0
byte_length (item ∷ items) = size_of item + byte_length items

-- `Interface`: the buffer, and its length as a `uint32`.
unfoldable pub build : Builder → Option (List Item) × ℕ
build none = (none, 0)
build (some items) = (some items, byte_length items % 2 ^ 32)

-- The peers of an interface at `i`, and the allowed IPs of a peer at `i`.
abbrev pub first_peer : ℕ → ℕ
first_peer i = i + 1

abbrev pub next_peer : ℕ → DriverPeer → ℕ
next_peer i p = i + 1 + p.allowed_ips_count

abbrev pub first_allowed_ip : ℕ → ℕ
first_allowed_ip i = i + 1

abbrev pub next_allowed_ip : ℕ → ℕ
next_allowed_ip i = i + 1

-- What stands at a pointer; another record, or the end, is no such record.
abbrev pub peer_of : Option Item → Option DriverPeer
peer_of (some (peer_item p)) = some p
peer_of _ = none

abbrev pub allowed_ip_of : Option Item → Option AllowedIp
allowed_ip_of (some (allowed_ip_item a)) = some a
allowed_ip_of _ = none
