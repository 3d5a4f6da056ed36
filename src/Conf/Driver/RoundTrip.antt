-- ===== src/Conf/Driver/RoundTrip.antt =====
-- What `FromDriverConfiguration` reads of the buffer that `ToDriverConfiguration` filled.
use wireguard_windows.Base.{ℕ, ◌^◌, ◌<◌, [], Option, none, some, length, All, if◌then◌else◌, ◌==◌}
use wireguard_windows.Base.Text.{Text}
use wireguard_windows.Base.Decimal.{decimal}
use wireguard_windows.Conf.Types.{
  Addr, none_addr, v4, v6, Endpoint, Key, Peer, Interface, empty_peer, empty_endpoint,
  no_section_comments,
}
use wireguard_windows.Conf.Values.{Std}
use wireguard_windows.Conf.Driver.{resolved}
use wireguard_windows.Conf.Driver.Peers.{IsPlain}
use wireguard_windows.Driver.{scope_of}

-- What the driver and the configuration `existing` keep of the interface.
abbrev pub kept_interface : Interface → Interface → Interface
kept_interface existing i = record existing {
  private_key = i.private_key;
  listen_port = i.listen_port;
  comments = no_section_comments;
}

module _ (std : Std) where
  -- An address as the driver keeps it: a zone that is no number is lost.
  abbrev kept_zone : ℕ → Text
  kept_zone scope = if scope == 0 then [] else decimal scope

  abbrev kept_endpoint : Option Addr → ℕ → Endpoint
  kept_endpoint none port = empty_endpoint
  kept_endpoint (some none_addr) port = record { host = std.addr_string none_addr; port = 0 }
  kept_endpoint (some (v4 n)) port = record { host = std.addr_string (v4 n); port = port }
  kept_endpoint (some (v6 n zone)) port = record {
    host = std.addr_string (v6 n (kept_zone (scope_of zone)));
    port = port;
  }

  abbrev kept_with : Peer → Key → Option Addr → Peer
  kept_with p preshared_key endpoint_addr = record empty_peer {
    public_key = p.public_key;
    preshared_key = preshared_key;
    allowed_ips = p.allowed_ips;
    endpoint = kept_endpoint endpoint_addr p.endpoint.port;
    persistent_keepalive = p.persistent_keepalive;
  }

  -- What the driver keeps of a peer.
  abbrev pub kept_peer : Peer → Peer
  kept_peer p = kept_with p p.preshared_key (resolved std p.endpoint)

  -- A peer whose allowed IPs are addresses with their prefix, fewer than 2^32.
  abbrev pub IsPlainPeer : Peer → Type 0
  IsPlainPeer p = (length p.allowed_ips < 2 ^ 32) × All IsPlain p.allowed_ips
