-- ===== src/Tunnel/Halves.antt =====
-- `hasDefaultRoute`, against the allowed IPs as a set.
use wireguard_windows.Base.{Bool, true, false, ◌&&◌, ◌||◌, List, if◌then◌else◌, any, ◌≡◌}
use wireguard_windows.Conf.Types.{Prefix, prefix_from, Peer, Config}
use wireguard_windows.Conf.Config.{prefix_eq}
use wireguard_windows.Driver.{Family}
use wireguard_windows.Tunnel.{zero_of, half_of, Found}

abbrev pub default : Family → Prefix
default family = prefix_from (zero_of family) 0

abbrev pub lower : Family → Prefix
lower family = prefix_from (zero_of family) 1

abbrev pub upper : Family → Prefix
upper family = prefix_from (half_of family) 1

abbrev has : Prefix → List Prefix → Bool
has q ps = any (λ p. prefix_eq p q) ps

-- Some peer has this allowed IP.
unfoldable pub allows : Prefix → List Peer → Bool
allows q ps = any (λ p. has q p.allowed_ips) ps

-- Not two of the three prefixes at once.
abbrev AtMostOne : Bool → Bool → Bool → Type 0
AtMostOne a b c = ((a && b) ≡ false) × ((a && c) ≡ false) × ((b && c) ≡ false)

-- The three tests, one after the other or each by itself.
abbrev either : Found → Bool → Bool → Bool → Found
either f a b c = record { full = f.full || a; half0 = f.half0 || b; half1 = f.half1 || c }

abbrev marked : Found → Bool → Bool → Bool → Found
marked f a b c =
    if a
    then record f { full = true }
    else if b
    then record f { half0 = true }
    else if c
    then record f { half1 = true }
    else f

abbrev found : Bool → Bool → Bool → Found
found a b c = record { full = a; half0 = b; half1 = c }
