-- ===== src/Tunnel/AddressConfig/Restricted.antt =====
-- tunnel/addressconfig.go: which configurations have a firewall that restricts.
use wireguard_windows.Base.{
  ℕ, Bool, true, false, List, [], ◌∷◌, any, ok, ◌≡◌, refl, sym, subst, inl, inr, arith, IsIn,
}
use wireguard_windows.Conf.Types.{Prefix, masked, Peer, Config}
use wireguard_windows.Conf.Config.{prefix_eq}
use wireguard_windows.Firewall.{Condition, Layer, Filter, permit, Os, Trace}
use wireguard_windows.Firewall.Atomic.{in_force_at}
use wireguard_windows.Firewall.Platform.{Decides}
use wireguard_windows.Firewall.Passes.{MayPass, enable_firewall-MayPass}
use wireguard_windows.Tunnel.Owned.{prefix_eq_refl}
use wireguard_windows.Tunnel.AddressConfig.{is_default, do_not_restrict, enable_tunnel_firewall}

-- An allowed IP of length 0 that is its own network.
abbrev pub IsWholeFamily : Prefix → Type 0
IsWholeFamily p = (p.bits ≡ 0) × (p ≡ masked p)

is_default-true : (p : Prefix) → IsWholeFamily p → is_default p ≡ true
unfolding is_default
is_default-true p h =
    let e : prefix_eq p (masked p) ≡ true =
      subst (λ q. prefix_eq p q ≡ true) h.1 (prefix_eq_refl p) in
    ground (arith, h.0)

any-true :
    (ps : List Prefix) (p : Prefix) → IsIn p ps → is_default p ≡ true → any is_default ps ≡ true
unfolding any
any-true [] p i h = absurd i
any-true (q ∷ ps) p (inl e) h =
    let d : is_default q ≡ true = subst (λ x. is_default x ≡ true) (sym e) h in ground arith
any-true (q ∷ ps) p (inr i) h = let d = any-true ps p i h in ground arith

do_not_restrict-false :
    (config : Config) (peer : Peer) (p : Prefix)
    → config.peers ≡ peer ∷ []
    → config.interface.table_off ≡ false
    → IsIn p peer.allowed_ips
    → IsWholeFamily p
    → do_not_restrict config ≡ false
unfolding do_not_restrict
do_not_restrict-false config peer p one table i h =
    let d = any-true peer.allowed_ips p i (is_default-true p h) in
    rw (one, do_not_restrict, table, d) refl

-- A tunnel whose only peer has a whole family of addresses among its allowed IPs, and whose
-- routes are not turned off: after its firewall was enabled where no filter was in force before, if
-- the filter that decides on a packet permits it, the packet is of the application and the user
-- that the system replies for the current process, goes to a name server of the configuration, over
-- loopback or over the tunnel, is of DHCP, between the ports of its clients and servers, or is a
-- message of ICMPv6 for neighbour discovery.
pub enable_tunnel_firewall-MayPass :
    (os : Os) (config : Config) (luid : ℕ) (t : Trace) {t' : Trace} {session : ℕ} (peer : Peer)
    (p : Prefix) (meets : Condition → Bool) (layer : Layer) (f : Filter)
    → config.peers ≡ peer ∷ []
    → config.interface.table_off ≡ false
    → IsIn p peer.allowed_ips
    → IsWholeFamily p
    → in_force_at t ≡ []
    → enable_tunnel_firewall os config luid 0 t ≡ ((ok tt, t'), session)
    → Decides meets layer (in_force_at t') f
    → f.action ≡ permit
    → MayPass os luid config.interface.dns meets layer
unfolding enable_tunnel_firewall
enable_tunnel_firewall-MayPass os config luid t peer p meets layer f one table i w none k d a =
    let restricts = do_not_restrict-false config peer p one table i w in
    enable_firewall-MayPass os luid config.interface.dns t meets layer f none (rw restricts at k) d
      a
