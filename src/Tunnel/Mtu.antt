-- ===== src/Tunnel/Mtu.antt =====
-- tunnel/mtumonitor.go: the MTU of the tunnel, after the one of the default route's interface.
pub mod Bounds
use wireguard_windows.Base.{
  ℕ, ◌-◌, ◌%◌, ◌^◌, max, Bool, true, false, not, ◌&&◌, List, [], ◌∷◌, Option, none, some,
  if◌then◌else◌, ltb, ◌==◌, set, Result, ok, err, panic,
}
use wireguard_windows.Driver.{Family, af_unspec, af_inet, af_inet6}
use wireguard_windows.Tunnel.{Row, find_default_luid}

abbrev pub min_mtu : Family → ℕ
min_mtu af_inet = 576
min_mtu af_inet6 = 1280
min_mtu af_unspec = 0

-- `lastLUID`, `lastIndex` and `lastMTU`
pub record MtuState : Type 0 where
  pub last_luid : ℕ
  pub last_index : ℕ
  pub last_mtu : ℕ

-- What the system replies during one call: the route table, the MTU of an interface, its own
-- interface, and the setting of that interface's MTU. No reply is `panic`.
pub record Replies : Type 0 where
  pub forward_table : Result ℕ (List Row)
  pub interface_mtu : ℕ → Result ℕ ℕ
  pub ip_interface : Result ℕ (Unit {0})
  pub set_reply : ℕ → Result ℕ (Unit {0})

-- The error, the state, and the MTU that was set and forced, if one was.
pub record Done : Type 0 where
  pub error : Option ℕ
  pub state : MtuState
  pub forced : Option ℕ

abbrev pub failed_with : ℕ → MtuState → Done
failed_with e s = record { error = some e; state = s; forced = none }

abbrev pub unchanged : MtuState → Done
unchanged s = record { error = none; state = s; forced = none }

-- uint32(max(int(mtu)-80, minMTU))
abbrev pub tunnel_mtu : Family → ℕ → ℕ
tunnel_mtu family mtu = max (mtu - 80) (min_mtu family) % 2 ^ 32

abbrev pub after_set : ℕ → ℕ → MtuState → Result ℕ (Unit {0}) → Done
after_set n mtu s (ok u) = record {
  error = none;
  state = record s { last_mtu = mtu };
  forced = some n;
}
after_set n mtu s (err e) = failed_with e s
after_set n mtu s panic = failed_with 0 s

abbrev pub set_on : Family → Replies → ℕ → MtuState → Result ℕ (Unit {0}) → Done
set_on family rep mtu s (ok u) =
    after_set (tunnel_mtu family mtu) mtu s (rep.set_reply (tunnel_mtu family mtu))
set_on family rep mtu s (err e) = failed_with e s
set_on family rep mtu s panic = failed_with 0 s

abbrev pub with_mtu : Family → Replies → MtuState → Result ℕ ℕ → Done
with_mtu family rep s (ok mtu) =
    if not (mtu == 0) && not (s.last_mtu == mtu)
    then set_on family rep mtu s rep.ip_interface
    else unchanged s
with_mtu family rep s (err e) = failed_with e s
with_mtu family rep s panic = failed_with 0 s

abbrev pub mtu_of : Replies → ℕ → Result ℕ ℕ
mtu_of rep luid = if luid == 0 then ok 0 else rep.interface_mtu luid

abbrev pub with_luid : Family → Replies → MtuState → Result ℕ (ℕ × ℕ) → Done
with_luid family rep s (ok (luid, index)) =
    with_mtu family rep (record s { last_luid = luid; last_index = index }) (mtu_of rep luid)
with_luid family rep s (err e) = failed_with e s
with_luid family rep s panic = failed_with 0 s

-- `doIt` of `monitorMTU`
unfoldable pub do_it : Family → ℕ → Replies → MtuState → Done
do_it family our_luid rep s =
    with_luid family rep s
      (find_default_luid rep.forward_table our_luid (s.last_luid, s.last_index))

-- The loop of `ForceMTU` over the MTUs of both families.
unfoldable pub smallest : List ℕ → ℕ → ℕ
smallest [] mtu = mtu
smallest (m ∷ mtus) mtu = smallest mtus (if not (m == 0) && ltb m mtu then m else mtu)

-- `familyMTUClamper.ForceMTU`: the MTUs afterwards, and the one that the device is given.
unfoldable pub force_mtu : ℕ → ℕ → List ℕ → List ℕ × ℕ
force_mtu index mtu mtus = let stored = set mtus index mtu in (stored, smallest stored mtu)
