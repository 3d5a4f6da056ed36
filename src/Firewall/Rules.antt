-- ===== src/Firewall/Rules.antt =====
-- tunnel/firewall/rules.go: the rules for the tunnel, the service, loopback and all the rest.
use wireguard_windows.Base.{ℕ, true, List, [], ◌∷◌}
use wireguard_windows.Firewall.{
  ale_app_id, ale_user_id, ip_local_interface, flags, l2_flags, match_flags_all_set, uint32, uint64,
  byte_blob, security_descriptor, Condition, auth_connect_v4, auth_recv_accept_v4, auth_connect_v6,
  auth_recv_accept_v6, outbound_mac_frame_native, inbound_mac_frame_native, Layer, permit, block,
  Filter, BaseObjects, filter_add, current_process_app_id, current_process_security_descriptor, Os,
  Fw, ◌>>=◌, ◌>>◌, call, request, equal, blank,
}

abbrev pub tun_condition : ℕ → Condition
tun_condition if_luid = equal ip_local_interface (uint64 if_luid)

abbrev pub loopback_condition : Condition
loopback_condition = record {
  field_key = flags;
  match_type = match_flags_all_set;
  value = uint32 1;
}

abbrev pub service_conditions : ℕ → ℕ → List Condition
service_conditions app_id sd =
    equal ale_app_id (byte_blob app_id) ∷ equal ale_user_id (security_descriptor sd) ∷ []

-- cFWP_CONDITION_L2_IS_VM2VM
abbrev pub vm2vm : ℕ
vm2vm = 0x10

module _ (os : Os) (session : ℕ) (bo : BaseObjects) (weight : ℕ) where
  -- fwpmFilterAdd0 of one filter at a layer.
  unfoldable pub add_at : (Layer → Filter) → Layer → Fw (Unit {0})
  add_at filter layer = request os (filter_add session (filter layer))

  -- The same filter outbound and inbound, for IPv4 and IPv6.
  unfoldable pub add_everywhere : (Layer → Filter) → Fw (Unit {0})
  add_everywhere filter = do
    add_at filter auth_connect_v4
    add_at filter auth_recv_accept_v4
    add_at filter auth_connect_v6
    add_at filter auth_recv_accept_v6

  unfoldable pub permit_tun_interface : ℕ → Fw (Unit {0})
  permit_tun_interface if_luid =
      add_everywhere
        λ layer. record (blank bo weight permit layer) { conditions = tun_condition if_luid ∷ [] }

  abbrev pub service_filter : ℕ → ℕ → Layer → Filter
  service_filter app_id sd layer = record (blank bo weight permit layer) {
    clear_action_right = true;
    conditions = service_conditions app_id sd;
  }

  unfoldable pub permit_wire_guard_service : Fw (Unit {0})
  permit_wire_guard_service = do
    app_id ← call os current_process_app_id
    sd ← call os current_process_security_descriptor
    add_everywhere (service_filter app_id sd)

  unfoldable pub permit_loopback : Fw (Unit {0})
  permit_loopback =
      add_everywhere
        λ layer. record (blank bo weight permit layer) { conditions = loopback_condition ∷ [] }

  -- Not called.
  unfoldable pub permit_hyper_v : Fw (Unit {0})
  permit_hyper_v = do
    let filter : Layer → Filter = λ layer. record (blank bo weight permit layer) {
      conditions = equal l2_flags (uint32 vm2vm) ∷ [];
    }
    add_at filter outbound_mac_frame_native
    add_at filter inbound_mac_frame_native

  unfoldable pub block_all : Fw (Unit {0})
  block_all = add_everywhere (blank bo weight block)
