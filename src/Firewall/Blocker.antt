-- ===== src/Firewall/Blocker.antt =====
-- tunnel/firewall/blocker.go and `runTransaction` of tunnel/firewall/helpers.go. The variable
-- `wfpSession` is an argument and part of the result; 0 is no session.
use wireguard_windows.Base.{ℕ, ◌-◌, ◌^◌, Bool, not, List, if◌then◌else◌, ◌==◌, ok, err, panic}
use wireguard_windows.Base.Text.{is_empty}
use wireguard_windows.Conf.Types.{Addr}
use wireguard_windows.Firewall.{
  BaseObjects, engine_open, generate_guid, engine_close, transaction_begin, transaction_abort,
  transaction_commit, provider_add, sub_layer_add, Trace, Os, already_enabled, Outcome, Fw, pure,
  ◌>>=◌, ◌>>◌, call, request, attempt,
}
use wireguard_windows.Firewall.Rules.{
  permit_tun_interface, permit_wire_guard_service, permit_loopback, block_all,
}
use wireguard_windows.Firewall.Narrow.{permit_dhcp_ipv4, permit_dhcp_ipv6, permit_ndp}
use wireguard_windows.Firewall.Dns.{block_dns}

module _ (os : Os) where
  -- What follows an error inside a transaction: it is aborted, and the error stays.
  unfoldable pub or_abort : ℕ → Outcome (Unit {0}) → Outcome (Unit {0})
  or_abort session (ok u, t) = (ok u, t)
  or_abort session (err e, t) = (err e, attempt os (transaction_abort session) t)
  or_abort session (panic, t) = (panic, t)

  unfoldable pub run_transaction : ℕ → (ℕ → Fw (Unit {0})) → Fw (Unit {0})
  run_transaction session operation = do
    request os (transaction_begin session)
    (λ t. or_abort session (operation session t))
    (λ t. or_abort session (request os (transaction_commit session) t))

  unfoldable pub register_base_objects : ℕ → Fw BaseObjects
  register_base_objects session = do
    provider ← call os generate_guid
    filters ← call os generate_guid
    request os (provider_add session provider)
    request os (sub_layer_add session filters provider (2 ^ 16 - 1))
    pure (record { provider = provider; filters = filters })

  module _ (luid : ℕ) (do_not_restrict : Bool) (dns : List Addr) where
    unfoldable pub restrict_dns : ℕ → BaseObjects → Fw (Unit {0})
    restrict_dns session bo = if is_empty dns then pure tt else block_dns os session bo dns 15 14

    unfoldable pub restrict : ℕ → BaseObjects → Fw (Unit {0})
    restrict session bo = do
      restrict_dns session bo
      permit_loopback os session bo 13
      permit_tun_interface os session bo 12 luid
      permit_dhcp_ipv4 os session bo 12
      permit_dhcp_ipv6 os session bo 12
      permit_ndp os session bo 12
      block_all os session bo 0

    -- `objectInstaller`
    unfoldable pub object_installer : ℕ → Fw (Unit {0})
    object_installer session = do
      bo ← register_base_objects session
      permit_wire_guard_service os session bo 15
      (if do_not_restrict then pure tt else restrict session bo)

    -- What follows the transaction: a session that failed is closed.
    unfoldable pub keep_session : ℕ → Outcome (Unit {0}) → Outcome (Unit {0}) × ℕ
    keep_session session (ok u, t) = ((ok u, t), session)
    keep_session session (err e, t) = ((err e, attempt os (engine_close session) t), 0)
    keep_session session (panic, t) = ((panic, t), 0)

    unfoldable pub with_session : Outcome ℕ → Outcome (Unit {0}) × ℕ
    with_session (ok session, t) = keep_session session (run_transaction session object_installer t)
    with_session (err e, t) = ((err e, t), 0)
    with_session (panic, t) = ((panic, t), 0)

    -- `EnableFirewall`: the outcome, and `wfpSession` afterwards.
    unfoldable pub enable_firewall : ℕ → Trace → Outcome (Unit {0}) × ℕ
    enable_firewall wfp_session t =
        if not (wfp_session == 0)
        then ((err already_enabled, t), wfp_session)
        else with_session (call os engine_open t)

  -- `DisableFirewall`
  unfoldable pub disable_firewall : ℕ → Trace → Trace × ℕ
  disable_firewall wfp_session t =
      if not (wfp_session == 0)
      then (attempt os (engine_close wfp_session) t, 0)
      else (t, wfp_session)
