-- ===== src/Tunnel/AddressConfig/Retries.antt =====
-- tunnel/addressconfig.go: the loop of `configureInterface`.
use wireguard_windows.Base.{
  ℕ, zero, suc, ◌+◌, ◌-◌, ◌≤◌, ◌<◌, Bool, true, false, not, ◌&&◌, [], ◌∷◌, Option, none, some,
  if◌then◌else◌, ◌==◌, ◌≡◌, refl, subst, ◌⊎◌, inl, inr, arith, Bool-cases,
}
use wireguard_windows.Conf.Types.{Config}
use wireguard_windows.Driver.{Family}
use wireguard_windows.Tunnel.AddressConfig.{
  not_found, object_already_exists, other, Errno, Call, set_routes_for_family,
  set_ip_addresses_for_family, clean_up, ip_interface, set_interface, set_dns, sleep, Trace, System,
  goes_on, start_over, fails, Ending, Part, and_then, nothing, ending, called, is_already_exists,
  set_addresses, of_family, found, found_address, routes_part, addresses_part, interface_row,
  interface_part, dns_part, attempt, retries, pause, configure_loop, configure_interface,
}

-- How often the code has slept.
unfoldable pub sleeps : Trace → ℕ
sleeps [] = 0
sleeps ((sleep, e) ∷ t) = sleeps t + 1
sleeps (_ ∷ t) = sleeps t

abbrev MayStartOver : Bool → Ending → Type 0
MayStartOver retry start_over = retry ≡ true
MayStartOver retry goes_on = Unit
MayStartOver retry (fails e) = Unit

-- A part that sleeps no time, and starts over only if failures are tried again.
abbrev IsAwake : Bool → ℕ → Ending × Trace → Type 0
IsAwake retry n (e, t) = MayStartOver retry e × (sleeps t ≡ n)

ending-MayStartOver :
    (retry : Bool) (reply : Option Errno) → MayStartOver retry (ending retry reply)
ending-MayStartOver retry none = tt
ending-MayStartOver true (some not_found) = refl
ending-MayStartOver false (some not_found) = tt
ending-MayStartOver retry (some object_already_exists) = tt
ending-MayStartOver retry (some (other e)) = tt

and_then-IsAwake :
    (retry : Bool) (n : ℕ) (next : Part) (before : Ending × Trace)
    → ((t : Trace) → sleeps t ≡ n → IsAwake retry n (next t))
    → IsAwake retry n before
    → IsAwake retry n (and_then next before)
and_then-IsAwake retry n next (goes_on, t) h b = h t b.1
and_then-IsAwake retry n next (start_over, t) h b = b
and_then-IsAwake retry n next (fails e, t) h b = b

MayStartOver-weaken : (retry : Bool) (e : Ending) → MayStartOver false e → MayStartOver retry e
MayStartOver-weaken retry start_over h = cc
MayStartOver-weaken retry goes_on h = tt
MayStartOver-weaken retry (fails e) h = tt

if-IsAwake :
    (retry : Bool) (n : ℕ) (b : Bool) (x y : Ending × Trace)
    → IsAwake retry n x
    → IsAwake retry n y
    → IsAwake retry n (if b then x else y)
if-IsAwake retry n true x y h k = h
if-IsAwake retry n false x y h k = k

called-IsAwake :
    (sys : System) (retry : Bool) (n : ℕ) (c : Call) (t : Trace)
    → ((e : Option Errno) → sleeps ((c, e) ∷ t) ≡ n)
    → IsAwake retry n (called sys retry c t)
unfolding called
called-IsAwake sys retry n c t quiet = (ending-MayStartOver retry (sys t c), quiet (sys t c))

module _ (sys : System) (family : Family) (config : Config) (retry : Bool) (n : ℕ) where
  routes_part-IsAwake :
      (t : Trace) → sleeps t ≡ n → IsAwake retry n (routes_part sys family config retry t)
  unfolding routes_part sleeps
  routes_part-IsAwake t e =
      let routes = found sys family config retry in
      let c = set_routes_for_family family routes.routes in
      if-IsAwake retry n
        (not config.interface.table_off && of_family family routes.route4 routes.route6)
        (called sys retry c t) (nothing t) (called-IsAwake sys retry n c t (λ r. e)) (tt, e)

  addresses_part-IsAwake :
      (t : Trace) → sleeps t ≡ n → IsAwake retry n (addresses_part sys family config retry t)
  unfolding addresses_part set_addresses sleeps
  addresses_part-IsAwake t e =
      let addresses = config.interface.addresses in
      let c = set_ip_addresses_for_family family addresses in
      let cleaned : Trace =
        (clean_up family addresses, none) ∷ (c, some object_already_exists) ∷ t in
      if-IsAwake retry n (found_address sys family config retry)
        (set_addresses sys retry family addresses t) (nothing t)
        (if-IsAwake retry n (is_already_exists (sys t c)) (called sys retry c cleaned)
          (called sys retry c t) (called-IsAwake sys retry n c cleaned (λ r. e))
          (called-IsAwake sys retry n c t (λ r. e)))
        (tt, e)

  interface_part-IsAwake :
      (t : Trace) → sleeps t ≡ n → IsAwake retry n (interface_part sys family config retry t)
  unfolding interface_part sleeps
  interface_part-IsAwake t e =
      let c = set_interface (interface_row sys family config retry) in
      let (over, awake) = called-IsAwake sys false n (ip_interface family) t (λ r. e) in
      and_then-IsAwake retry n (called sys retry c) (called sys false (ip_interface family) t)
        (λ t e. called-IsAwake sys retry n c t (λ r. e))
        (MayStartOver-weaken retry (called sys false (ip_interface family) t).0 over, awake)

  attempt-IsAwake : (t : Trace) → sleeps t ≡ n → IsAwake retry n (attempt sys family config retry t)
  unfolding attempt dns_part sleeps
  attempt-IsAwake t e =
      let routes = routes_part sys family config retry t in
      let addresses = and_then (addresses_part sys family config retry) routes in
      let row = and_then (interface_part sys family config retry) addresses in
      and_then-IsAwake retry n (dns_part sys family config retry) row
        (λ t e.
          called-IsAwake sys retry n
            (set_dns family config.interface.dns config.interface.dns_search) t (λ r. e))
        (and_then-IsAwake retry n (interface_part sys family config retry) addresses
          interface_part-IsAwake
          (and_then-IsAwake retry n (addresses_part sys family config retry) routes
            addresses_part-IsAwake (routes_part-IsAwake t e)))

sleeps-pause : (tries : ℕ) (t : Trace) → sleeps (pause (tries + 1) t) ≡ sleeps t + 1
unfolding sleeps
sleeps-pause tries t = elim (Bool-cases (tries + 1 == 0)) [
  | inl y ↦ absurd (ground arith)
  | inr n ↦ rw n refl
]

retries-lt : (tries : ℕ) (retry : Bool) → retries tries retry ≡ true → tries < 15
retries-lt tries retry h = ground arith

Ending-cases : (e : Ending) → (e ≡ goes_on) ⊎ ((e ≡ start_over) ⊎ ((k : Errno) × (e ≡ fails k)))
Ending-cases goes_on = inl refl
Ending-cases start_over = inr (inl refl)
Ending-cases (fails k) = inr (inr (k, refl))

-- The loop ends, and has slept at most this often.
abbrev EndsWithin : ℕ → Option (Option Errno) × Trace → Type 0
EndsWithin n (r, t) = ((outcome : Option Errno) × (r ≡ some outcome)) × (sleeps t ≤ n)

module _ (sys : System) (family : Family) (config : Config) where
  configure_loop-EndsWithin :
      (fuel tries : ℕ) (retry : Bool) (t : Trace)
      → tries < 16
      → 16 ≤ fuel + tries
      → EndsWithin
          (sleeps (pause tries t) + (15 - tries))
          (configure_loop fuel sys family config tries retry t)
  unfolding configure_loop
  configure_loop-EndsWithin zero tries retry t h k = absurd (omega (arith, h, k))
  configure_loop-EndsWithin (suc fuel) tries retry t h k =
      let again = retries tries retry in
      let a = attempt sys family config again (pause tries t) in
      let awake =
        attempt-IsAwake sys family config again (sleeps (pause tries t)) (pause tries t) refl in
      elim (Ending-cases a.0) [
        | inl e ↦ rw (e, configure_loop) ((none, refl), omega (arith, awake.1))
        | inr (inr (f, e)) ↦ rw (e, configure_loop) ((some f, refl), omega (arith, awake.1))
        | inr (inl e) ↦
            let few = retries-lt tries retry (subst (MayStartOver again) e awake.0) in
            let (ends, slept) =
              configure_loop-EndsWithin fuel (tries + 1) again a.1 (omega (arith, few))
                (omega (arith, k)) in
            rw (e, configure_loop)
              (ends, omega (arith, slept, sleeps-pause tries a.1, awake.1, few))
      ]

-- `configureInterface` returns, with success or with an error, whatever the system replies, and it
-- sleeps at most 15 times.
pub configure_interface-EndsWithin :
    (sys : System) (family : Family) (config : Config) (started_at_boot : Bool)
    → EndsWithin 15 (configure_interface sys family config started_at_boot [])
unfolding configure_interface sleeps
configure_interface-EndsWithin sys family config started_at_boot =
    configure_loop-EndsWithin sys family config 16 0 started_at_boot [] (omega arith) (omega arith)
