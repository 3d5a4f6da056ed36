-- ===== src/Conf/Name/Valid.antt =====
-- `TunnelNameIsValid`: what is left of its five tests.
use wireguard_windows.Base.{
  any, every, ℕ, Bool, true, false, not, ◌&&◌, ◌||◌, [], ◌∷◌, length, leb, ◌==◌, ◌≡◌, refl, arith,
}
use wireguard_windows.Base.Text.{Text, codes, has_prefix}
use wireguard_windows.Conf.Name.{
  special_chars, netshell_dll_forbidden, service_name_forbidden, last_is, is_allowed, is_reserved,
  has_special_chars, allowed_name_format, tunnel_name_is_valid,
}

-- The dot is neither first nor last.
abbrev pub first_is : ℕ → Text → Bool
first_is b [] = false
first_is b (c ∷ s) = c == b

-- Each byte of an allowed name passes the other three tests.
any_of_every :
    (p : ℕ → Bool)
    → ((c : ℕ) → is_allowed c ≡ true → p c ≡ false)
    → (s : Text) → every is_allowed s ≡ true
    → any p s ≡ false
unfolding any every
any_of_every p h [] e = refl
any_of_every p h (c ∷ s) e = ground (arith, h c, any_of_every p h s)

special_free : (c : ℕ) → is_allowed c ≡ true → special_chars c ≡ false
special_free c h = ground arith

netshell_free : (c : ℕ) → is_allowed c ≡ true → netshell_dll_forbidden c ≡ false
netshell_free c h = ground arith

service_free : (c : ℕ) → is_allowed c ≡ true → service_name_forbidden c ≡ false
service_free c h = ground arith

has_prefix-dot : (s : Text) → has_prefix s (codes ".") ≡ first_is b'.' s
unfolding has_prefix
has_prefix-dot [] = refl
has_prefix-dot (c ∷ s) = ground arith

-- Not the name of a device, 1 to 32 bytes of the class, no dot at either end.
unfoldable pub follows_name_rules : Text → Bool
follows_name_rules name =
    not (is_reserved name)
    && leb 1 (length name)
    && leb (length name) 32
    && every is_allowed name
    && not (first_is b'.' name)
    && not (last_is b'.' name)

has_special_chars_of_allowed :
    (name : Text)
    → every is_allowed name ≡ true
    → has_special_chars name ≡ (first_is b'.' name || last_is b'.' name)
has_special_chars_of_allowed name h =
    unfold has_special_chars in
    rw (
      any_of_every special_chars special_free name h,
      any_of_every netshell_dll_forbidden netshell_free name h,
      any_of_every service_name_forbidden service_free name h,
      has_prefix-dot,
    )

-- A name is valid exactly if it has 1 to 32 bytes, all of the class, does not begin or end with a
-- dot, and is not the name of a device: the three lists of forbidden bytes add nothing.
pub tunnel_name_is_valid-eq : (name : Text) → tunnel_name_is_valid name ≡ follows_name_rules name
unfolding tunnel_name_is_valid allowed_name_format follows_name_rules
tunnel_name_is_valid-eq name = ground (arith, has_special_chars_of_allowed name)
