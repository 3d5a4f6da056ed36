-- ===== src/Firewall/Local.antt =====
-- What is known of a packet that matches the conditions of a rule for DHCP or neighbour discovery.
use wireguard_windows.Base.{
  every, any, ℕ, ◌≤◌, Bool, true, List, [], ◌∷◌, ◌≡◌, ◌⊎◌, refl, inl, inr, IsIn, subst, sym, arith,
}
use wireguard_windows.Firewall.{
  ip_protocol, ip_local_port, ip_remote_port, uint8, uint16, Condition, Layer, equal,
  ip_remote_address,
}
use wireguard_windows.Firewall.Platform.{matches}
use wireguard_windows.Firewall.Narrow.{
  dhcp_v4_out, dhcp_v4_in, dhcp_v6_out, dhcp_v6_in, icmp_v6, ndp_definitions,
}

-- UDP between the ports of a DHCP client and a DHCP server.
pub record IsDhcp (meets : Condition → Bool) : Type 0 where
  pub udp : meets (equal ip_protocol (uint8 17)) ≡ true
  pub ports :
      ((meets (equal ip_local_port (uint16 68)) ≡ true)
        × (meets (equal ip_remote_port (uint16 67)) ≡ true))
      ⊎ ((meets (equal ip_local_port (uint16 546)) ≡ true)
          × (meets (equal ip_remote_port (uint16 547)) ≡ true))

-- A message of ICMPv6 with a type of neighbour discovery, 133 to 137, and code 0; these stand
-- where the ports of other packets stand.
pub record IsNdp (meets : Condition → Bool) : Type 0 where
  pub icmp : meets (equal ip_protocol (uint8 58)) ≡ true
  pub type : ℕ
  pub type_low : 133 ≤ type
  pub type_high : type ≤ 137
  pub typed : meets (equal ip_local_port (uint16 type)) ≡ true
  pub code : meets (equal ip_remote_port (uint16 0)) ≡ true

module _ (meets : Condition → Bool) where
  v4_out-IsDhcp : matches meets dhcp_v4_out ≡ true → IsDhcp meets
  unfolding every any
  v4_out-IsDhcp h = record { udp = ground arith; ports = inl (ground arith, ground arith) }

  v4_in-IsDhcp : matches meets dhcp_v4_in ≡ true → IsDhcp meets
  unfolding every any
  v4_in-IsDhcp h = record { udp = ground arith; ports = inl (ground arith, ground arith) }

  v6_out-IsDhcp : matches meets dhcp_v6_out ≡ true → IsDhcp meets
  unfolding every any
  v6_out-IsDhcp h = record { udp = ground arith; ports = inr (ground arith, ground arith) }

  v6_in-IsDhcp : matches meets dhcp_v6_in ≡ true → IsDhcp meets
  unfolding every any
  v6_in-IsDhcp h = record { udp = ground arith; ports = inr (ground arith, ground arith) }

  pub matches-IsDhcp :
      (cs : List Condition)
      → IsIn cs (dhcp_v4_out ∷ dhcp_v4_in ∷ dhcp_v6_out ∷ dhcp_v6_in ∷ [])
      → matches meets cs ≡ true
      → IsDhcp meets
  matches-IsDhcp cs (inl e) h = v4_out-IsDhcp (subst (λ x. matches meets x ≡ true) (sym e) h)
  matches-IsDhcp cs (inr (inl e)) h = v4_in-IsDhcp (subst (λ x. matches meets x ≡ true) (sym e) h)
  matches-IsDhcp cs (inr (inr (inl e))) h =
      v6_out-IsDhcp (subst (λ x. matches meets x ≡ true) (sym e) h)
  matches-IsDhcp cs (inr (inr (inr (inl e)))) h =
      v6_in-IsDhcp (subst (λ x. matches meets x ≡ true) (sym e) h)
  matches-IsDhcp cs (inr (inr (inr (inr i)))) h = absurd i

  -- A message of a type, with a condition on the remote address or without.
  bare-IsNdp :
      (type : ℕ) → 133 ≤ type → type ≤ 137 → matches meets (icmp_v6 type []) ≡ true → IsNdp meets
  unfolding every any
  bare-IsNdp type low high h = record {
    icmp = ground arith;
    type = type;
    type_low = low;
    type_high = high;
    typed = ground arith;
    code = ground arith;
  }

  addressed-IsNdp :
      (type : ℕ) (c : Condition)
      → c.field_key ≡ ip_remote_address
      → 133 ≤ type
      → type ≤ 137
      → matches meets (icmp_v6 type (c ∷ [])) ≡ true
      → IsNdp meets
  unfolding every any
  addressed-IsNdp type c k low high h =
      let q = rw k at h in
      record {
        icmp = ground arith;
        type = type;
        type_low = low;
        type_high = high;
        typed = ground arith;
        code = ground arith;
      }

  abbrev AreMet : List Condition × Layer → Type 0
  AreMet d = matches meets d.0 ≡ true

  pub matches-IsNdp : (d : List Condition × Layer) → IsIn d ndp_definitions → AreMet d → IsNdp meets
  matches-IsNdp d (inl e) h =
      addressed-IsNdp 133 _ refl (omega arith) (omega arith) (subst AreMet (sym e) h)
  matches-IsNdp d (inr (inl e)) h =
      addressed-IsNdp 134 _ refl (omega arith) (omega arith) (subst AreMet (sym e) h)
  matches-IsNdp d (inr (inr (inl e))) h =
      bare-IsNdp 135 (omega arith) (omega arith) (subst AreMet (sym e) h)
  matches-IsNdp d (inr (inr (inr (inl e)))) h =
      bare-IsNdp 135 (omega arith) (omega arith) (subst AreMet (sym e) h)
  matches-IsNdp d (inr (inr (inr (inr (inl e))))) h =
      bare-IsNdp 136 (omega arith) (omega arith) (subst AreMet (sym e) h)
  matches-IsNdp d (inr (inr (inr (inr (inr (inl e)))))) h =
      bare-IsNdp 136 (omega arith) (omega arith) (subst AreMet (sym e) h)
  matches-IsNdp d (inr (inr (inr (inr (inr (inr (inl e))))))) h =
      addressed-IsNdp 137 _ refl (omega arith) (omega arith) (subst AreMet (sym e) h)
  matches-IsNdp d (inr (inr (inr (inr (inr (inr (inr i))))))) h = absurd i
