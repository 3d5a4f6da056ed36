-- ===== src/Firewall/Met.antt =====
-- What is known of a packet that meets the conditions of a rule.
use wireguard_windows.Base.{
  every, any, ℕ, Bool, true, ◌&&◌, List, [], ◌∷◌, ◌++◌, ◌==◌, ◌≡◌, ◌≢◌, refl, inl, inr, All, IsIn,
  subst, sym, Bool-cases, arith,
}
use wireguard_windows.Conf.Types.{Addr, none_addr, v4, v6}
use wireguard_windows.Firewall.{
  current_process_app_id, current_process_security_descriptor, uint32, byte_array16, Condition,
  ip_remote_address, ale_app_id, ale_user_id, byte_blob, security_descriptor, equal, Os,
}
use wireguard_windows.Base.Text.{Text}
use wireguard_windows.Firewall.Calls.{Replies}
use wireguard_windows.Firewall.Platform.{matches, key_number}
use wireguard_windows.Firewall.Rules.{service_conditions}
use wireguard_windows.Firewall.Dns.{deny_conditions, conditions_v4, conditions_v6}

-- The packet is the service's own: of the application and the user that the system replies of the
-- process that asks.
pub data IsOfService (os : Os) (meets : Condition → Bool) : Type 0 where
  of_service :
      (app_id sd : ℕ)
      → Replies os current_process_app_id app_id
      → Replies os current_process_security_descriptor sd
      → meets (equal ale_app_id (byte_blob app_id)) ≡ true
      → meets (equal ale_user_id (security_descriptor sd)) ≡ true
      → IsOfService os meets

-- The remote address is that of a name server of the tunnel.
pub data IsToServer (dns : List Addr) (meets : Condition → Bool) : Type 0 where
  to_v4 :
      (n : ℕ)
      → IsIn (v4 n) dns
      → meets (equal ip_remote_address (uint32 n)) ≡ true
      → IsToServer dns meets
  to_v6 :
      (n : ℕ) (zone : Text)
      → IsIn (v6 n zone) dns
      → meets (equal ip_remote_address (byte_array16 n)) ≡ true
      → IsToServer dns meets

pub every-IsIn :
    {A : Type 0} (p : A → Bool) (xs : List A) {a : A} → every p xs ≡ true → IsIn a xs → p a ≡ true
unfolding every
every-IsIn p [] h i = absurd i
every-IsIn p (x ∷ xs) {a} h (inl e) =
    let first : p x ≡ true = ground arith in subst (λ y. p y ≡ true) e first
every-IsIn p (x ∷ xs) h (inr i) = every-IsIn p xs (ground arith) i

any-IsIn :
    {A : Type 0} (p : A → Bool) (xs : List A) → any p xs ≡ true → (a : A) × IsIn a xs × (p a ≡ true)
unfolding any
any-IsIn p [] h = cc
any-IsIn p (x ∷ xs) h = elim (Bool-cases (p x)) [
  | inl y ↦ (x, inl refl, y)
  | inr n ↦ let (a, i, e) = any-IsIn p xs (rw n at h) in (a, inr i, e)
]

module _ (meets : Condition → Bool) where
  pub matches-one : (c : Condition) → matches meets (c ∷ []) ≡ true → meets c ≡ true
  unfolding every any
  matches-one c h = ground arith

  pub matches-service :
      (os : Os) (app_id sd : ℕ)
      → Replies os current_process_app_id app_id
      → Replies os current_process_security_descriptor sd
      → matches meets (service_conditions app_id sd) ≡ true
      → IsOfService os meets
  unfolding every any
  matches-service os app_id sd r q h = of_service app_id sd r q (ground arith) (ground arith)

  also : (a : Addr) (dns : List Addr) → IsToServer dns meets → IsToServer (a ∷ dns) meets
  also a dns (to_v4 n i e) = to_v4 n (inr i) e
  also a dns (to_v6 n zone i e) = to_v6 n zone (inr i) e

  pub conditions_v4-IsToServer :
      (dns : List Addr) (c : Condition)
      → IsIn c (conditions_v4 dns)
      → meets c ≡ true
      → IsToServer dns meets
  unfolding conditions_v4
  conditions_v4-IsToServer [] c i e = absurd i
  conditions_v4-IsToServer (v4 n ∷ dns) c (inl q) e =
      to_v4 n (inl refl) (subst (λ x. meets x ≡ true) (sym q) e)
  conditions_v4-IsToServer (v4 n ∷ dns) c (inr i) e =
      also (v4 n) dns (conditions_v4-IsToServer dns c i e)
  conditions_v4-IsToServer (v6 n zone ∷ dns) c i e =
      also (v6 n zone) dns (conditions_v4-IsToServer dns c i e)
  conditions_v4-IsToServer (none_addr ∷ dns) c i e =
      also none_addr dns (conditions_v4-IsToServer dns c i e)

  pub conditions_v6-IsToServer :
      (dns : List Addr) (c : Condition)
      → IsIn c (conditions_v6 dns)
      → meets c ≡ true
      → IsToServer dns meets
  unfolding conditions_v6
  conditions_v6-IsToServer [] c i e = absurd i
  conditions_v6-IsToServer (v6 n zone ∷ dns) c (inl q) e =
      to_v6 n zone (inl refl) (subst (λ x. meets x ≡ true) (sym q) e)
  conditions_v6-IsToServer (v6 n zone ∷ dns) c (inr i) e =
      also (v6 n zone) dns (conditions_v6-IsToServer dns c i e)
  conditions_v6-IsToServer (v4 n ∷ dns) c i e = also (v4 n) dns (conditions_v6-IsToServer dns c i e)
  conditions_v6-IsToServer (none_addr ∷ dns) c i e =
      also none_addr dns (conditions_v6-IsToServer dns c i e)

  -- Conditions on the remote address behind those on the port and the protocol: one of them is met.
  pub matches-server :
      (cs : List Condition)
      → cs ≢ []
      → All (λ c. c.field_key ≡ ip_remote_address) cs
      → matches meets (deny_conditions ++ cs) ≡ true
      → (c : Condition) × IsIn c cs × (meets c ≡ true)
  matches-server [] ne k h = absurd (ne refl)
  matches-server (c ∷ cs) ne k h =
      let all = deny_conditions ++ c ∷ cs in
      let found =
        every-IsIn (λ x. any (λ d. key_number x.field_key == key_number d.field_key && meets d) all)
          all h (inr (inr (inr (inl refl)))) in
      let (d, i, e) =
        any-IsIn (λ d. key_number c.field_key == key_number d.field_key && meets d) all found in
      let met : meets d ≡ true = ground arith in
      let tested : (key_number c.field_key == key_number d.field_key) ≡ true = ground arith in
      let key : (6 == key_number d.field_key) ≡ true =
        subst (λ f. (key_number f == key_number d.field_key) ≡ true) k.0 tested in
      (d, behind d i key, met)
    where
      behind :
          (d : Condition)
          → IsIn d (deny_conditions ++ c ∷ cs)
          → (6 == key_number d.field_key) ≡ true
          → IsIn d (c ∷ cs)
      behind d (inl q) e =
          let f : (6 == 4) ≡ true = subst (λ y. (6 == key_number y.field_key) ≡ true) (sym q) e in
          cc
      behind d (inr (inl q)) e =
          let f : (6 == 2) ≡ true = subst (λ y. (6 == key_number y.field_key) ≡ true) (sym q) e in
          cc
      behind d (inr (inr (inl q))) e =
          let f : (6 == 2) ≡ true = subst (λ y. (6 == key_number y.field_key) ≡ true) (sym q) e in
          cc
      behind d (inr (inr (inr i))) e = i
