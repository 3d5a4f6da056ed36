-- ===== src/Firewall.antt =====
-- tunnel/firewall/: the filters that keep traffic from leaking past the tunnel, and the calls of
-- the filtering platform that install them. A process makes calls and gets replies, newest first
-- in a trace; `Os` says what the system replies. The names shown to the user and the wrapping of
-- errors with a line number are left out.
pub mod Rules
pub mod Narrow
pub mod Dns
pub mod Blocker
pub mod Platform
pub mod Runs
pub mod Calls
pub mod Met
pub mod Local
pub mod Installs
pub mod Leaks
pub mod Atomic
pub mod Passes
pub mod Denies
use wireguard_windows.Base.{ℕ, Bool, true, false, List, [], ◌∷◌, Result, ok, err, panic}

-- The GUIDs of the fields that a condition reads.
pub data FieldKey : Type 0 where
  ale_app_id ale_user_id ip_protocol ip_local_port ip_remote_port : FieldKey
  ip_local_address ip_remote_address ip_local_interface flags l2_flags : FieldKey

-- ICMP messages have their type and code where others have their ports.
abbrev pub icmp_type : FieldKey
icmp_type = ip_local_port

abbrev pub icmp_code : FieldKey
icmp_code = ip_remote_port

pub data MatchType : Type 0 where
  match_equal match_flags_all_set : MatchType

-- A tagged value; a pointer is the value that it points to, an address a number of 128 bits.
pub data Value : Type 0 where
  uint8 uint16 uint32 uint64 byte_blob security_descriptor byte_array16 : ℕ → Value
  v6_addr_mask : ℕ → ℕ → Value

pub record Condition : Type 0 where
  pub field_key : FieldKey
  pub match_type : MatchType
  pub value : Value

pub data Layer : Type 0 where
  auth_connect_v4 auth_recv_accept_v4 auth_connect_v6 auth_recv_accept_v6 : Layer
  outbound_mac_frame_native inbound_mac_frame_native : Layer

pub data Action : Type 0 where
  permit block : Action

-- `wtFwpmFilter0`
pub record Filter : Type 0 where
  pub provider_key : ℕ
  pub layer_key : Layer
  pub sub_layer_key : ℕ
  pub weight : ℕ
  pub clear_action_right : Bool
  pub conditions : List Condition
  pub action : Action

-- `baseObjects`
pub record BaseObjects : Type 0 where
  pub provider : ℕ
  pub filters : ℕ

-- The calls of the system. The last two stand for `getCurrentProcessAppID` and
-- `getCurrentProcessSecurityDescriptor`, which make calls only.
pub data Call : Type 0 where
  engine_open generate_guid : Call
  engine_close transaction_begin transaction_abort transaction_commit : ℕ → Call
  provider_add : ℕ → ℕ → Call
  sub_layer_add : ℕ → ℕ → ℕ → ℕ → Call
  filter_add : ℕ → Filter → Call
  current_process_app_id current_process_security_descriptor : Call

pub data Reply : Type 0 where
  done : ℕ → Reply
  failed : ℕ → Reply

abbrev pub Trace : Type 0
Trace = List (Call × Reply)

-- What the system replies to a call, given the calls before it.
abbrev pub Os : Type 0
Os = Trace → Call → Reply

pub data FirewallError : Type 0 where
  errno : ℕ → FirewallError
  already_enabled bad_weights : FirewallError

abbrev pub Outcome : Type 0 → Type 0
Outcome A = Result FirewallError A × Trace

abbrev pub Fw : Type 0 → Type 0
Fw A = Trace → Outcome A

abbrev pub pure : {A : Type 0} → A → Fw A
pure a t = (ok a, t)

abbrev pub raise : {A : Type 0} → FirewallError → Fw A
raise e t = (err e, t)

abbrev pub continue : {A B : Type 0} → Outcome A → (A → Fw B) → Outcome B
continue (ok a, t) f = f a t
continue (err e, t) f = (err e, t)
continue (panic, t) f = (panic, t)

infixl 5 ◌>>=◌ ◌>>◌
abbrev pub ◌>>=◌ : {A B : Type 0} → Fw A → (A → Fw B) → Fw B
(m >>= f) t = continue (m t) f

abbrev pub ◌>>◌ : {B : Type 0} → Fw (Unit {0}) → Fw B → Fw B
m >> n = m >>= λ _. n

abbrev pub answer : Reply → Call → Trace → Outcome ℕ
answer (done v) c t = (ok v, (c, done v) ∷ t)
answer (failed n) c t = (err (errno n), (c, failed n) ∷ t)

-- One call; an error of the system is passed on.
unfoldable pub call : Os → Call → Fw ℕ
call os c t = answer (os t c) c t

-- A call whose value is not used.
unfoldable pub request : Os → Call → Fw (Unit {0})
request os c = call os c >>= λ _. pure tt

-- A call whose error is not looked at.
unfoldable pub attempt : Os → Call → Trace → Trace
attempt os c t = (c, os t c) ∷ t

abbrev pub equal : FieldKey → Value → Condition
equal key v = record { field_key = key; match_type = match_equal; value = v }

-- A filter without conditions, of the sublayer of the base objects; its layer is set with each use.
abbrev pub blank : BaseObjects → ℕ → Action → Layer → Filter
blank bo weight action layer = record {
  provider_key = bo.provider;
  layer_key = layer;
  sub_layer_key = bo.filters;
  weight = weight;
  clear_action_right = false;
  conditions = [];
  action = action;
}
