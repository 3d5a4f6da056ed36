-- ===== src/Firewall/Platform.antt =====
-- What the filtering platform documents of the calls that `Firewall` makes: transactions, and the
-- choice among the filters of a sublayer. It is the specification that the rules are read by.
use wireguard_windows.Base.{
  any, every, ℕ, ◌≤◌, Bool, true, false, ◌&&◌, List, [], ◌∷◌, ◌++◌, ◌==◌, ◌≡◌, IsIn,
}
use wireguard_windows.Firewall.{
  FieldKey, ale_app_id, ale_user_id, ip_protocol, ip_local_port, ip_remote_port, ip_local_address,
  ip_remote_address, ip_local_interface, flags, l2_flags, Condition, Layer, Filter, Call,
  engine_close, transaction_begin, transaction_abort, transaction_commit, filter_add, Reply, done,
  Trace,
}

-- The filters that hold, those of a transaction that is not committed, and whether there is one.
pub record Status : Type 0 where
  pub in_force : List Filter
  pub pending : List Filter
  pub in_transaction : Bool

-- A filter that is added outside a transaction holds at once.
abbrev pub add_filter : Filter → Bool → Status → Status
add_filter f true st = record st { pending = f ∷ st.pending }
add_filter f false st = record st { in_force = f ∷ st.in_force }

-- A call that succeeds changes the status; a session is dynamic, so that its filters go with it.
abbrev pub after : Call → Reply → Status → Status
after (filter_add s f) (done v) st = add_filter f st.in_transaction st
after (transaction_begin s) (done v) st = record st { pending = []; in_transaction = true }
after (transaction_abort s) (done v) st = record st { pending = []; in_transaction = false }
after (transaction_commit s) (done v) st = record {
  in_force = st.pending ++ st.in_force;
  pending = [];
  in_transaction = false;
}
after (engine_close s) (done v) st = record { in_force = []; pending = []; in_transaction = false }
after _ _ st = st

abbrev pub status : Trace → Status
status [] = record { in_force = []; pending = []; in_transaction = false }
status ((c, r) ∷ t) = after c r (status t)

abbrev pub key_number : FieldKey → ℕ
key_number ale_app_id = 0
key_number ale_user_id = 1
key_number ip_protocol = 2
key_number ip_local_port = 3
key_number ip_remote_port = 4
key_number ip_local_address = 5
key_number ip_remote_address = 6
key_number ip_local_interface = 7
key_number flags = 8
key_number l2_flags = 9

-- Of a packet it is known which conditions it meets, one by one. It meets those of a filter if for
-- each field that they read it meets one of the conditions on that field.
abbrev pub matches : (Condition → Bool) → List Condition → Bool
matches meets cs =
    every (λ c. any (λ d. key_number c.field_key == key_number d.field_key && meets d) cs) cs

-- The filter that decides: it stands at the layer of the packet and matches it, and no other such
-- filter has a greater weight.
pub record Decides (meets : Condition → Bool) (layer : Layer) (fs : List Filter) (f : Filter)
    : Type 0 where
  pub there : IsIn f fs
  pub at_layer : f.layer_key ≡ layer
  pub matching : matches meets f.conditions ≡ true
  pub heaviest :
      (g : Filter)
      → IsIn g fs
      → g.layer_key ≡ layer
      → matches meets g.conditions ≡ true
      → g.weight ≤ f.weight
