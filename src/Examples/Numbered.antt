-- ===== src/Examples/Numbered.antt =====
-- A server that numbers its nodes.
use swap_it_registry_module.Prelude.{
  ℕ, ◌+◌, ◌≡◌, ◌≢◌, ◌<◌, refl, ap, Bool-cases, inl, inr, Option, none, some, true, [], Bytes,
  if◌then◌else◌, arith,
}
use swap_it_registry_module.Ua.{
  NodeId, node_id_numeric, node_id_equal, node_id_equal_iff, qualified_name,
}
use swap_it_registry_module.Sync.{AggregateConfig}
use swap_it_registry_module.Sync.Writes.{IsStore}
use swap_it_registry_module.NodeIterator.Store.{store}
use swap_it_registry_module.Values.{DataTypes, Content, plain}
use swap_it_registry_module.NodeIterator.{Passed, NodeServer, NodeContext, ValueCallback}
use swap_it_registry_module.NodeIterator.Reached.{Attached, Accepts, Adds}

abbrev pub types : DataTypes
types = record {
  DataType = Unit;
  Value = Unit;
  find_data_type = λ n. none;
  decode_binary = λ t body. _;
}

abbrev pub passed : Passed
passed = record { LocalizedText = Bytes; Argument = Unit; ValueRank = Unit; Plain = ℕ }

-- The number of the next node, the values, the contexts, and the callbacks.
pub record Numbered : Type 0 where
  pub next : ℕ
  pub values : NodeId → Content types ℕ
  pub contexts : NodeId → Option NodeContext
  pub callbacks : NodeId → Option ValueCallback

abbrev pub numbered : ℕ → Numbered
numbered k = record { next = k; values = λ n. plain 0; contexts = λ n. none; callbacks = λ n. none }

abbrev pub add : Numbered → Numbered × Option NodeId
add st = (record st { next = st.next + 1 }, some (node_id_numeric 1 st.next))

abbrev pub registry : NodeServer types passed
registry = record {
  space = record {
    State = Numbered;
    references = λ st n. [];
    browse_name = λ st n. qualified_name 0 [];
  };
  namespace_array = λ st. none;
  add_object_node = λ st parent ref name type text. add st;
  add_method_node = λ st parent ref name text input output. add st;
  add_variable_node = λ st parent ref name attributes. add st;
  write_value = λ st n v. record st { values = λ m. if node_id_equal n m then v else st.values m };
  set_node_context =
      λ st n c. record st { contexts = λ m. if node_id_equal n m then some c else st.contexts m };
  set_value_callback =
      λ st n c. record st { callbacks = λ m. if node_id_equal n m then some c else st.callbacks m };
}

abbrev pub Has : Numbered → NodeId → Type 0
Has st n = (k : ℕ) × (n ≡ node_id_numeric 1 k) × (k < st.next)

abbrev pub attached : Numbered → NodeId → Attached
attached st n = record { context = st.contexts n; callback = st.callbacks n }

pub number-eq : (j k : ℕ) → node_id_numeric 1 j ≡ node_id_numeric 1 k → j ≡ k
number-eq j k e = ground arith

pub add-Adds : (st : Numbered) → Adds Has attached st (add st)
add-Adds st = (
  node_id_numeric 1 st.next,
  refl,
  (
    (st.next, refl, omega arith),
    λ n h. ((h.0, h.1, omega (arith, h.2)), refl),
    λ h. omega (arith, number-eq st.next h.0 h.1, h.2),
  ),
)

-- A value at a node, and at another one.
pub if_equal {ℓ} : {A : Type ℓ} (n : NodeId) (x y : A) → (if node_id_equal n n then x else y) ≡ x
if_equal n x y = rw ((node_id_equal_iff n n).1 refl) refl

pub if_other {ℓ} :
    {A : Type ℓ} (n k : NodeId) (x y : A) → n ≢ k → (if node_id_equal n k then x else y) ≡ y
if_other n k x y h = elim (Bool-cases (node_id_equal n k)) [
  | inl e ↦ absurd (h ((node_id_equal_iff n k).0 e))
  | inr e ↦ rw e refl
]

pub context-set :
    (st : Numbered) (n : NodeId) (c : NodeContext)
    → attached (registry.set_node_context st n c) n ≡ record (attached st n) { context = some c }
context-set st n c =
    ap (λ o. record (attached st n) { context = o }) (if_equal n (some c) (st.contexts n))

pub context-set_ne :
    (st : Numbered) (n : NodeId) (c : NodeContext) (m : NodeId)
    → n ≢ m
    → attached (registry.set_node_context st n c) m ≡ attached st m
context-set_ne st n c m h =
    ap (λ o. record (attached st m) { context = o }) (if_other n m (some c) (st.contexts m) h)

pub callback-set :
    (st : Numbered) (n : NodeId) (c : ValueCallback)
    → attached (registry.set_value_callback st n c) n ≡ record (attached st n) { callback = some c }
callback-set st n c =
    ap (λ o. record (attached st n) { callback = o }) (if_equal n (some c) (st.callbacks n))

pub callback-set_ne :
    (st : Numbered) (n : NodeId) (c : ValueCallback) (m : NodeId)
    → n ≢ m
    → attached (registry.set_value_callback st n c) m ≡ attached st m
callback-set_ne st n c m h =
    ap (λ o. record (attached st m) { callback = o }) (if_other n m (some c) (st.callbacks m) h)

abbrev pub registry_accepts : Accepts types passed registry
registry_accepts = record {
  Has = Has;
  attached = attached;
  add_object = λ st parent ref name type text h. add-Adds st;
  add_method = λ st parent ref name text input output h. add-Adds st;
  add_variable = λ st parent ref name attributes h. add-Adds st;
  write = λ st n v m h. (h, refl);
  set_callback = λ st n c m h. h;
  set_context = λ st n c m h. h;
  context-set = context-set;
  context-set_ne = context-set_ne;
  callback-set = callback-set;
  callback-set_ne = callback-set_ne;
}

abbrev pub values : Numbered → NodeId → Content types ℕ
values st = st.values

pub registry-IsStore : IsStore (store registry values)
registry-IsStore = record {
  read-write = λ st n v. ground (arith, node_id_equal_iff n n);
  read-write_ne = λ st n m v h. ground (arith, node_id_equal_iff n m);
}

-- An aggregate without requests and responses.
abbrev pub quiet : {V : Type 0} → AggregateConfig V
quiet = record {
  queues = record { requests = []; responses = [] };
  subscription_nodes = [];
  mapping_entrys = [];
  nodes_entry_node = node_id_numeric 1 1;
  client = 7;
  running = true;
}
