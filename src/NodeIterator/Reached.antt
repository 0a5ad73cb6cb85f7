-- ===== src/NodeIterator/Reached.antt =====
-- What the iteration goes through on the agent, and what open62541 is taken to do with what it adds.
use swap_it_registry_module.Prelude.{
  ℕ, zero, suc, ◌<◌, ◌≡◌, true, false, Option, none, some, List, [], ◌∷◌, ◌++◌, ◌≢◌, All, Bytes,
  length, IsDefined, Gives, if◌then◌else◌,
}
use swap_it_registry_module.Ua.{NodeId, QualifiedName, Reference}
use swap_it_registry_module.Values.{DataTypes, Content, write_variable_value}
use swap_it_registry_module.Config.{
  Synchronization, subscription, callback_read, callback_read_write,
}
use swap_it_registry_module.NodeIterator.{
  NodeClass, object, variable, method, null_id, Passed, VariableAttributes, Agent, NodeContext,
  ValueCallback, NodeServer,
}

abbrev pub concat_map {ℓ} : {A : Type ℓ} → (Reference → List A) → List Reference → List A
concat_map f [] = []
concat_map f (r ∷ refs) = f r ++ concat_map f refs

-- The variables at a node of this class, with those that lie below it.
abbrev pub variables_at : NodeClass → List NodeId → NodeId → List NodeId
variables_at object below n = below
variables_at variable below n = n ∷ []
variables_at _ below n = []

-- A method or a variable of the agent, with the object that a method is called on, and the callback of a
-- variable.
abbrev pub Remote : Type 0
Remote = NodeId × NodeId × Option ValueCallback

-- A variable whose copy asks for its value, in two of the modes.
abbrev pub called : Synchronization → NodeId → List Remote
called subscription n = []
called callback_read n = (n, null_id, some (record { on_write = false })) ∷ []
called callback_read_write n = (n, null_id, some (record { on_write = true })) ∷ []

-- What the copy of a node of this class leads back to, with what lies below it.
abbrev pub calls_at : Synchronization → NodeClass → List Remote → NodeId → NodeId → List Remote
calls_at mode object below parent n = below
calls_at mode method below parent n = (n, parent, none) ∷ []
calls_at mode variable below parent n = called mode n
calls_at mode _ below parent n = []

module _ (d : DataTypes) (p : Passed) (agent : Agent d p) where
  -- The variables at and below a reference, in the order of the iteration.
  unfoldable pub variables_below : ℕ → Reference → List NodeId
  variables_below zero r = []
  variables_below (suc fuel) r =
      if r.is_inverse
      then []
      else variables_at (agent.node_class r.child_id)
          (concat_map (variables_below fuel) (agent.references r.child_id)) r.child_id

  -- The methods and variables that the copies lead back to, for a reference of this object.
  unfoldable pub calls_below : Synchronization → ℕ → NodeId → Reference → List Remote
  calls_below mode zero parent r = []
  calls_below mode (suc fuel) parent r =
      if r.is_inverse
      then []
      else calls_at mode (agent.node_class r.child_id)
          (concat_map (calls_below mode fuel r.child_id) (agent.references r.child_id)) parent
          r.child_id

  -- No more than `fuel` objects lie below one another.
  unfoldable pub IsWithin : ℕ → Reference → Type 0
  IsWithin zero r = ⊥
  IsWithin (suc fuel) r =
      r.is_inverse ≡ false
      → agent.node_class r.child_id ≡ object
      → All (IsWithin fuel) (agent.references r.child_id)

  -- Each index of a namespace that is read from the agent has a name in its array, and each of its
  -- values can be copied.
  pub record Readable : Type 0 where
    pub names : List Bytes
    pub namespace_array : agent.namespace_array ≡ some names
    pub first : 0 < length names
    pub browse_names : (n : NodeId) → (agent.browse_name n).namespace_index < length names
    pub data_types : (n : NodeId) → (agent.data_type n).namespace_index < length names
    pub values :
        (n id : NodeId)
        → IsDefined (write_variable_value d (agent.value_as n (d.find_data_type id)) id)

-- What a node of the server has: its context, and the callback for its value.
pub record Attached : Type 0 where
  pub context : Option NodeContext
  pub callback : Option ValueCallback

-- By the nodes that a server has, and their contexts and callbacks: the second state has the nodes of the
-- first, with theirs, and a node was added that was not there.
abbrev pub Keeps :
    {State : Type 0}
    → (State → NodeId → Type 0)
    → (State → NodeId → Attached)
    → State
    → State
    → Type 0
Keeps Has attached st st' = (n : NodeId) → Has st n → Has st' n × (attached st' n ≡ attached st n)

abbrev pub Adds :
    {State : Type 0}
    → (State → NodeId → Type 0)
    → (State → NodeId → Attached)
    → State
    → State × Option NodeId
    → Type 0
Adds Has attached st added =
    Gives (λ id. Has added.0 id × Keeps Has attached st added.0 × (¬ (Has st id))) added.1

-- A server that adds each node below one that it has: it gives a node that it has then and had not
-- before, and keeps those that it had. The contexts and the callbacks are those that were set last.
pub record Accepts (d : DataTypes) (p : Passed) (server : NodeServer d p) : Type 1 where
  pub Has : server.space.State → NodeId → Type 0
  pub attached : server.space.State → NodeId → Attached
  pub add_object :
      (st : server.space.State) (parent ref : NodeId) (name : QualifiedName) (type : NodeId)
      (text : p.LocalizedText)
      → Has st parent
      → Adds Has attached st (server.add_object_node st parent ref name type text)
  pub add_method :
      (st : server.space.State) (parent ref : NodeId) (name : QualifiedName)
      (text : p.LocalizedText) (input output : List p.Argument)
      → Has st parent
      → Adds Has attached st (server.add_method_node st parent ref name text input output)
  pub add_variable :
      (st : server.space.State) (parent ref : NodeId) (name : QualifiedName)
      (attributes : VariableAttributes p)
      → Has st parent
      → Adds Has attached st (server.add_variable_node st parent ref name attributes)
  pub write :
      (st : server.space.State) (n : NodeId) (v : Content d p.Plain)
      → Keeps Has attached st (server.write_value st n v)
  pub set_callback :
      (st : server.space.State) (n : NodeId) (c : ValueCallback) (m : NodeId)
      → Has st m
      → Has (server.set_value_callback st n c) m
  pub set_context :
      (st : server.space.State) (n : NodeId) (c : NodeContext) (m : NodeId)
      → Has st m
      → Has (server.set_node_context st n c) m
  pub context-set :
      (st : server.space.State) (n : NodeId) (c : NodeContext)
      → attached (server.set_node_context st n c) n ≡ record (attached st n) { context = some c }
  pub context-set_ne :
      (st : server.space.State) (n : NodeId) (c : NodeContext) (m : NodeId)
      → n ≢ m
      → attached (server.set_node_context st n c) m ≡ attached st m
  pub callback-set :
      (st : server.space.State) (n : NodeId) (c : ValueCallback)
      → attached (server.set_value_callback st n c) n ≡ record (attached st n) { callback = some c }
  pub callback-set_ne :
      (st : server.space.State) (n : NodeId) (c : ValueCallback) (m : NodeId)
      → n ≢ m
      → attached (server.set_value_callback st n c) m ≡ attached st m
