-- ===== src/Filter/Capabilities.antt =====
-- `get_capability_values`, `get_capability_node` and `get_capability_item`: the capabilities that an
-- agent offers, read from its part of the address space.
use swap_it_registry_module.Prelude.{
  ℕ, Bool, List, [], ◌∷◌, ◌++◌, Option, none, some, Bytes, codes, string_equal, if◌then◌else◌,
}
use swap_it_registry_module.Ua.{
  NodeId, node_id_numeric, node_id_equal, QualifiedName, qualified_name, qualified_name_equal,
  Reference, is_component, for_each_child, AddressSpace,
}
use swap_it_registry_module.Matching.{
  Variant, boolean, double, string, ValueType, boolean_type, number_type, string_type,
}

-- The values of the nodes below `Capabilities`: the three structures of the common information
-- model, each a value and a relational operator, or something else.
pub data NodeValue (D : Type 0) : Type 0 where
  struct_boolean : Bool → ℕ → NodeValue D
  struct_number : D → ℕ → NodeValue D
  struct_string : Bytes → ℕ → NodeValue D
  other : NodeValue D

-- The address space with the attributes of variables, and the identifiers of the three structures,
-- which the build generates from the information model.
pub record CapabilitySpace (D : Type 0) : Type 1 where
  pub space : AddressSpace
  pub open space use *
  pub data_type : State → NodeId → NodeId
  pub value : State → NodeId → NodeValue D
  pub struct_boolean_id : ℕ
  pub struct_number_id : ℕ
  pub struct_string_id : ℕ

-- `UA_capability`
pub record Capability (D : Type 0) : Type 0 where
  pub name : Bytes
  pub type : ValueType
  pub value : Variant D
  pub oper : ℕ

-- The array `capability_items` of an `Agent_capabilities`, whose length is
-- `number_capability_items`. `none` is a slot that no branch writes: its content is undefined.
abbrev pub CapabilityItems : Type 0 → Type 0
CapabilityItems D = List (Option (Capability D))

module _ {D : Type 0} where
  -- A value of another type than the node's data type would be misread. The server never stores one.
  unfoldable pub boolean_item : Bytes → NodeValue D → Option (Capability D)
  boolean_item n (struct_boolean v o) =
      some (record { name = n; type = boolean_type; value = boolean v; oper = o })
  boolean_item n _ = none

  unfoldable pub number_item : Bytes → NodeValue D → Option (Capability D)
  number_item n (struct_number v o) =
      some (record { name = n; type = number_type; value = double v; oper = o })
  number_item n _ = none

  unfoldable pub string_item : Bytes → NodeValue D → Option (Capability D)
  string_item n (struct_string v o) =
      some (record { name = n; type = string_type; value = string v; oper = o })
  string_item n _ = none

module _ {D : Type 0} (space : CapabilitySpace D) where
  open space use {
    State, references, browse_name, data_type, struct_boolean_id, struct_number_id,
    struct_string_id,
  }

  unfoldable pub get_capability_item : State → CapabilityItems D → Reference → CapabilityItems D
  unfolding boolean_item number_item string_item
  get_capability_item st items r =
      let qn = browse_name st r.child_id in
      let data_type_id = data_type st r.child_id in
      let var = space.value st r.child_id in
      if is_component r
      then items
        ++ (if node_id_equal data_type_id (node_id_numeric 2 struct_boolean_id)
            then boolean_item qn.name var
            else if node_id_equal data_type_id (node_id_numeric 2 struct_number_id)
            then number_item qn.name var
            else if node_id_equal data_type_id (node_id_numeric 2 struct_string_id)
            then string_item qn.name var
            else none)
          ∷ []
      else items

  unfoldable pub get_capability_node : State → CapabilityItems D → Reference → CapabilityItems D
  unfolding get_capability_item
  get_capability_node st items r =
      let inner = for_each_child (get_capability_item st) items (references st r.child_id) in
      if is_component r
      then (if string_equal (browse_name st r.child_id).name (codes "Capabilities")
          then inner
          else items)
      else items

  abbrev pub status_name : QualifiedName
  status_name = qualified_name 0 (codes "Status")

  -- Each component but `Status` starts the array anew.
  unfoldable pub get_capability_values : State → CapabilityItems D → Reference → CapabilityItems D
  unfolding get_capability_node
  get_capability_values st items r =
      let inner = for_each_child (get_capability_node st) [] (references st r.child_id) in
      if is_component r
      then (if qualified_name_equal (browse_name st r.child_id) status_name then items else inner)
      else items

  -- The traversal as `filter_agents` starts it for an agent.
  unfoldable pub agent_capabilities : State → NodeId → CapabilityItems D
  unfolding get_capability_values
  agent_capabilities st agent = for_each_child (get_capability_values st) [] (references st agent)
