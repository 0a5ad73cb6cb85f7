-- ===== src/Search.antt =====
-- The searches of a node by its name, below a start: `get_variable` and `get_single_variable` of
-- src/registry_module_config_parse.c, `get_ObjectType_NodeId` and `client_get_data_type_nodeId` of
-- src/registry_module_namespace_solver.c. Their depth is not bounded in the source; here it is the
-- fuel, and the searches of a space that is no deeper do not use it up.
pub mod Finds
pub mod Laws
use swap_it_registry_module.Prelude.{
  ℕ, zero, suc, not, Bool, ◌&&◌, ◌||◌, List, Bytes, string_equal, if◌then◌else◌,
}
use swap_it_registry_module.Ua.{
  NodeId, node_id_numeric, node_id_equal, QualifiedName, qualified_name_equal, Reference,
  has_component, objects_folder, for_each_child, AddressSpace,
}

-- What the four callbacks share: a reference that is passed by changes nothing, a node that is wanted
-- is kept in the handle, and below any other node the search goes on.
module _ (references : NodeId → List Reference) (follows : Reference → Bool)
    (wanted : NodeId → Bool) where
  unfoldable pub search : ℕ → NodeId → Reference → NodeId
  search zero id r = id
  search (suc fuel) id r =
      let deeper = for_each_child (search fuel) id (references r.child_id) in
      if follows r then (if wanted r.child_id then r.child_id else deeper) else id

-- The node identifiers of namespace 0 that the guards name.
abbrev pub organizes : NodeId
organizes = node_id_numeric 0 35

abbrev pub has_modelling_rule : NodeId
has_modelling_rule = node_id_numeric 0 37

abbrev pub has_type_definition : NodeId
has_type_definition = node_id_numeric 0 40

abbrev pub has_subtype : NodeId
has_subtype = node_id_numeric 0 45

abbrev pub server_object : NodeId
server_object = node_id_numeric 0 2253

abbrev pub aliases : NodeId
aliases = node_id_numeric 0 23470

module _ (space : AddressSpace) where
  open space use {State, references, browse_name}

  -- The guards of `get_variable`.
  abbrev pub follows_variable : Reference → Bool
  follows_variable r =
      not r.is_inverse
      && (node_id_equal r.reference_type_id has_component
          || node_id_equal r.reference_type_id organizes)
      && not (node_id_equal r.child_id server_object || node_id_equal r.child_id aliases)

  abbrev pub has_name : State → Bytes → NodeId → Bool
  has_name st name n = string_equal (browse_name st n).name name

  unfoldable pub get_variable : ℕ → State → Bytes → NodeId → Reference → NodeId
  get_variable fuel st name = search (references st) follows_variable (has_name st name) fuel

  -- From a handle of zeros, whose `variable_nodeId` is the null id; also `find_method`.
  unfoldable pub get_single_variable : ℕ → State → Bytes → NodeId
  unfolding get_variable
  get_single_variable fuel st name =
      for_each_child (get_variable fuel st name) (node_id_numeric 0 0)
        (references st objects_folder)

  -- The guards of `get_ObjectType_NodeId`, which compares the namespace of the name too.
  abbrev pub follows_type : Reference → Bool
  follows_type r =
      not r.is_inverse
      && not (node_id_equal r.reference_type_id has_type_definition)
      && not (node_id_equal r.reference_type_id has_modelling_rule)

  unfoldable pub get_object_type_node_id : ℕ → State → QualifiedName → NodeId → Reference → NodeId
  get_object_type_node_id fuel st name =
      search (references st) follows_type (λ n. qualified_name_equal (browse_name st n) name) fuel

  -- The guards of `client_get_data_type_nodeId`; here the space is the agent's.
  abbrev pub follows_subtype : Reference → Bool
  follows_subtype r = not r.is_inverse && node_id_equal r.reference_type_id has_subtype

  unfoldable pub client_get_data_type_node_id : ℕ → State → Bytes → NodeId → Reference → NodeId
  client_get_data_type_node_id fuel st name =
      search (references st) follows_subtype (has_name st name) fuel
