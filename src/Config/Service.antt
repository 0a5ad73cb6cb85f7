-- ===== src/Config/Service.antt =====
-- `search_service_object`, `find_assignment_node` and `write_assignment_node`, and the lines of
-- `loadRegisterAgentConfig` that look for the object of a service or add it.
use swap_it_registry_module.Prelude.{
  ℕ, Bool, true, false, none, some, [], Bytes, codes, string_equal, if◌then◌else◌,
}
use swap_it_registry_module.Ua.{
  NodeId, node_id_numeric, qualified_name, Reference, is_component, has_component, for_each_child,
}
use swap_it_registry_module.Register.{NodeAdder}
use swap_it_registry_module.Search.{get_single_variable}

-- `service_node`
pub record ServiceNode : Type 0 where
  pub service_node_found : Bool
  pub service_name : Bytes
  pub service_object_node_id : NodeId

abbrev pub no_service : ServiceNode
no_service = record {
  service_node_found = false;
  service_name = [];
  service_object_node_id = node_id_numeric 0 0;
}

module _ (server : NodeAdder)
    (write_value : server.space.State → NodeId → Bytes → server.space.State) where
  open server use {space, add_object_node}
  open space use {State, references, browse_name}

  -- The callback does not look at the direction or the type of the reference.
  unfoldable pub search_service_object : State → ServiceNode → Reference → ServiceNode
  search_service_object st s_node r =
      if string_equal (browse_name st r.child_id).name s_node.service_name
      then record s_node { service_node_found = true; service_object_node_id = r.child_id }
      else s_node

  unfoldable pub write_assignment_node : State → Reference → State
  write_assignment_node st r =
      if is_component r then write_value st r.child_id (codes "Default Assignment Agent") else st

  unfoldable pub find_assignment_node : State → Reference → State
  unfolding write_assignment_node
  find_assignment_node st r =
      if is_component r
      then for_each_child write_assignment_node st (references st r.child_id)
      else st

  -- The new handle: what was found among the references of `PFDLServiceAgents`.
  abbrev pub found_service : State → ServiceNode → Bytes → NodeId → ServiceNode
  found_service st s_node name pfdl =
      for_each_child (search_service_object st)
        (record s_node { service_node_found = false; service_name = name }) (references st pfdl)

  -- The state with the service's object, and the handle that has its id, or still the id of before
  -- where the object cannot be added.
  unfoldable pub add_service : State → ServiceNode → Bytes → NodeId → State × ServiceNode
  add_service st s_node name pfdl =
      if s_node.service_node_found
      then (st, s_node)
      else let added = add_object_node st pfdl has_component (qualified_name 0 name) in
        (
          added.0,
          elim added.1 [ none ↦ s_node | some id ↦ record s_node { service_object_node_id = id } ],
        )

  -- Lines 177 to 199: the object of the service is found or added, and what lies two levels below it
  -- is given its default.
  unfoldable pub provide_service : ℕ → State → ServiceNode → Bytes → State × ServiceNode
  unfolding search_service_object find_assignment_node add_service get_single_variable
  provide_service fuel st s_node name =
      let pfdl = get_single_variable space fuel st (codes "PFDLServiceAgents") in
      let provided = add_service st (found_service st s_node name pfdl) name pfdl in
      (
        for_each_child find_assignment_node provided.0
            (references provided.0 provided.1.service_object_node_id),
        provided.1,
      )
