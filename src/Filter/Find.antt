-- ===== src/Filter/Find.antt =====
-- `find_agents_for_capabilities` and `add_agent_to_filter_list`: the walk from the Objects folder
-- down to the object of the service, and the list of the agents below it.
pub mod Path
use swap_it_registry_module.Prelude.{
  ℕ, zero, suc, ◌+◌, ◌-◌, List, [], ◌∷◌, ◌++◌, Bytes, codes, string_equal, get_or, ◌==◌,
  if◌then◌else◌,
}
use swap_it_registry_module.Ua.{
  NodeId, QualifiedName, qualified_name, qualified_name_equal, Reference, is_component,
  objects_folder, for_each_child, AddressSpace,
}

-- `UA_Capability_finder`
pub record CapabilityFinder : Type 0 where
  pub target_node_bn : List Bytes
  pub ctr : ℕ
  pub max_length : ℕ
  pub target_node_nodeid : List NodeId
  pub number_of_agents : ℕ

abbrev pub assignment : QualifiedName
assignment = qualified_name 2 (codes "Assignment")

abbrev pub available_agents : QualifiedName
available_agents = qualified_name 2 (codes "Available_Agents")

module _ (space : AddressSpace) where
  open space use {State, references, browse_name}

  unfoldable pub add_agent_to_filter_list : State → CapabilityFinder → Reference → CapabilityFinder
  add_agent_to_filter_list st node r =
      let qn = browse_name st r.child_id in
      if is_component r
      then (if qualified_name_equal qn assignment
          then node
          else if qualified_name_equal qn available_agents
          then node
          else if node.number_of_agents == 0
          then record node { target_node_nodeid = r.child_id ∷ []; number_of_agents = 1 }
          else record node {
            target_node_nodeid = node.target_node_nodeid ++ r.child_id ∷ [];
            number_of_agents = node.number_of_agents + 1;
          })
      else node

  -- Each recursive call raises `ctr`, which stays below `max_length`: fuel `max_length` is enough.
  unfoldable pub find_agents_for_capabilities :
      ℕ → State → CapabilityFinder → Reference → CapabilityFinder
  unfolding add_agent_to_filter_list
  find_agents_for_capabilities zero st node r = node
  find_agents_for_capabilities (suc fuel) st node r =
      let deeper =
        for_each_child (find_agents_for_capabilities fuel st) (record node { ctr = node.ctr + 1 })
          (references st r.child_id) in
      let agents = for_each_child (add_agent_to_filter_list st) node (references st r.child_id) in
      if is_component r
      then (if node.ctr == node.max_length
          then node
          else if string_equal (browse_name st r.child_id).name
              (get_or node.target_node_bn node.ctr [])
          then (if node.ctr == node.max_length - 1 then agents else deeper)
          else node)
      else node

  abbrev pub capability_finder : Bytes → CapabilityFinder
  capability_finder service_name = record {
    target_node_bn = codes "AgentList" ∷ codes "PFDLServiceAgents" ∷ service_name ∷ [];
    ctr = 0;
    max_length = 3;
    target_node_nodeid = [];
    number_of_agents = 0;
  }

  -- The traversal as `filter_agents` starts it.
  unfoldable pub find_agents : State → Bytes → CapabilityFinder
  unfolding find_agents_for_capabilities
  find_agents st service_name =
      for_each_child (find_agents_for_capabilities 3 st) (capability_finder service_name)
        (references st objects_folder)
