-- ===== src/Filter/Laws.antt =====
-- What a call of the Filter Agents method returns.
use swap_it_registry_module.Prelude.{
  ◌≡◌, ◌≢◌, refl, List, [], ◌∷◌, some, map, Bytes, codes, string_equal_iff, length, All, filter,
  arith,
}
use swap_it_registry_module.Ua.{NodeId, Reference, objects_folder}
use swap_it_registry_module.Ua.Levels.{Hit}
use swap_it_registry_module.Matching.{Doubles}
use swap_it_registry_module.Filter.Find.{find_agents}
use swap_it_registry_module.Filter.Find.Path.{agents_below, find_agents_lem}
use swap_it_registry_module.Filter.Capabilities.{
  Capability, CapabilityItems, CapabilitySpace, agent_capabilities,
}
use swap_it_registry_module.Filter.Suitable.{filter_by_capabilities, result_agents, match_names}
use swap_it_registry_module.Filter.Suitable.Laws.{
  handler, suits, AreAligned, filter_by_capabilities_lem,
}
use swap_it_registry_module.Filter.{array, good, filter_agents}

module _ (d : Doubles) (space : CapabilitySpace d.Double) (st : space.State) where
  abbrev pub agents_of : Bytes → List NodeId
  agents_of service_name = (find_agents space.space st service_name).target_node_nodeid

  abbrev nodes : List (NodeId × CapabilityItems d.Double) → List NodeId
  nodes = map (λ (a : NodeId × CapabilityItems d.Double). a.0)

  abbrev with_items : List NodeId → List (NodeId × CapabilityItems d.Double)
  with_items = map (λ n. (n, agent_capabilities space st n))

  all_suitable :
      (first : CapabilityItems d.Double) (agents : List (NodeId × CapabilityItems d.Double))
      → result_agents d first agents [] [] ≡ some (nodes agents)
  unfolding result_agents match_names
  all_suitable first [] = refl
  all_suitable first ((n, items) ∷ agents) = rw (all_suitable first agents)

  all_without_requests :
      (agents : List (NodeId × CapabilityItems d.Double))
      → filter_by_capabilities d agents [] [] ≡ some (nodes agents)
  unfolding filter_by_capabilities
  all_without_requests [] = refl
  all_without_requests ((n, items) ∷ agents) = all_suitable items ((n, items) ∷ agents)

  nodes-with_items : (agents : List NodeId) → nodes (with_items agents) ≡ agents
  nodes-with_items [] = refl
  nodes-with_items (n ∷ agents) = rw (nodes-with_items agents)

  loaded :
      (capabilities : NodeId → List (Capability d.Double)) (agents : List NodeId)
      → All (λ n. agent_capabilities space st n ≡ map some (capabilities n)) agents
      → with_items agents ≡ handler d capabilities agents
  loaded capabilities [] h = refl
  loaded capabilities (n ∷ agents) h = rw (h.0, loaded capabilities agents h.1)

  -- Let the address space hold the service at its place, and let the agents below it offer aligned
  -- and well-typed capabilities. Then a call with as many values as names, whose first name is not
  -- `None`, succeeds, and returns just those agents below the service, in order, all of whose
  -- capabilities with a requested name meet the value that is requested.
  pub filter_agents_lem :
      (service_name name : Bytes) (names values : List Bytes)
      (capabilities : NodeId → List (Capability d.Double)) (list agents service : Reference)
      → Hit space.space st
          (codes "AgentList")
          service_name
          (space.references st objects_folder)
          list
      → Hit space.space st
          (codes "PFDLServiceAgents")
          service_name
          (space.references st list.child_id)
          agents
      → Hit space.space st service_name service_name (space.references st agents.child_id) service
      → All
          (λ n. agent_capabilities space st n ≡ map some (capabilities n))
          (agents_below space.space st service.child_id)
      → AreAligned d capabilities (agents_below space.space st service.child_id)
      → length (name ∷ names) ≡ length values
      → name ≢ codes "None"
      → filter_agents d space st service_name (array (name ∷ names)) (array values)
        ≡ some (
            good (
              filter
                (λ n. suits d (capabilities n) (name ∷ names) values)
                (agents_below space.space st service.child_id)))
  unfolding filter_agents
  filter_agents_lem service_name name names values capabilities list agents service h1 h2 h3 caps
        aligned e ne =
      rw
        (
          find_agents_lem space.space st service_name list agents service h1 h2 h3,
          loaded capabilities (agents_below space.space st service.child_id) caps,
          filter_by_capabilities_lem d capabilities (agents_below space.space st service.child_id)
              (name ∷ names) values e aligned,
        )
        (ground (arith, string_equal_iff name (codes "None")))
