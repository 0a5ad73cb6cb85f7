-- ===== src/Unregister/Filtered.antt =====
-- What a call of the Filter Agents method returns after the removal of an agent.
use swap_it_registry_module.Prelude.{
  ◌>>=◌, ℕ, ◌≡◌, ◌≢◌, sym, ap, subst, ◌∙◌, Bool, some, List, ◌∷◌, ◌++◌, map, length, filter,
  filter_comm, All, All-filter, All-zip, Bytes, codes,
}
use swap_it_registry_module.Ua.{NodeId, QualifiedName, Reference}
use swap_it_registry_module.Address.{scheme}
use swap_it_registry_module.Agents.{AgentList, remove_agent}
use swap_it_registry_module.Matching.{Doubles}
use swap_it_registry_module.Filter.{array, good, filter_agents}
use swap_it_registry_module.Filter.Capabilities.{
  NodeValue, Capability, CapabilitySpace, agent_capabilities,
}
use swap_it_registry_module.Filter.Find.Path.{agents_below, Route}
use swap_it_registry_module.Filter.Suitable.Laws.{suits, AreAligned}
use swap_it_registry_module.Filter.Suitable.Aligned.{AreAligned-filter}
use swap_it_registry_module.Filter.Laws.{filter_agents_lem}
use swap_it_registry_module.Unregister.{NodeStore, remove_agent_from_registry}
use swap_it_registry_module.Unregister.Left.{IsAgent, IsRead}
use swap_it_registry_module.Unregister.Handler.{server_address}
use swap_it_registry_module.Unregister.Kept.{is_kept, view, Deletes, agents_below-kept}
use swap_it_registry_module.Unregister.Found.{
  Place, Route-kept, remove_agent_from_registry-find_agents,
}

module _ (d : Doubles) (store : NodeStore) (unread : QualifiedName)
    (data_type : store.State → NodeId → NodeId) (value : store.State → NodeId → NodeValue d.Double)
    (struct_boolean_id struct_number_id struct_string_id : ℕ) where
  open store use {State, references, delete_node}

  -- The store with the attributes of its variables, as `filter_agents` reads it.
  abbrev pub capability_view : CapabilitySpace d.Double
  capability_view = record {
    space = view store unread;
    data_type = data_type;
    value = value;
    struct_boolean_id = struct_boolean_id;
    struct_number_id = struct_number_id;
    struct_string_id = struct_string_id;
  }

  -- Let the names lead the walks of the removal and of the filtering to a service and its agent, let
  -- the deletion of the agent's node take just the references to it away and leave the other nodes
  -- with what they offer, let the nodes below the service be readable, another agent be among them,
  -- and their capabilities aligned and well-typed. Then the removal changes the list of agents as
  -- remove_agent does, and is undefined where that is and deletes just this node, and a call of
  -- filter_agents with as many values as names, whose first name is not None, returns after it the
  -- agents that the same call returned before, in order, without the removed one.
  pub remove_agent_from_registry-filter_agents :
      {C : Type 0} (asc : AgentList C) (st : State) (address port service : Bytes)
      (home agent : Reference) (name : Bytes) (names values : List Bytes)
      (capabilities : NodeId → List (Capability d.Double))
      → let fin = delete_node st agent.child_id in
        let before = agents_below (view store unread) st home.child_id in
        Place store unread st service
          (scheme ++ server_address store asc st address port service)
          home
          agent
        → Deletes store unread st agent.child_id
        → (xs ys : List Reference) (other : Reference)
        → references st home.child_id ≡ xs ++ other ∷ ys
        → All (IsRead store st) (xs ++ other ∷ ys)
        → IsAgent store st other
        → other.child_id ≢ agent.child_id
        → All (λ n. agent_capabilities capability_view st n ≡ map some (capabilities n)) before
        → All
            (λ n.
              agent_capabilities capability_view fin n ≡ agent_capabilities capability_view st n)
            (filter (is_kept agent.child_id) before)
        → AreAligned d capabilities before
        → length (name ∷ names) ≡ length values
        → name ≢ codes "None"
        → (remove_agent_from_registry store asc st address port service ≡ (
            remove_agent (server_address store asc st address port service) asc >>= λ list.
            some (list, fin)))
          × (found : List NodeId) × (filter_agents d capability_view st service
                (array (name ∷ names))
                (array values)
              ≡ some (good found))
          × (filter_agents d capability_view fin service (array (name ∷ names)) (array values)
              ≡ some (good (filter (is_kept agent.child_id) found)))
  remove_agent_from_registry-filter_agents asc st address port service home agent name names values
        capabilities place deletes xs ys other split read is elsewhere caps same aligned e ne =
      (
        (remove_agent_from_registry-find_agents store unread asc st address port service home agent
            place deletes xs ys other split read is elsewhere).0,
        filter suitable before,
        filter_agents_lem d capability_view st service name names values capabilities place.way.list
            place.way.agents home place.route.at_list place.route.at_agents place.route.at_service
            caps aligned e ne,
        filter_agents_lem d capability_view after service name names values capabilities
              place.way.list place.way.agents home route.at_list route.at_agents route.at_service
              (subst (All (IsLoaded after)) (sym left) loaded)
              (subst (AreAligned d capabilities) (sym left)
                (AreAligned-filter d capabilities (is_kept n) before aligned))
              e ne
            ∙ ap (λ l. some (good (filter suitable l))) left
            ∙ ap (λ l. some (good l)) (filter_comm suitable (is_kept n) before),
      )
    where
      n : NodeId
      n = agent.child_id

      after : State
      after = delete_node st n

      before : List NodeId
      before = agents_below (view store unread) st home.child_id

      suitable : NodeId → Bool
      suitable m = suits d (capabilities m) (name ∷ names) values

      IsLoaded : State → NodeId → Type 0
      IsLoaded s m = agent_capabilities capability_view s m ≡ map some (capabilities m)

      route : Route (view store unread) after service place.way.list place.way.agents home
      route = Route-kept store unread st service _ home agent place deletes

      left : agents_below (view store unread) after home.child_id ≡ filter (is_kept n) before
      left = agents_below-kept store unread st n deletes home.child_id place.home_apart

      loaded : All (IsLoaded after) (filter (is_kept n) before)
      loaded =
          All-zip (filter (is_kept n) before) (λ m h k. h ∙ k) same
            (All-filter (is_kept n) before (λ m i h. h) caps)
