-- ===== src/Unregister/Emptied.antt =====
-- What the walk of `filter_agents` finds after the last agent of a service was removed.
use swap_it_registry_module.Prelude.{
  ◌>>=◌, ◌≡◌, ◌≢◌, refl, sym, subst, ◌∙◌, some, [], ◌∷◌, ◌++◌, All, Bytes,
}
use swap_it_registry_module.Ua.{QualifiedName, Reference, objects_folder}
use swap_it_registry_module.Address.{scheme}
use swap_it_registry_module.Agents.{AgentList, remove_agent}
use swap_it_registry_module.Filter.Find.{find_agents}
use swap_it_registry_module.Filter.Find.Path.{Route, find_agents-Misses}
use swap_it_registry_module.Unregister.{NodeStore, remove_agent_from_registry}
use swap_it_registry_module.Unregister.Left.{IsOther}
use swap_it_registry_module.Unregister.Handler.{
  Way, server_address, remove_agent_from_registry-none_left,
}
use swap_it_registry_module.Unregister.Kept.{
  view, Deletes, All-kept, reads_agent-kept, Hit-kept, Misses-deleted,
}

module _ (store : NodeStore) (unread : QualifiedName) where
  open store use {State, references, delete_node}

  -- Let the names lead the walks of the removal and of the filtering to a service and its agent, let
  -- the deletions of the agent's node and of the service's take just the references to these away and
  -- leave the other nodes, and let no other component below the service, each of which can be read,
  -- be an agent. Then the removal changes the list of agents as remove_agent does, and is undefined
  -- where that is and deletes both nodes, provided that the nodes that are still visited can be read
  -- after that, and the walk of filter_agents finds no agent for the service any more.
  pub remove_agent_from_registry-none_found :
      {C : Type 0} (asc : AgentList C) (st : State) (address port service : Bytes)
      (home agent : Reference)
      → let mid = delete_node st agent.child_id in
        let fin = delete_node mid home.child_id in
        (way : Way store st fin service
          (scheme ++ server_address store asc st address port service)
          home
          agent)
        → Route (view store unread) st service way.list way.agents home
        → Deletes store unread st agent.child_id
        → Deletes store unread mid home.child_id
        → All
            (λ m. m ≢ agent.child_id)
            (home.child_id ∷ objects_folder ∷ way.list.child_id ∷ way.agents.child_id ∷ [])
        → All
            (λ m. m ≢ home.child_id)
            (objects_folder ∷ way.list.child_id ∷ way.agents.child_id ∷ [])
        → All (λ r. r.child_id ≢ agent.child_id → IsOther store st r) (references st home.child_id)
        → (remove_agent_from_registry store asc st address port service ≡ (
            remove_agent (server_address store asc st address port service) asc >>= λ list.
            some (list, fin)))
          × ((find_agents (view store unread) fin service).target_node_nodeid ≡ [])
  remove_agent_from_registry-none_found asc st address port service home agent way route first
        second apart apart' others =
      (
        remove_agent_from_registry-none_left store asc st address port service home agent way (
            subst (All (IsOther store mid)) (sym (first.listed home.child_id apart.0)) (
              All-kept store unread st agent.child_id first (references st home.child_id)
                (λ r o h. reads_agent-kept store unread st agent.child_id first r o ∙ h o) others)),
        find_agents-Misses (view store unread) (delete_node mid home.child_id) service way.list
            way.agents
            (Hit-kept store unread mid home.child_id second objects_folder apart'.0 apart'.1.0 (
              Hit-kept store unread st agent.child_id first objects_folder apart.1.0 apart.1.1.0
                route.at_list))
            (Hit-kept store unread mid home.child_id second way.list.child_id apart'.1.0
              apart'.1.1.0
              (Hit-kept store unread st agent.child_id first way.list.child_id apart.1.1.0
                apart.1.1.1.0 route.at_agents))
            (Misses-deleted store unread mid home.child_id second way.agents.child_id apart'.1.1.0
              refl
              (Hit-kept store unread st agent.child_id first way.agents.child_id apart.1.1.1.0
                apart.0 route.at_service)),
      )
    where
      mid : State
      mid = delete_node st agent.child_id
