-- ===== src/Unregister/Found.antt =====
-- What the walk of `filter_agents` finds below a service from which an agent was removed.
use swap_it_registry_module.Prelude.{
  ◌>>=◌, ◌≡◌, ◌≢◌, sym, ap, subst, ◌∙◌, some, List, ◌∷◌, ◌++◌, filter, All, Bytes,
}
use swap_it_registry_module.Ua.{NodeId, QualifiedName, Reference, objects_folder}
use swap_it_registry_module.Address.{scheme}
use swap_it_registry_module.Agents.{AgentList, remove_agent}
use swap_it_registry_module.Filter.Find.{find_agents}
use swap_it_registry_module.Filter.Find.Path.{Route, find_agents-Route}
use swap_it_registry_module.Unregister.{NodeStore, remove_agent_from_registry}
use swap_it_registry_module.Unregister.Left.{IsAgent, IsRead}
use swap_it_registry_module.Unregister.Handler.{
  Way, server_address, remove_agent_from_registry-left,
}
use swap_it_registry_module.Unregister.Kept.{
  is_kept, view, Deletes, kept, All-kept, reads_agent-kept, kept-split, Hit-kept, agents_below-kept,
}

module _ (store : NodeStore) (unread : QualifiedName) where
  open store use {State, references, browse_name, delete_node}

  -- The place of an agent below a service, to which the names lead both walks, that of the removal
  -- and that of the filtering; the node of the agent is none of those above it.
  pub record Place (st : State) (service url : Bytes) (home agent : Reference) : Type 0 where
    pub way : Way store st (delete_node st agent.child_id) service url home agent
    pub route : Route (view store unread) st service way.list way.agents home
    pub objects_apart : objects_folder ≢ agent.child_id
    pub list_apart : way.list.child_id ≢ agent.child_id
    pub agents_apart : way.agents.child_id ≢ agent.child_id
    pub home_apart : home.child_id ≢ agent.child_id

  pub Route-kept :
      (st : State) (service url : Bytes) (home agent : Reference)
      (place : Place st service url home agent)
      → Deletes store unread st agent.child_id
      → Route
          (view store unread)
          (delete_node st agent.child_id)
          service
          place.way.list
          place.way.agents
          home
  Route-kept st service url home agent place deletes = record {
    at_list =
        Hit-kept store unread st agent.child_id deletes objects_folder place.objects_apart
          place.list_apart place.route.at_list;
    at_agents =
        Hit-kept store unread st agent.child_id deletes place.way.list.child_id place.list_apart
          place.agents_apart place.route.at_agents;
    at_service =
        Hit-kept store unread st agent.child_id deletes place.way.agents.child_id place.agents_apart
          place.home_apart place.route.at_service;
  }

  -- Let the names lead both walks, that of the removal and that of the filtering, to the service and
  -- its agent, let the deletion of the agent's node take the references to it away and leave the
  -- other nodes, and let another agent be below the service, whose nodes there can be read. Then the
  -- removal changes the list of agents as `remove_agent` does, and is undefined where that is, and
  -- the walk of `filter_agents` then finds just the agents that it found before, in order, without
  -- the removed one.
  pub remove_agent_from_registry-find_agents :
      {C : Type 0} (asc : AgentList C) (st : State) (address port service : Bytes)
      (home agent : Reference)
      → let fin = delete_node st agent.child_id in
        Place st service (scheme ++ server_address store asc st address port service) home agent
        → Deletes store unread st agent.child_id
        → (xs ys : List Reference) (other : Reference)
        → references st home.child_id ≡ xs ++ other ∷ ys
        → All (IsRead store st) (xs ++ other ∷ ys)
        → IsAgent store st other
        → other.child_id ≢ agent.child_id
        → (remove_agent_from_registry store asc st address port service ≡ (
            remove_agent (server_address store asc st address port service) asc >>= λ list.
            some (list, fin)))
          × ((find_agents (view store unread) fin service).target_node_nodeid
              ≡ filter
                  (is_kept agent.child_id)
                  (find_agents (view store unread) st service).target_node_nodeid)
  remove_agent_from_registry-find_agents asc st address port service home agent place deletes xs ys
        other split read is elsewhere =
      (removed, found)
    where
      n : NodeId
      n = agent.child_id

      after : State
      after = delete_node st n

      left :
          references after home.child_id
          ≡ kept store unread st n deletes xs ++ other ∷ kept store unread st n deletes ys
      left =
          deletes.listed home.child_id place.home_apart
          ∙ ap (kept store unread st n deletes) split
          ∙ kept-split store unread st n deletes xs ys other elsewhere

      still_read :
          All
            (IsRead store after)
            (kept store unread st n deletes xs ++ other ∷ kept store unread st n deletes ys)
      still_read =
          subst (All (IsRead store after))
            (kept-split store unread st n deletes xs ys other elsewhere)
            (All-kept store unread st n deletes (xs ++ other ∷ ys)
              (λ r o (b, e). (b, reads_agent-kept store unread st n deletes r o ∙ e)) read)

      removed : remove_agent_from_registry store asc st address port service ≡ (
          remove_agent (server_address store asc st address port service) asc >>= λ list.
          some (list, after))
      removed =
          remove_agent_from_registry-left store asc st address port service home agent place.way
            (kept store unread st n deletes xs) (kept store unread st n deletes ys) other left
            still_read (reads_agent-kept store unread st n deletes other elsewhere ∙ is)

      found :
          (find_agents (view store unread) after service).target_node_nodeid
          ≡ filter (is_kept n) (find_agents (view store unread) st service).target_node_nodeid
      found =
          find_agents-Route (view store unread) after service place.way.list place.way.agents home
            (Route-kept st service _ home agent place deletes)
          ∙ agents_below-kept store unread st n deletes home.child_id place.home_apart
          ∙ ap (filter (is_kept n)) (
              sym (
                find_agents-Route (view store unread) st service place.way.list place.way.agents
                  home place.route))
