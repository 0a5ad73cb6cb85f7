-- ===== src/Unregister/Handler.antt =====
-- What `remove_agent_from_registry` does to the list of agents and to the address space.
use swap_it_registry_module.Prelude.{
  ◌>>=◌, ℕ, suc, ◌<◌, ◌≡◌, refl, ◌∙◌, Bool, true, false, some, List, [], ◌∷◌, ◌++◌, All, Bytes,
  codes, string_equal, get_or, arith,
}
use swap_it_registry_module.Ua.{
  visit_children, NodeId, node_id_numeric, QualifiedName, Reference, is_component, objects_folder,
}
use swap_it_registry_module.Address.{scheme}
use swap_it_registry_module.Address.Bounds.{create_server_address_lem, complete_url_lem}
use swap_it_registry_module.Agents.{AgentList, remove_agent}
use swap_it_registry_module.Unregister.{
  NodeStore, NodeHandler, Visit, delete_agent, descend, find_agent, node_handler, delete_agent_node,
  remove_agent_from_registry,
}
use swap_it_registry_module.Unregister.Walk.{Hit, walk-Hit}
use swap_it_registry_module.Unregister.Left.{
  IsOther, IsAgent, IsRead, delete_agent-left, delete_agent-none_left,
}

module _ (store : NodeStore) where
  open store use {State, references, browse_name, delete_node}

  -- The way from the Objects folder to the node of an agent, one hit on each level; `fin` is the
  -- server that the deletions leave.
  pub record Way (st fin : State) (service url : Bytes) (home agent : Reference) : Type 0 where
    pub list : Reference
    pub agents : Reference
    pub at_list : Hit store st fin (codes "AgentList") url (references st objects_folder) list
    pub at_agents :
        Hit store st fin (codes "PFDLServiceAgents") url (references st list.child_id) agents
    pub at_home : Hit store st fin service url (references st agents.child_id) home
    pub at_agent : Hit store st fin url url (references st home.child_id) agent

  abbrev handle : Bytes → Bytes → ℕ → NodeId → Bool → NodeHandler
  handle service url c home b = record (node_handler store service url) {
    ctr = c;
    service_object_node = home;
    existing_service_agents = b;
  }

  walk-deeper :
      (fuel : ℕ) (v : Visit store) (r : Reference) (qn : QualifiedName)
      → v.node.max_length ≡ 4
      → v.node.ctr < 3
      → is_component r ≡ true
      → browse_name v.server r.child_id ≡ some qn
      → string_equal qn.name (get_or v.node.target_node_bn v.node.ctr []) ≡ true
      → find_agent store (suc fuel) v r
        ≡ visit_children
            (find_agent store fuel)
            (record v { node = descend store v.node r.child_id })
            (references v.server r.child_id)
  unfolding find_agent
  walk-deeper fuel v r qn four deep component read named = ground arith

  walk-agent :
      (fuel : ℕ) (v : Visit store) (r : Reference) (qn : QualifiedName)
      → v.node.max_length ≡ 4
      → v.node.ctr ≡ 3
      → is_component r ≡ true
      → browse_name v.server r.child_id ≡ some qn
      → string_equal qn.name (get_or v.node.target_node_bn v.node.ctr []) ≡ true
      → find_agent store (suc fuel) v r ≡ delete_agent store v r.child_id
  unfolding find_agent
  walk-agent fuel v r qn four leaf component read named = ground arith

  walk-Way :
      (st fin : State) (service url : Bytes) (b : Bool) {home agent : Reference}
      (way : Way st fin service url home agent)
      → let start : Visit store = record {
        server = st;
        node = handle service url 3 home.child_id false;
      } in
        let end : Visit store = record {
          server = fin;
          node = handle service url 3 home.child_id b;
        } in
        delete_agent store start agent.child_id ≡ some end
        → delete_agent_node store st service url ≡ some end
  unfolding delete_agent_node
  walk-Way st fin service url b {home} {agent} way leaf = at_objects
    where
      nil : NodeId
      nil = node_id_numeric 0 0

      visit : ℕ → NodeId → Visit store
      visit c n = record { server = st; node = handle service url c n false }

      end : Visit store
      end = record { server = fin; node = handle service url 3 home.child_id b }

      at_home :
          visit_children (find_agent store 1) (visit 3 home.child_id) (references st home.child_id)
          ≡ some end
      at_home =
          walk-Hit store 1 (visit 3 home.child_id) end
            (walk-agent 0 (visit 3 home.child_id) agent way.at_agent.qn refl refl
                way.at_agent.component way.at_agent.read way.at_agent.named
              ∙ leaf)
            way.at_agent refl

      at_agents :
          visit_children (find_agent store 2) (visit 2 nil) (references st way.agents.child_id)
          ≡ some end
      at_agents =
          walk-Hit store 2 (visit 2 nil) end
            (walk-deeper 1 (visit 2 nil) home way.at_home.qn refl (omega arith)
                way.at_home.component way.at_home.read way.at_home.named
              ∙ at_home)
            way.at_home refl

      at_list :
          visit_children (find_agent store 3) (visit 1 nil) (references st way.list.child_id)
          ≡ some end
      at_list =
          walk-Hit store 3 (visit 1 nil) end
            (walk-deeper 2 (visit 1 nil) way.agents way.at_agents.qn refl (omega arith)
                way.at_agents.component way.at_agents.read way.at_agents.named
              ∙ at_agents)
            way.at_agents refl

      at_objects :
          visit_children (find_agent store 4) (visit 0 nil) (references st objects_folder)
          ≡ some end
      at_objects =
          walk-Hit store 4 (visit 0 nil) end
            (walk-deeper 3 (visit 0 nil) way.list way.at_list.qn refl (omega arith)
                way.at_list.component way.at_list.read way.at_list.named
              ∙ at_list)
            way.at_list refl

  module _ {C : Type 0} (asc : AgentList C) (st : State) where
    module _ (address port service : Bytes) where
      abbrev pub server_address : Bytes
      server_address = address ++ (codes ":" ++ port)

      method-node :
          (v : Visit store)
          → delete_agent_node store st service (scheme ++ server_address) ≡ some v
          → remove_agent_from_registry store asc st address port service
            ≡ (remove_agent server_address asc >>= λ list. some (list, v.server))
      unfolding remove_agent_from_registry
      method-node v h =
          rw ((create_server_address_lem address port).0, (complete_url_lem server_address).0, h)
            refl

      -- Let the names lead to the node of the agent, let the server list the others below its service
      -- after the deletion, each with a name of ten bytes or more, and let one of them be an agent.
      -- Then the method changes the list of agents as `remove_agent` does for `address:port`, and is
      -- undefined where that is, deletes the node of the agent, and no other node.
      pub remove_agent_from_registry-left :
          (home agent : Reference)
          → let fin = delete_node st agent.child_id in
            Way st fin service (scheme ++ server_address) home agent
            → (xs ys : List Reference) (other : Reference)
            → references fin home.child_id ≡ xs ++ other ∷ ys
            → All (IsRead store fin) (xs ++ other ∷ ys)
            → IsAgent store fin other
            → remove_agent_from_registry store asc st address port service
              ≡ (remove_agent server_address asc >>= λ list. some (list, fin))
      remove_agent_from_registry-left home agent way xs ys other left read is = method-node end (
          walk-Way st end.server service url true way
            (delete_agent-left store start agent.child_id xs ys other left read is))
        where
          url : Bytes
          url = scheme ++ server_address

          start : Visit store
          start = record { server = st; node = handle service url 3 home.child_id false }

          end : Visit store
          end = record {
            server = delete_node st agent.child_id;
            node = handle service url 3 home.child_id true;
          }

      -- Let the names lead to the node of the agent, and let no reference that the server lists below
      -- its service after the deletion be to an agent. Then the method changes the list of agents as
      -- `remove_agent` does, and is undefined where that is, and deletes the node of the service too,
      -- provided that the nodes that are still visited can be read after that.
      pub remove_agent_from_registry-none_left :
          (home agent : Reference)
          → let fin = delete_node (delete_node st agent.child_id) home.child_id in
            Way st fin service (scheme ++ server_address) home agent
            → All
                (IsOther store (delete_node st agent.child_id))
                (references (delete_node st agent.child_id) home.child_id)
            → remove_agent_from_registry store asc st address port service
              ≡ (remove_agent server_address asc >>= λ list. some (list, fin))
      remove_agent_from_registry-none_left home agent way others = method-node end (
          walk-Way st end.server service url false way
            (delete_agent-none_left store start agent.child_id others))
        where
          url : Bytes
          url = scheme ++ server_address

          start : Visit store
          start = record { server = st; node = handle service url 3 home.child_id false }

          end : Visit store
          end = record {
            server = delete_node (delete_node st agent.child_id) home.child_id;
            node = handle service url 3 home.child_id false;
          }
