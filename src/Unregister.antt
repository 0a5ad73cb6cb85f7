-- ===== src/Unregister.antt =====
-- `remove_agent_from_registry`, `find_agent` and `check_remaining_agents` of
-- src/registry_module_callback_functions.c: an agent is taken off the list of agents, its node is
-- deleted, and the node of its service as well when no agent is left below it. The server whose nodes
-- are deleted is a parameter; `none` is undefined behaviour of the C code.
pub mod Walk
pub mod Left
pub mod Handler
pub mod Kept
pub mod Found
pub mod Filtered
pub mod Emptied
use swap_it_registry_module.Prelude.{
  ℕ, zero, suc, ◌+◌, ◌-◌, Bool, true, false, Option, none, some, ◌>>=◌, List, [], ◌∷◌, Bytes, codes,
  string_equal, starts_with, length, get_or, ltb, ◌==◌, if◌then◌else◌,
}
use swap_it_registry_module.Ua.{
  NodeId, node_id_numeric, QualifiedName, Reference, is_component, objects_folder, visit_children,
}
use swap_it_registry_module.Address.{create_server_address, complete_url}
use swap_it_registry_module.Agents.{AgentList, remove_agent}

-- A server whose nodes can be deleted. `UA_Server_readBrowseName` gives `none` for a node that does
-- not exist; the code reads its uninitialised `qn` then.
pub record NodeStore : Type 1 where
  pub State : Type 0
  pub references : State → NodeId → List Reference
  pub browse_name : State → NodeId → Option QualifiedName
  -- `UA_Server_deleteNode(server, id, true)`
  pub delete_node : State → NodeId → State

-- `UA_NodeHandler`
pub record NodeHandler : Type 0 where
  pub target_node_bn : List Bytes
  pub ctr : ℕ
  pub max_length : ℕ
  pub service_object_node : NodeId
  pub existing_service_agents : Bool

-- `memcmp(name, "opc.tcp://", 10) == 0`, which reads ten bytes of the name.
unfoldable pub is_agent_name : Bytes → Option Bool
is_agent_name name =
    if ltb (length name) 10 then none else some (starts_with name (codes "opc.tcp://"))

module _ (store : NodeStore) where
  open store use {State, references, browse_name, delete_node}

  unfoldable pub check_remaining_agents : State → NodeHandler → Reference → Option NodeHandler
  check_remaining_agents st node r =
      if is_component r
      then (browse_name st r.child_id >>= λ qn. is_agent_name qn.name >>= λ agent.
          (if agent then some (record node { existing_service_agents = true }) else some node))
      else some node

  -- What the traversal changes: the server and its handle.
  pub record Visit : Type 0 where
    pub server : State
    pub node : NodeHandler

  -- The branch of `find_agent` for the node of the agent.
  unfoldable pub delete_agent : Visit → NodeId → Option Visit
  unfolding check_remaining_agents visit_children
  delete_agent v child =
      let server = delete_node v.server child in
      visit_children (check_remaining_agents server)
        (record v.node { existing_service_agents = false })
        (references server v.node.service_object_node)
      >>= λ node. some (record {
        server =
            if node.existing_service_agents
            then server
            else delete_node server node.service_object_node;
        node = node;
      })

  -- The handle with which the children of `child` are visited.
  abbrev pub descend : NodeHandler → NodeId → NodeHandler
  descend node child = record node {
    service_object_node =
        if node.ctr == node.max_length - 2 then child else node.service_object_node;
    ctr = node.ctr + 1;
  }

  -- Each recursive call raises `ctr`, which stays below `max_length`: fuel `max_length` is enough.
  unfoldable pub find_agent : ℕ → Visit → Reference → Option Visit
  unfolding delete_agent visit_children
  find_agent zero v r = some v
  find_agent (suc fuel) v r =
      let deleted = delete_agent v r.child_id in
      let deeper =
        visit_children (find_agent fuel) (record v { node = descend v.node r.child_id })
          (references v.server r.child_id) in
      if is_component r
      then (if v.node.ctr == v.node.max_length
          then some v
          else browse_name v.server r.child_id >>= λ qn.
              (if string_equal qn.name (get_or v.node.target_node_bn v.node.ctr [])
                then (if v.node.ctr == v.node.max_length - 1 then deleted else deeper)
                else some v))
      else some v

  -- The handle that `remove_agent_from_registry` allocates, all zeros but for these members.
  abbrev pub node_handler : Bytes → Bytes → NodeHandler
  node_handler service url = record {
    target_node_bn = codes "AgentList" ∷ codes "PFDLServiceAgents" ∷ service ∷ url ∷ [];
    ctr = 0;
    max_length = 4;
    service_object_node = node_id_numeric 0 0;
    existing_service_agents = false;
  }

  unfoldable pub delete_agent_node : State → Bytes → Bytes → Option Visit
  unfolding find_agent visit_children
  delete_agent_node st service url =
      visit_children (find_agent 4) (record { server = st; node = node_handler service url })
        (references st objects_folder)

  -- The method: the list and the server after it.
  unfoldable pub remove_agent_from_registry :
      {C : Type 0} → AgentList C → State → Bytes → Bytes → Bytes → Option (AgentList C × State)
  remove_agent_from_registry asc st address port service =
      let temp = (create_server_address address port).contents in
      remove_agent temp asc >>= λ list.
      delete_agent_node st service (complete_url temp).contents >>= λ v. some (list, v.server)
