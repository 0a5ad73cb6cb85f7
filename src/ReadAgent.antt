-- ===== src/ReadAgent.antt =====
-- `readRegisteredAgentNS` (src/registry_module_internal.c): the registry connects to an agent, follows the
-- paths of its entry nodes and copies what lies below each. With `get_namespace_idx_from_config_node`
-- (src/registry_module_namespace_solver.c), the end of `initRegisteredAgentNodes`
-- (src/registry_module_register_agent.c), and the start of the thread
-- (`aggregate_client_connection` of src/registry_module_client_interface.c) up to its loop.
pub mod Items
pub mod Laws
pub mod Refreshed
use swap_it_registry_module.Prelude.{
  ℕ, zero, suc, ◌+◌, Bool, not, ◌&&◌, Option, none, some, ◌>>=◌, List, [], ◌∷◌, Bytes, string_equal,
  length, set, if◌then◌else◌,
}
use swap_it_registry_module.Ua.{
  NodeId, node_id_numeric, node_id_equal, QualifiedName, qualified_name, Reference, has_component,
  for_each_child, visit_children,
}
use swap_it_registry_module.Address.{connection_url}
use swap_it_registry_module.NodePath.{split_path}
use swap_it_registry_module.Values.{DataTypes}
use swap_it_registry_module.Search.{has_type_definition, has_modelling_rule}
use swap_it_registry_module.Config.{MappingEntry}
use swap_it_registry_module.Register.{Endpoint}
use swap_it_registry_module.NodeIterator.{
  Passed, Agent, NodeServer, AggregateNodeId, Handle, Copied, references_type, null_id,
}
use swap_it_registry_module.NodeIterator.Copy.{node_iter}

abbrev pub root_folder : NodeId
root_folder = node_id_numeric 0 84

abbrev pub base_object_type : NodeId
base_object_type = node_id_numeric 0 58

-- `UA_getBrowseName`, with an id that is not initialised before a node is found
pub record GetBrowseName : Type 0 where
  pub name : QualifiedName
  pub id : Option NodeId

-- The arrays of the monitored items and of their contexts, of which the local node counts.
pub record MonitoredItems : Type 0 where
  pub items : List NodeId
  pub contexts : List NodeId

-- An array of null ids, one for each element of a queue.
abbrev pub null_ids : List AggregateNodeId → List NodeId
null_ids [] = []
null_ids (n ∷ queue) = null_id ∷ null_ids queue

-- The loop from index `loop_count` on.
unfoldable pub fill_items : ℕ → List AggregateNodeId → MonitoredItems → MonitoredItems
fill_items loop_count [] m = m
fill_items loop_count (n ∷ queue) m = fill_items (loop_count + 1) queue (record {
  items = set m.items loop_count n.node_id;
  contexts = set m.contexts loop_count n.node_id_on_aggregation_server;
})

-- Lines 37 to 60, for the queue of the subscription nodes.
unfoldable pub create_items : List AggregateNodeId → MonitoredItems
unfolding fill_items
create_items queue =
    fill_items 0 queue (record { items = null_ids queue; contexts = null_ids queue })

pub data Status : Type 0 where
  good bad_not_connected : Status

module _ (d : DataTypes) (p : Passed) where
  module _ (agent : Agent d p) where
    -- The guards of `get_namespace_idx_from_config_node`.
    abbrev pub follows : Reference → Bool
    follows r =
        not r.is_inverse
        && not (node_id_equal r.reference_type_id has_type_definition)
        && not (node_id_equal r.reference_type_id has_modelling_rule)

    -- The depth of the search is not bounded in the source; here it is the fuel.
    unfoldable pub get_namespace_idx_from_config_node :
        ℕ → GetBrowseName → Reference → GetBrowseName
    get_namespace_idx_from_config_node zero handler r = handler
    get_namespace_idx_from_config_node (suc fuel) handler r =
        let qname = agent.browse_name r.child_id in
        let deeper =
          for_each_child (get_namespace_idx_from_config_node fuel) handler
            (agent.references r.child_id) in
        if follows r
        then (if string_equal qname.name handler.name.name
            then record { name = qname; id = some r.child_id }
            else deeper)
        else handler

    -- Lines 68 to 84: each name is looked for below the node of the one before it.
    unfoldable pub browse_path : ℕ → NodeId → List Bytes → Option (List (NodeId × QualifiedName))
    unfolding get_namespace_idx_from_config_node
    browse_path fuel parent_id [] = some []
    browse_path fuel parent_id (res ∷ names) =
        let handler =
          for_each_child (get_namespace_idx_from_config_node fuel)
            (record { name = qualified_name 0 res; id = none }) (agent.references parent_id) in
        handler.id >>= λ id.
        browse_path fuel id names >>= λ elements. some ((references_type, handler.name) ∷ elements)

  module _ (server : NodeServer d p) where
    open server use {space, add_object_node}
    open space use {State}

    -- One round of the loop over the mapping entries: the object of the entry node is added, and what
    -- lies below the entry node is copied.
    unfoldable pub read_mapping :
        ℕ → ℕ → Agent d p → NodeId → Copied State → MappingEntry → Option (Copied State)
    unfolding split_path browse_path node_iter visit_children
    read_mapping depth fuel agent nodes_entry_node s entry = entry.node_path >>= λ node_path.
        browse_path agent depth root_folder (split_path [] node_path) >>= λ elements.
        agent.translate root_folder elements >>= λ target.
        let added =
          add_object_node s.server nodes_entry_node has_component (agent.browse_name target)
            base_object_type (agent.display_name target) in
        added.1 >>= λ new_parent_id.
        visit_children
          (node_iter d p agent server depth fuel (record {
            parent = new_parent_id;
            remote_parent_object = target;
            synchronization = entry.synchronization;
          }))
          (record s { server = added.0 }) (agent.references target)

    unfoldable pub read_mappings :
        ℕ → ℕ → Agent d p → NodeId → Copied State → List MappingEntry → Option (Copied State)
    unfolding read_mapping
    read_mappings depth fuel agent nodes_entry_node s [] = some s
    read_mappings depth fuel agent nodes_entry_node s (entry ∷ mapping_entrys) =
        read_mapping depth fuel agent nodes_entry_node s entry >>= λ next.
        read_mappings depth fuel agent nodes_entry_node next mapping_entrys

    -- What the function changes: the server and the queue, and the aggregate's client.
    pub record Read : Type 0 where
      pub copied : Copied State
      pub client : Option (Agent d p)

    -- With the client, `none` where `UA_Client_connect` fails.
    unfoldable pub read_from :
        ℕ
        → ℕ
        → Option (Agent d p)
        → NodeId
        → List MappingEntry
        → Copied State
        → Option (Status × Read)
    unfolding read_mappings
    read_from depth fuel none nodes_entry_node mapping_entrys s =
        some (bad_not_connected, record { copied = s; client = none })
    read_from depth fuel (some agent) nodes_entry_node mapping_entrys s =
        read_mappings depth fuel agent nodes_entry_node s mapping_entrys >>= λ next.
        some (good, record { copied = next; client = some agent })

    -- `connect` is `UA_Client_connect`, of a new client.
    unfoldable pub read_registered_agent_ns :
        ℕ
        → ℕ
        → (Bytes → Option (Agent d p))
        → Endpoint
        → NodeId
        → List MappingEntry
        → Copied State
        → Option (Status × Read)
    unfolding read_from connection_url
    read_registered_agent_ns depth fuel connect a =
        read_from depth fuel (connect (connection_url a.ip a.port).url)

    -- The thread, up to its loop: it makes a subscription with the aggregate's client, which is not to be
    -- null, and its monitored items.
    unfoldable pub aggregate_client_connection : Read → Option (Read × MonitoredItems)
    unfolding create_items
    aggregate_client_connection read =
        read.client >>= λ client. some (read, create_items read.copied.subscription_nodes)

    -- Lines 102 to 107 of `initRegisteredAgentNodes`, which does not look at the status. The queue of a
    -- new aggregate is empty.
    unfoldable pub connect_registered_agent :
        ℕ
        → ℕ
        → (Bytes → Option (Agent d p))
        → Endpoint
        → NodeId
        → List MappingEntry
        → State
        → Option (Read × MonitoredItems)
    unfolding read_registered_agent_ns aggregate_client_connection
    connect_registered_agent depth fuel connect a nodes_entry_node mapping_entrys st =
        read_registered_agent_ns depth fuel connect a nodes_entry_node mapping_entrys
          (record { server = st; subscription_nodes = [] })
        >>= λ result. aggregate_client_connection result.1
