-- ===== src/Aggregation.antt =====
-- `initAggregationServerNS` (src/registry_module_init.c), which goes through the aggregates of one
-- configuration: the nodes of each are added, its agent is read, and where that succeeds, its thread is
-- started.
pub mod Laws
use swap_it_registry_module.Prelude.{ℕ, Option, none, some, ◌>>=◌, List, [], ◌∷◌, Bytes, codes}
use swap_it_registry_module.Ua.{
  NodeId, node_id_numeric, qualified_name, has_property, objects_folder,
}
use swap_it_registry_module.Values.{DataTypes}
use swap_it_registry_module.Register.{NodeAdder, EntryNodes, id_or_null}
use swap_it_registry_module.NodeIterator.{Passed, Agent, null_id}
use swap_it_registry_module.Config.{Aggregate}
use swap_it_registry_module.ReadAgent.{
  Status, good, bad_not_connected, Read, MonitoredItems, read_registered_agent_ns,
  aggregate_client_connection,
}
use swap_it_registry_module.Registration.{RegistryServer, adder, endpoint}

abbrev pub organizes : NodeId
organizes = node_id_numeric 0 35

-- The three objects and the two variables of an aggregate. A member for an id that is not written is zero.
unfoldable pub add_aggregate_nodes :
    (server : NodeAdder) → server.space.State → Aggregate → server.space.State × EntryNodes
add_aggregate_nodes server st a =
    let entry = server.add_object_node st objects_folder organizes (qualified_name 0 a.name) in
    let entry_id = id_or_null entry.1 in
    let status =
      server.add_object_node entry.0 entry_id has_property (qualified_name 0 (codes "Status")) in
    let status_id = id_or_null status.1 in
    let nodes =
      server.add_object_node status.0 entry_id has_property (qualified_name 0 (codes "Nodes")) in
    let with_address =
      server.add_variable_node nodes.0 status_id has_property (qualified_name 0 (codes "Address"))
        a.ip in
    (
      server.add_variable_node with_address status_id has_property (qualified_name 0 (codes "Port"))
          a.port,
      record {
        aggregate_entry_node = entry_id;
        status_entry_node = status_id;
        nodes_entry_node = id_or_null nodes.1;
      },
    )

-- `aggregateConfig[0].nodesEntryNode`, with that of the current aggregate: none is before the first.
abbrev pub first_or : Option NodeId → NodeId → NodeId
first_or none own = own
first_or (some first) own = first

abbrev pub nodes_entry_of : Aggregate → NodeId
nodes_entry_of a = elim a.entry_nodes [ none ↦ null_id | some e ↦ e.nodes_entry_node ]

module _ (d : DataTypes) (p : Passed) (registry : RegistryServer d p)
    (connect : Bytes → Option (Agent d p)) (depth fuel : ℕ) where
  open registry.nodes.space use {State}

  -- An aggregate after its round: its ids, and what its thread starts with, if it is started.
  pub record Started : Type 0 where
    pub aggregate : Aggregate
    pub thread : Option (Read d p registry.nodes × MonitoredItems)

  -- The test of the status, and the start of the thread.
  unfoldable pub start_thread :
      Aggregate → Status × Read d p registry.nodes → Option (State × Started)
  unfolding aggregate_client_connection
  start_thread a (bad_not_connected, read) =
      some (read.copied.server, record { aggregate = a; thread = none })
  start_thread a (good, read) =
      aggregate_client_connection d p registry.nodes read >>= λ connection.
      some (connection.0.copied.server, record { aggregate = a; thread = some connection })

  -- One round of the loop. The queue of a new aggregate is empty.
  unfoldable pub init_aggregate : Option NodeId → State → Aggregate → Option (State × Started)
  unfolding add_aggregate_nodes read_registered_agent_ns start_thread
  init_aggregate first st a =
      let added = add_aggregate_nodes (adder registry) st a in
      read_registered_agent_ns d p registry.nodes depth fuel connect (endpoint a)
        (first_or first added.1.nodes_entry_node) a.mapping_entrys
        (record { server = added.0; subscription_nodes = [] })
      >>= start_thread (record a { entry_nodes = some added.1 })

  -- The loop, with the first id once it is written.
  unfoldable pub init_aggregates :
      Option NodeId → State → List Aggregate → Option (State × List Started)
  unfolding init_aggregate
  init_aggregates first st [] = some (st, [])
  init_aggregates first st (a ∷ configs) = init_aggregate first st a >>= λ started.
      init_aggregates (some (first_or first (nodes_entry_of started.1.aggregate))) started.0 configs
      >>= λ rest. some (rest.0, started.1 ∷ rest.1)

  unfoldable pub init_aggregation_server_ns : State → List Aggregate → Option (State × List Started)
  unfolding init_aggregates
  init_aggregation_server_ns = init_aggregates none
