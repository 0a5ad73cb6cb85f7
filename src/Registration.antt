-- ===== src/Registration.antt =====
-- `add_agent_to_registry` (src/registry_module_callback_functions.c) and `add_agent_server`
-- (src/registry_module_register_agent.c), with all that they call: the loading of the configuration, the
-- nodes of the agent, the copying of its namespace, and the thread up to its loop.
pub mod Written
pub mod Laws
pub mod Monitored
pub mod Mirrored
pub mod Called
use swap_it_registry_module.Prelude.{ℕ, Option, none, some, List, [], ◌∷◌, Bytes, false}
use swap_it_registry_module.Ua.{NodeId, QualifiedName}
use swap_it_registry_module.Address.{json_string, create_server_address}
use swap_it_registry_module.Agents.{AgentList, append_agent}
use swap_it_registry_module.Values.{DataTypes}
use swap_it_registry_module.Register.{NodeAdder, Endpoint, EntryNodes, init_registered_agent_nodes}
use swap_it_registry_module.NodeIterator.{Passed, Agent, NodeServer, null_id}
use swap_it_registry_module.ReadAgent.{Read, MonitoredItems, connect_registered_agent}
use swap_it_registry_module.Config.{
  Cj5, Aggregate, ServerConfig, Outcome, done, bad_configuration, undefined,
}
use swap_it_registry_module.Config.Service.{no_service}
use swap_it_registry_module.Config.Load.{Load, modify_aggregate, load_document}

abbrev pub endpoint : Aggregate → Endpoint
endpoint a = record { ip = a.ip; port = a.port }

abbrev pub last_of {ℓ} : {A : Type ℓ} → A → List A → A
last_of a [] = a
last_of a (b ∷ rest) = last_of b rest

-- A configuration of zeros.
abbrev pub no_config : {Number : Type 0} → ServerConfig Number
no_config = record {
  aggregate_config = [];
  subscription_interval = none;
  unsecure_allowed = false;
  aggregate_timeout = none;
}

-- The registry's server: the copying of nodes, and the nodes that are added with texts of the code's own
-- for the name, all of the base type of objects or variables.
pub record RegistryServer (d : DataTypes) (p : Passed) : Type 1 where
  pub nodes : NodeServer d p
  pub add_object :
      nodes.space.State → NodeId → NodeId → QualifiedName → nodes.space.State × Option NodeId
  pub add_variable : nodes.space.State → NodeId → NodeId → QualifiedName → Bytes → nodes.space.State
  -- `UA_Server_writeValue` of a text
  pub write_text : nodes.space.State → NodeId → Bytes → nodes.space.State

abbrev pub adder : {d : DataTypes} {p : Passed} → RegistryServer d p → NodeAdder
adder registry = record {
  space = registry.nodes.space;
  add_object_node = registry.add_object;
  add_variable_node = registry.add_variable;
}

-- `aggregateConfig[0].nodesEntryNode`, after the ids are written to the last aggregate
abbrev pub first_nodes_entry : Aggregate → List Aggregate → EntryNodes → NodeId
first_nodes_entry first [] new = new.nodes_entry_node
first_nodes_entry first (next ∷ rest) new = elim first.entry_nodes [
  | none ↦ null_id
  | some e ↦ e.nodes_entry_node
]

-- `depth` bounds the searches, `fuel` how many of the agent's objects lie below one another; `connect` is
-- `UA_Client_connect`.
module _ (c : Cj5) (d : DataTypes) (p : Passed) (registry : RegistryServer d p)
    (connect : Bytes → Option (Agent d p)) (depth fuel : ℕ) where
  open c use {Number}
  open registry.nodes.space use {State}

  abbrev pub Loading : Type 0
  Loading = Load c (adder registry) registry.write_text depth

  -- What the copying leaves: the server with the queue of the new aggregate, and its monitored items.
  abbrev pub Connection : Type 0
  Connection = Read d p registry.nodes × MonitoredItems

  -- The new ids in the configuration, and the server that the copying leaves.
  unfoldable pub connected :
      Loading → EntryNodes → Option Connection → Outcome (Loading × Option Connection)
  connected s new none = undefined
  connected s new (some connection) = done (
    modify_aggregate c (adder registry) registry.write_text depth
        (λ a. record a { entry_nodes = some new })
        (record s { state = connection.0.copied.server }),
    some connection,
  )

  -- The call of `initRegisteredAgentNodes`, which reads the first aggregate and an array that is only
  -- written with an aggregate.
  unfoldable pub init_nodes :
      Option Bytes → List Aggregate → Loading → Outcome (Loading × Option Connection)
  unfolding connect_registered_agent connected
  init_nodes none configs s = undefined
  init_nodes (some buf_module) [] s = undefined
  init_nodes (some buf_module) (first ∷ rest) s =
      let last = last_of first rest in
      let added =
        init_registered_agent_nodes (adder registry) s.state (endpoint first) (endpoint last)
          s.s_node.service_object_node_id buf_module in
      connected s added.1 (
        connect_registered_agent d p registry.nodes depth fuel connect (endpoint last)
          (first_nodes_entry first rest added.1) last.mapping_entrys added.0)

  abbrev pub start : State → Loading
  start st = record { idx = 0; asc = no_config; state = st; s_node = no_service; buf_module = none }

  -- What follows the document.
  unfoldable pub go_on : Outcome Loading → Outcome (Loading × Option Connection)
  unfolding init_nodes
  go_on (done s) = init_nodes s.buf_module s.asc.aggregate_config s
  go_on (bad_configuration s) = bad_configuration (s, none)
  go_on undefined = undefined

  -- What follows the parser.
  unfoldable pub load_parsed : Option c.Result → Loading → Outcome (Loading × Option Connection)
  unfolding go_on
  load_parsed none s = bad_configuration (s, none)
  load_parsed (some r) s = go_on (load_document c (adder registry) registry.write_text depth r s)

  unfoldable pub load_register_agent_config : Bytes → State → Outcome (Loading × Option Connection)
  unfolding load_parsed
  load_register_agent_config json st = load_parsed (c.parse json) (start st)

  -- The list of agents, the server, and the connection if there is one.
  abbrev pub Registered : Type 0
  Registered = AgentList (ServerConfig Number) × State × Option Connection

  -- What `add_agent_server` does with the result, whose status it does not look at.
  unfoldable pub append_result :
      Outcome (Loading × Option Connection)
      → AgentList (ServerConfig Number)
      → Bytes
      → Option Registered
  append_result (done s) asc url = some (append_agent asc s.0.asc url, s.0.state, s.1)
  append_result (bad_configuration s) asc url = some (append_agent asc s.0.asc url, s.0.state, s.1)
  append_result undefined asc url = none

  unfoldable pub add_agent_server :
      State → Bytes → Bytes → Bytes → Bytes → AgentList (ServerConfig Number) → Option Registered
  unfolding append_result
  add_agent_server st service_name address port module_type asc =
      append_result
        (load_register_agent_config (json_string service_name address port module_type).contents st)
        asc (create_server_address address port).contents

  -- The method, which copies its four inputs.
  unfoldable pub add_agent_to_registry :
      State → Bytes → Bytes → Bytes → Bytes → AgentList (ServerConfig Number) → Option Registered
  unfolding add_agent_server
  add_agent_to_registry = add_agent_server
