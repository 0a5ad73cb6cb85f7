-- ===== src/Registration/Monitored.antt =====
-- A registration as a whole: what of the agent is monitored in the end.
use swap_it_registry_module.Prelude.{
  ℕ, ◌≡◌, ap, ◌∙◌, sym, Option, some, List, [], ◌++◌, map, All, Distinct, Bytes, codes,
}
use swap_it_registry_module.Address.{connection_url}
use swap_it_registry_module.Agents.{AgentList, append_agent}
use swap_it_registry_module.Values.{DataTypes}
use swap_it_registry_module.NodeIterator.{Passed, Agent}
use swap_it_registry_module.NodeIterator.Reached.{Readable, Accepts}
use swap_it_registry_module.NodeIterator.Queues.{Kept, local_ids}
use swap_it_registry_module.NodeIterator.Calls.{Calls}
use swap_it_registry_module.ReadAgent.{connect_registered_agent}
use swap_it_registry_module.ReadAgent.Laws.{
  Entry, mapping_entry, queued_entries, all_calls, connect_registered_agent-Gives,
}
use swap_it_registry_module.Config.{Cj5, ServerConfig}
use swap_it_registry_module.Config.Tokens.{Describes}
use swap_it_registry_module.Registration.{RegistryServer, Connection, add_agent_to_registry}
use swap_it_registry_module.Registration.Written.{registered_entries, document_of, config_of}
use swap_it_registry_module.Registration.Laws.{json, at, added, add_agent_to_registry_lem}

module _ (c : Cj5) (d : DataTypes) (p : Passed) (registry : RegistryServer d p)
    (connect : Bytes → Option (Agent d p)) (depth fuel : ℕ) (st : registry.nodes.space.State)
    (service_name address port module_type : Bytes) (asc : AgentList (ServerConfig c.Number)) where
  -- What a connection to the agent leaves, of the nodes that the server had, of those that are monitored,
  -- and of the contexts.
  abbrev pub Monitors :
      (agent : Agent d p)
      → List (Entry d p agent depth fuel)
      → (accepts : Accepts d p registry.nodes) → registry.nodes.space.State
      → Connection c d p registry connect depth fuel
      → Type 0
  Monitors agent entries accepts before connection =
      Kept accepts before connection.0.copied.server
      × (connection.1.items ≡ queued_entries d p agent depth fuel entries)
      × (connection.1 ≡ record {
        items = map (λ n. n.node_id) connection.0.copied.subscription_nodes;
        contexts = local_ids connection.0.copied.subscription_nodes;
      })
      × All (accepts.Has connection.0.copied.server) connection.1.contexts
      × All (λ n. ¬ (accepts.Has before n)) connection.1.contexts
      × Distinct connection.1.contexts
      × Calls accepts (all_calls d p agent depth fuel entries)
          (record { server = before; subscription_nodes = [] }) connection.0.copied

  pub add_agent_to_registry-Gives :
      (agent : Agent d p) (r : c.Result) (interval timeout : c.Number)
      (entries : List (Entry d p agent depth fuel)) (accepts : Accepts d p registry.nodes)
      → Readable d p agent
      → c.parse
          (json c d p registry connect depth fuel st service_name address port module_type asc)
        ≡ some r
      → Describes c r (document_of interval timeout service_name address port module_type)
      → connect (connection_url address port).url ≡ some agent
      → map (mapping_entry d p agent depth fuel) entries ≡ registered_entries module_type
      → let new =
          added c d p registry connect depth fuel st service_name address port module_type asc in
        accepts.Has new.0 new.1.nodes_entry_node
        → (connection : Connection c d p registry connect depth fuel) × (add_agent_to_registry c d p
              registry connect depth fuel st service_name address port module_type asc
            ≡ some (
              append_agent asc
                  (config_of interval timeout service_name address port module_type new.1)
                  (address ++ (codes ":" ++ port)),
              connection.0.copied.server,
              some connection,
            ))
          × Monitors agent entries accepts new.0 connection
  add_agent_to_registry-Gives agent r interval timeout entries accepts readable e described reached
        es has =
      let new =
        added c d p registry connect depth fuel st service_name address port module_type asc in
      let home =
        at c d p registry connect depth fuel st service_name address port module_type asc in
      let (connection, e', k) =
        connect_registered_agent-Gives d p agent registry.nodes readable accepts depth fuel
          new.1.nodes_entry_node connect home entries new.0 reached has in
      let connects =
        ap
          (λ ms.
            connect_registered_agent d p registry.nodes depth fuel connect home
              new.1.nodes_entry_node ms new.0)
          (sym es)
        ∙ e' in
      (
        connection,
        add_agent_to_registry_lem c d p registry connect depth fuel st service_name address port
            module_type asc r interval timeout connection e described connects,
        k,
      )

  -- Let the parser find in the configuration what was written into it. Let the registry reach a readable
  -- agent, on which the three entry nodes of a registration lead to nodes with no more than `fuel` objects
  -- below one another. Let the server accept what is added below a node that it has, and have the node for
  -- the agent's nodes once this is added. Then the registration comes to its end: the agent is appended
  -- with its configuration, the server keeps the nodes that it had, and just the agent's variables below
  -- the three entry nodes are monitored, the last one first, each for a node of its own that the server
  -- has, and new nodes have contexts that lead back to just the agent's methods there, each with the object
  -- above it.
  pub add_agent_to_registry-monitors :
      (agent : Agent d p) (r : c.Result) (interval timeout : c.Number)
      (entries : List (Entry d p agent depth fuel)) (accepts : Accepts d p registry.nodes)
      → Readable d p agent
      → c.parse
          (json c d p registry connect depth fuel st service_name address port module_type asc)
        ≡ some r
      → Describes c r (document_of interval timeout service_name address port module_type)
      → connect (connection_url address port).url ≡ some agent
      → map (mapping_entry d p agent depth fuel) entries ≡ registered_entries module_type
      → let new =
          added c d p registry connect depth fuel st service_name address port module_type asc in
        accepts.Has new.0 new.1.nodes_entry_node
        → (connection : Connection c d p registry connect depth fuel) × (add_agent_to_registry c d p
              registry connect depth fuel st service_name address port module_type asc
            ≡ some (
              append_agent asc
                  (config_of interval timeout service_name address port module_type new.1)
                  (address ++ (codes ":" ++ port)),
              connection.0.copied.server,
              some connection,
            ))
          × Kept accepts new.0 connection.0.copied.server
          × (connection.1.items ≡ queued_entries d p agent depth fuel entries)
          × All (accepts.Has connection.0.copied.server) connection.1.contexts
          × Distinct connection.1.contexts
          × Calls accepts
              (all_calls d p agent depth fuel entries)
              (record { server = new.0; subscription_nodes = [] })
              connection.0.copied
  add_agent_to_registry-monitors agent r interval timeout entries accepts readable e described
        reached es has =
      let (connection, e', k) =
        add_agent_to_registry-Gives agent r interval timeout entries accepts readable e described
          reached es has in
      (connection, e', k.0, k.1, k.3, k.5, k.6)
