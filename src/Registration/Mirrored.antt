-- ===== src/Registration/Mirrored.antt =====
-- From a registration to the values: what the copies of an agent's variables hold, when the first reports
-- of its monitored items have come in and are synchronised.
use swap_it_registry_module.Prelude.{
  ℕ, ◌≡◌, refl, sym, ap, ap₂, subst, ◌∙◌, Option, none, some, List, [], ◌∷◌, ◌++◌, map, All,
  Distinct, Bytes,
}
use swap_it_registry_module.Ua.{NodeId}
use swap_it_registry_module.Address.{connection_url}
use swap_it_registry_module.Agents.{AgentList}
use swap_it_registry_module.Values.{DataTypes, Content}
use swap_it_registry_module.Sync.{AggregateConfig, Round, sync_registered_agents}
use swap_it_registry_module.Sync.Writes.{IsStore}
use swap_it_registry_module.Sync.Rounds.{IsUnreachable, IsServing}
use swap_it_registry_module.Sync.First.{after_passes, first_sync_mirrors}
use swap_it_registry_module.NodeIterator.{Passed, Agent, AggregateNodeId}
use swap_it_registry_module.NodeIterator.Store.{store}
use swap_it_registry_module.NodeIterator.Reached.{Readable, Accepts}
use swap_it_registry_module.NodeIterator.Queues.{local_ids}
use swap_it_registry_module.ReadAgent.Laws.{Entry, mapping_entry, queued_entries}
use swap_it_registry_module.Config.{Cj5, ServerConfig}
use swap_it_registry_module.Config.Tokens.{Describes}
use swap_it_registry_module.Registration.{
  RegistryServer, Connection, Registered, add_agent_to_registry,
}
use swap_it_registry_module.Registration.Written.{registered_entries, document_of}
use swap_it_registry_module.Registration.Laws.{json, added}
use swap_it_registry_module.Registration.Monitored.{add_agent_to_registry-Gives}

module _ {V : Type 0} (value : NodeId → V) where
  -- One report for each monitored item, in their order: its value for the node of its context.
  abbrev pub reports : List NodeId → List NodeId → List (NodeId × V)
  reports [] contexts = []
  reports (n ∷ items) [] = []
  reports (n ∷ items) (m ∷ contexts) = (m, value n) ∷ reports items contexts

  reports-queue :
      (queue : List AggregateNodeId)
      → map (λ (x : NodeId × V). x.0) (reports (map (λ n. n.node_id) queue) (local_ids queue))
        ≡ local_ids queue
  reports-queue [] = refl
  reports-queue (n ∷ queue) = ap (◌∷◌ n.node_id_on_aggregation_server) (reports-queue queue)

  -- Where each report is what a node has, each node of the queue has the value of the variable beside it.
  reports-values :
      (read : NodeId → V) (queue : List AggregateNodeId)
      → All (λ x. read x.0 ≡ x.1) (reports (map (λ n. n.node_id) queue) (local_ids queue))
      → All (λ n. read n.node_id_on_aggregation_server ≡ value n.node_id) queue
  reports-values read [] h = _
  reports-values read (n ∷ queue) h = (h.0, reports-values read queue h.1)

module _ (c : Cj5) (d : DataTypes) (p : Passed) (registry : RegistryServer d p)
    (connect : Bytes → Option (Agent d p)) (depth fuel : ℕ) (st : registry.nodes.space.State)
    (service_name address port module_type : Bytes) (asc : AgentList (ServerConfig c.Number))
    (read_value : registry.nodes.space.State → NodeId → Content d p.Plain) where
  open registry.nodes.space use {State}

  abbrev connection_or :
      Connection c d p registry connect depth fuel
      → Option (Registered c d p registry connect depth fuel)
      → Connection c d p registry connect depth fuel
  connection_or k none = k
  connection_or k (some (asc', st', none)) = k
  connection_or k (some (asc', st', some connection)) = connection

  -- Let a registration of a readable agent, as in the theorem on what is monitored, have left a
  -- connection, and let the server give back what is written. However long the agent cannot be reached:
  -- when the first pass of its client that serves brings one report for each monitored item, for the
  -- context that the item has, and no response waited before, then after the next synchronisation each
  -- node of the registry in the queue of the subscription nodes has the value that the agent reported
  -- for the variable beside it there, and these variables are just those of the agent below the three
  -- entry nodes, the last one first.
  pub add_agent_to_registry-mirrors :
      (agent : Agent d p) (r : c.Result) (interval timeout : c.Number)
      (entries : List (Entry d p agent depth fuel)) (accepts : Accepts d p registry.nodes)
      → Readable d p agent
      → c.parse
          (json c d p registry connect depth fuel st service_name address port module_type asc)
        ≡ some r
      → Describes c r (document_of interval timeout service_name address port module_type)
      → connect (connection_url address port).url ≡ some agent
      → map (mapping_entry d p agent depth fuel) entries ≡ registered_entries module_type
      → (let new =
            added c d p registry connect depth fuel st service_name address port module_type asc in
          accepts.Has new.0 new.1.nodes_entry_node)
      → IsStore (store registry.nodes read_value)
      → (asc' : AgentList (ServerConfig c.Number)) (st' later : State)
        (connection : Connection c d p registry connect depth fuel)
        (value : NodeId → Content d p.Plain) (rounds : List (Round (Content d p.Plain)))
        (round : Round (Content d p.Plain)) (config : AggregateConfig (Content d p.Plain))
      → add_agent_to_registry c d p registry connect depth fuel st service_name address port
          module_type asc
        ≡ some (asc', st', some connection)
      → All IsUnreachable rounds
      → IsServing round
      → round.notifications ≡ reports value connection.1.items connection.1.contexts
      → config.queues.responses ≡ []
      → let synced =
          (sync_registered_agents
            (store registry.nodes read_value)
            later
            (after_passes (rounds ++ round ∷ []) config ∷ [])).0 in
        All
          (λ n. read_value synced n.node_id_on_aggregation_server ≡ value n.node_id)
          connection.0.copied.subscription_nodes
        × (map (λ n. n.node_id) connection.0.copied.subscription_nodes
            ≡ queued_entries d p agent depth fuel entries)
  add_agent_to_registry-mirrors agent r interval timeout entries accepts readable e described
        reached es has laws asc' st' later connection value rounds round config registered away
        serving reported quiet =
      let (made, e', k) =
        add_agent_to_registry-Gives c d p registry connect depth fuel st service_name address port
          module_type asc agent r interval timeout entries accepts readable e described reached es
          has in
      let same : made ≡ connection = ap (connection_or made) (sym e' ∙ registered) in
      let queue = made.0.copied.subscription_nodes in
      let items = ap (λ m. m.1.items) (sym same) ∙ ap (λ m. m.items) k.2 in
      let contexts = ap (λ m. m.1.contexts) (sym same) ∙ ap (λ m. m.contexts) k.2 in
      let brought = reported ∙ ap₂ (reports value) items contexts in
      let distinct =
        subst Distinct
          (ap (λ m. m.contexts) k.2
            ∙ sym (reports-queue value queue)
            ∙ ap (map (λ (x : NodeId × Content d p.Plain). x.0)) (sym brought))
          k.5 in
      let read =
        read_value
          (sync_registered_agents (store registry.nodes read_value) later
            (after_passes (rounds ++ round ∷ []) config ∷ [])).0 in
      let mirrored =
        first_sync_mirrors (store registry.nodes read_value) laws later rounds round config away
          serving quiet distinct in
      let monitored =
        reports-values value read queue (subst (All λ x. read x.0 ≡ x.1) brought mirrored) in
      subst
        (λ (k : Connection c d p registry connect depth fuel).
          All (λ n. read n.node_id_on_aggregation_server ≡ value n.node_id)
            k.0.copied.subscription_nodes
          × (map (λ n. n.node_id) k.0.copied.subscription_nodes
              ≡ queued_entries d p agent depth fuel entries))
        same (monitored, sym (ap (λ m. m.items) k.2) ∙ k.1)
