-- ===== src/ReadAgent/Laws.antt =====
-- What the connection to an agent leaves.
use mathlib.Core.List.{append-nil}
use swap_it_registry_module.Prelude.{
  ℕ, ◌≡◌, refl, sym, ap, subst, ◌∙◌, Option, none, some, List, [], ◌∷◌, ◌++◌, All, Distinct, map,
  Bytes, Gives, bind-Gives,
}
use swap_it_registry_module.Ua.{NodeId, QualifiedName, has_component}
use swap_it_registry_module.Address.{connection_url}
use swap_it_registry_module.NodePath.{split_path}
use swap_it_registry_module.Values.{DataTypes}
use swap_it_registry_module.Config.{Synchronization, MappingEntry}
use swap_it_registry_module.Register.{Endpoint}
use swap_it_registry_module.NodeIterator.{
  AggregateNodeId, Passed, Agent, NodeServer, Handle, Copied,
}
use swap_it_registry_module.NodeIterator.Copy.{node_iter}
use swap_it_registry_module.NodeIterator.Reached.{
  concat_map, variables_below, calls_below, Remote, IsWithin, Readable, Accepts,
}
use swap_it_registry_module.NodeIterator.Queues.{
  Kept, local_ids, queued, Queues, Queues-self, Queues-after, Queues-trans,
}
use swap_it_registry_module.NodeIterator.Calls.{Calls, Calls-self, Calls-after, Calls-trans}
use swap_it_registry_module.NodeIterator.Laws.{node_iter-Gives, visit_children-Gives}
use swap_it_registry_module.ReadAgent.{
  root_folder, base_object_type, browse_path, read_mapping, read_mappings, bad_not_connected,
  read_from, read_registered_agent_ns, aggregate_client_connection, connect_registered_agent,
}
use swap_it_registry_module.ReadAgent.Items.{create_items_lem}

module _ (d : DataTypes) (p : Passed) (agent : Agent d p) where
  -- A mapping entry whose path leads to a node of the agent.
  pub record Entry (depth fuel : ℕ) : Type 0 where
    pub path : Bytes
    pub mode : Synchronization
    pub elements : List (NodeId × QualifiedName)
    pub target : NodeId
    pub resolved : browse_path d p agent depth root_folder (split_path [] path) ≡ some elements
    pub translated : agent.translate root_folder elements ≡ some target
    pub within : All (IsWithin d p agent fuel) (agent.references target)

  -- The mapping entry of the configuration.
  abbrev pub mapping_entry : (depth fuel : ℕ) → Entry depth fuel → MappingEntry
  mapping_entry depth fuel e = record { node_path = some e.path; synchronization = some e.mode }

  -- The variables below an entry node, and what the queue gets for all entries.
  abbrev pub entry_variables : (depth fuel : ℕ) → Entry depth fuel → List NodeId
  entry_variables depth fuel e =
      concat_map (variables_below d p agent fuel) (agent.references e.target)

  abbrev pub queued_entries : (depth fuel : ℕ) → List (Entry depth fuel) → List NodeId
  queued_entries depth fuel [] = []
  queued_entries depth fuel (e ∷ entries) =
      queued_entries depth fuel entries ++ queued e.mode (entry_variables depth fuel e)

  -- The methods and variables that the copies for an entry node, and for all, lead back to.
  abbrev pub entry_calls : (depth fuel : ℕ) → Entry depth fuel → List Remote
  entry_calls depth fuel e =
      concat_map (calls_below d p agent e.mode fuel e.target) (agent.references e.target)

  abbrev pub all_calls : (depth fuel : ℕ) → List (Entry depth fuel) → List Remote
  all_calls depth fuel [] = []
  all_calls depth fuel (e ∷ entries) = entry_calls depth fuel e ++ all_calls depth fuel entries

  module _ (server : NodeServer d p) (readable : Readable d p agent) (accepts : Accepts d p server)
      (depth fuel : ℕ) (nodes_entry_node : NodeId) where
    open server.space use {State}
    open accepts use {Has}

    read_mapping-Gives :
        (s : Copied State) (e : Entry depth fuel)
        → Has s.server nodes_entry_node
        → Gives
            (λ after.
              Queues accepts (queued e.mode (entry_variables depth fuel e)) s after
              × Calls accepts (entry_calls depth fuel e) s after)
            (read_mapping d p server depth fuel agent nodes_entry_node s
              (mapping_entry depth fuel e))
    unfolding read_mapping
    read_mapping-Gives s e has =
        rw (e.resolved, e.translated)
          (bind-Gives
            (accepts.add_object s.server nodes_entry_node has_component _ base_object_type _ has)
            λ id new.
              let (after, e2, k) =
                visit_children-Gives d p agent server readable accepts e.mode id
                  (node_iter d p agent server depth fuel (handle id)) (IsWithin d p agent fuel)
                  (variables_below d p agent fuel) (calls_below d p agent e.mode fuel e.target)
                  (λ s' r w.
                    node_iter-Gives d p agent server readable accepts depth fuel e.mode (handle id)
                      s' r w refl)
                  (record s { server = added.0 }) (agent.references e.target) e.within new.0 in
              (
                after,
                e2,
                (
                  Queues-after accepts (queued e.mode (entry_variables depth fuel e)) s
                      (record s { server = added.0 }) after new.1 refl k.queues,
                  Calls-after accepts (entry_calls depth fuel e) s (record s { server = added.0 })
                      after new.1 k.calls,
                ),
              ))
      where
        handle : NodeId → Handle
        handle id = record {
          parent = id;
          remote_parent_object = e.target;
          synchronization = some e.mode;
        }

        added : State × Option NodeId
        added =
            server.add_object_node s.server nodes_entry_node has_component
              (agent.browse_name e.target) base_object_type (agent.display_name e.target)

    pub read_mappings-Gives :
        (s : Copied State) (entries : List (Entry depth fuel))
        → Has s.server nodes_entry_node
        → Gives
            (λ after.
              Queues accepts (queued_entries depth fuel entries) s after
              × Calls accepts (all_calls depth fuel entries) s after)
            (read_mappings d p server depth fuel agent nodes_entry_node s
              (map (mapping_entry depth fuel) entries))
    unfolding read_mappings
    read_mappings-Gives s [] has = (s, refl, (Queues-self accepts s, Calls-self accepts s))
    read_mappings-Gives s (e ∷ entries) has = bind-Gives (read_mapping-Gives s e has) λ s1 h.
        let (s2, e2, k) = read_mappings-Gives s1 entries (h.0.keeps nodes_entry_node has).0 in
        (
          s2,
          e2,
          (
            Queues-trans accepts (queued e.mode (entry_variables depth fuel e))
                (queued_entries depth fuel entries) s s1 s2 h.0 k.0,
            Calls-trans accepts (entry_calls depth fuel e) (all_calls depth fuel entries) s s1 s2
                h.0.keeps k.0.keeps h.1 k.1,
          ),
        )

    -- What holds of the registry's nodes in a queue, of their array.
    All-local :
        (P : NodeId → Type 0) (queue : List AggregateNodeId)
        → All (λ n. P n.node_id_on_aggregation_server) queue
        → All P (local_ids queue)
    All-local P [] h = _
    All-local P (n ∷ queue) h = (h.0, All-local P queue h.1)

    -- Let the registry reach the agent, let the agent be readable, and let each mapping entry lead to
    -- a node of it, with no more than `fuel` objects below one another. Let the server accept what is
    -- added below a node that it has, and have the node for the agent's nodes. Then the connection
    -- comes to an end, with the nodes of before kept, and the thread monitors just the variables
    -- below the entry nodes whose mode is a subscription, the last one first. The context of each is
    -- the node that stands beside it in the queue, which is a node of its own that the registry had
    -- not before. New nodes have contexts that lead back to the agent's methods below the entry
    -- nodes, each with the object above it, and, for the other modes, to the variables there, whose
    -- nodes have the callbacks of their mode.
    pub connect_registered_agent-Gives :
        (connect : Bytes → Option (Agent d p)) (a : Endpoint) (entries : List (Entry depth fuel))
        (st : State)
        → connect (connection_url a.ip a.port).url ≡ some agent
        → Has st nodes_entry_node
        → Gives
            (λ result.
              Kept accepts st result.0.copied.server
              × (result.1.items ≡ queued_entries depth fuel entries)
              × (result.1 ≡ record {
                items = map (λ n. n.node_id) result.0.copied.subscription_nodes;
                contexts = local_ids result.0.copied.subscription_nodes;
              })
              × All (Has result.0.copied.server) result.1.contexts
              × All (λ n. ¬ (Has st n)) result.1.contexts
              × Distinct result.1.contexts
              × Calls accepts
                  (all_calls depth fuel entries)
                  (record { server = st; subscription_nodes = [] })
                  result.0.copied)
            (connect_registered_agent d p server depth fuel connect a nodes_entry_node
              (map (mapping_entry depth fuel) entries)
              st)
    unfolding connect_registered_agent read_registered_agent_ns read_from
        aggregate_client_connection
    connect_registered_agent-Gives connect a entries st e has =
        let (after, e2, (k, calls)) =
          read_mappings-Gives (record { server = st; subscription_nodes = [] }) entries has in
        let items = create_items_lem after.subscription_nodes in
        let queue = k.queue ∙ append-nil k.new in
        let ids = ap (λ m. m.contexts) items ∙ ap local_ids queue in
        rw (e, e2)
          (
            _,
            refl,
            (
              k.keeps,
              ap (λ m. m.items) items ∙ ap (map λ n. n.node_id) queue ∙ k.remote,
              items,
              subst (All (Has after.server)) (sym ids) (All-local (Has after.server) k.new k.local),
              subst (All λ n. ¬ (Has st n)) (sym ids) (All-local (λ n. ¬ (Has st n)) k.new k.fresh),
              subst Distinct (sym ids) k.distinct,
              calls,
            ),
          )

module _ (d : DataTypes) (p : Passed) (server : NodeServer d p) where
  -- If the registry cannot reach an agent, the reading of its nodes ends with a bad status, and nothing
  -- is copied. The registration does not look at this status: it starts the thread, which uses the null
  -- pointer of the aggregate's client.
  pub connect_registered_agent-unreachable :
      (depth fuel : ℕ) (connect : Bytes → Option (Agent d p)) (a : Endpoint)
      (nodes_entry_node : NodeId) (mapping_entrys : List MappingEntry) (st : server.space.State)
      → connect (connection_url a.ip a.port).url ≡ none
      → let s : Copied server.space.State = record { server = st; subscription_nodes = [] } in
        (read_registered_agent_ns d p server depth fuel connect a nodes_entry_node mapping_entrys s
          ≡ some (bad_not_connected, record { copied = s; client = none }))
        × (connect_registered_agent d p server depth fuel connect a nodes_entry_node mapping_entrys
              st
            ≡ none)
  unfolding connect_registered_agent read_registered_agent_ns read_from aggregate_client_connection
  connect_registered_agent-unreachable depth fuel connect a nodes_entry_node mapping_entrys st e =
      (rw e refl, rw e refl)
