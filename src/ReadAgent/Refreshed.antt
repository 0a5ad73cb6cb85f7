-- ===== src/ReadAgent/Refreshed.antt =====
-- From the connection to an agent to the reads of the copied variables.
use swap_it_registry_module.Prelude.{
  ℕ, ◌≡◌, refl, sym, ap, subst, ◌∙◌, true, false, Option, none, some, ◌>>=◌, List, [], ◌∷◌, ◌++◌,
  map, All, All-map_split, Bytes,
}
use swap_it_registry_module.Ua.{NodeId, node_id_equal}
use swap_it_registry_module.Address.{connection_url}
use swap_it_registry_module.Values.{DataTypes, Content}
use swap_it_registry_module.Register.{Endpoint}
use swap_it_registry_module.Sync.{
  AggregateConfig, ServerValues, Round, client_round, on_read, sync_registered_agents,
}
use swap_it_registry_module.Sync.Writes.{IsStore, read_is_refreshed}
use swap_it_registry_module.NodeIterator.{
  Passed, Agent, NodeServer, NodeContext, ValueCallback, null_id,
}
use swap_it_registry_module.NodeIterator.Store.{store}
use swap_it_registry_module.NodeIterator.Reached.{Remote, Attached, Readable, Accepts}
use swap_it_registry_module.NodeIterator.Calls.{HasCallback}
use swap_it_registry_module.ReadAgent.{Read, MonitoredItems, connect_registered_agent}
use swap_it_registry_module.ReadAgent.Laws.{
  Entry, mapping_entry, all_calls, connect_registered_agent-Gives,
}

module _ {V : Type 0} (server : ServerValues V) where
  -- What a read of a node does in the server: where a callback is set for its value, `onRead` is called with
  -- the context of the node, which it takes to be there.
  abbrev pub read_node : Attached → AggregateConfig V → Option (AggregateConfig V)
  read_node node config = elim node.callback [
    | none ↦ some config
    | some callback ↦ node.context >>= λ c.
        some (record config { queues = on_read c.remote_node_id c.local_node_id config.queues })
  ]

  -- The next pass of the client, and the synchronisation after it.
  abbrev pub after_pass : server.State → Round V → AggregateConfig V → server.State
  after_pass st r config =
      (sync_registered_agents server st
        (record config { queues = client_round r config.queues } ∷ [])).0

  refreshed :
      (laws : IsStore server) (st : server.State) (remote n : NodeId) (r : Round V)
      (config : AggregateConfig V)
      → r.connected ≡ true
      → r.notifications ≡ []
      → config.queues.responses ≡ []
      → server.read_value
          (after_pass st r (record config { queues = on_read remote n config.queues }))
          n
        ≡ r.read remote
  unfolding sync_registered_agents
  refreshed laws st remote n r config up quiet idle =
      read_is_refreshed server laws st config.queues r remote n up quiet
        (subst (All λ x. node_id_equal x.local_node_id n ≡ false) (sym idle) _)

module _ (d : DataTypes) (p : Passed) (agent : Agent d p) (server : NodeServer d p)
    (readable : Readable d p agent) (accepts : Accepts d p server) (depth fuel : ℕ)
    (nodes_entry_node : NodeId) (read_value : server.space.State → NodeId → Content d p.Plain)
    (laws : IsStore (store server read_value)) where
  -- Let the registry reach a readable agent, as in the theorem on the connection, and let a variable of
  -- it lie below an entry node whose mode is not the subscription. Then the connection has added a new
  -- node for it: after a read of that node, in which the server calls the callback that is set for its
  -- value, if one is, with the context that is set for it, the next pass of the connected client without
  -- notifications and the synchronisation after it, the node has the value that the client then reads of
  -- the variable, provided that no response waited before.
  pub connect_registered_agent-refreshes :
      (connect : Bytes → Option (Agent d p)) (a : Endpoint)
      (entries : List (Entry d p agent depth fuel)) (st later : server.space.State)
      (variable : NodeId) (callback : ValueCallback) (before after : List Remote)
      (r : Round (Content d p.Plain)) (config : AggregateConfig (Content d p.Plain))
      → connect (connection_url a.ip a.port).url ≡ some agent
      → accepts.Has st nodes_entry_node
      → all_calls d p agent depth fuel entries
        ≡ before ++ (variable, null_id, some callback) ∷ after
      → r.connected ≡ true
      → r.notifications ≡ []
      → config.queues.responses ≡ []
      → (result : Read d p server × MonitoredItems) × (connect_registered_agent d p server depth
            fuel connect a nodes_entry_node
            (map (mapping_entry d p agent depth fuel) entries)
            st
          ≡ some result)
        × (n : NodeId) × accepts.Has result.0.copied.server n
        × (¬ (accepts.Has st n))
        × ((read_node (store server read_value) (accepts.attached result.0.copied.server n) config
              >>= λ asked. some (read_value (after_pass (store server read_value) later r asked) n))
            ≡ some (r.read variable))
  connect_registered_agent-refreshes connect a entries st later variable callback before after r
        config e has split up quiet idle =
      let (result, e', k) =
        connect_registered_agent-Gives d p agent server readable accepts depth fuel nodes_entry_node
          connect a entries st e has in
      let (c, same, held, fresh) =
        All-map_split _ k.6.contexts before after (variable, null_id, some callback)
          (k.6.lead ∙ split) k.6.set k.6.fresh in
      (
        result,
        e',
        c.0.local_node_id,
        held.0,
        fresh,
        read_is_made (accepts.attached result.0.copied.server c.0.local_node_id) c.0 callback held.1
              (subst
                (λ x.
                  HasCallback accepts x (accepts.attached result.0.copied.server c.0.local_node_id))
                (ap (λ (m : Remote). m.2) same) held.2)
            ∙ ap some (
                refreshed (store server read_value) laws later c.0.remote_node_id c.0.local_node_id
                  r config up quiet idle
                ∙ ap (λ (m : Remote). r.read m.0) same),
      )
    where
      read_is_made :
          (node : Attached) (c : NodeContext) (callback : ValueCallback)
          → node.context ≡ some c
          → node.callback ≡ some callback
          → (read_node (store server read_value) node config >>= λ asked.
              some
                (read_value (after_pass (store server read_value) later r asked) c.local_node_id))
            ≡ some (
                read_value
                  (after_pass (store server read_value) later r (record config {
                    queues = on_read c.remote_node_id c.local_node_id config.queues;
                  }))
                  c.local_node_id)
      read_is_made node c callback h k = rw (k, h) refl
