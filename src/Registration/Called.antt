-- ===== src/Registration/Called.antt =====
-- From a registration to the calls of the copied methods.
use swap_it_registry_module.Prelude.{
  none, ℕ, ◌+◌, ◌≡◌, ap, ◌∙◌, Option, some, ◌>>=◌, List, ◌∷◌, ◌++◌, map, All, All-map_split,
  All-map_split, length, Bytes,
}
use swap_it_registry_module.Ua.{NodeId}
use swap_it_registry_module.Address.{connection_url}
use swap_it_registry_module.Agents.{AgentList}
use swap_it_registry_module.Values.{DataTypes}
use swap_it_registry_module.NodeIterator.{Passed, Agent}
use swap_it_registry_module.NodeIterator.Reached.{Remote, Readable, Accepts}
use swap_it_registry_module.Method.{Output, CallResult, method_callback}
use swap_it_registry_module.Method.Laws.{HasValue, method_callback_lem}
use swap_it_registry_module.ReadAgent.Laws.{Entry, mapping_entry, all_calls}
use swap_it_registry_module.Config.{Cj5, ServerConfig}
use swap_it_registry_module.Config.Tokens.{Describes}
use swap_it_registry_module.Registration.{RegistryServer, Connection, add_agent_to_registry}
use swap_it_registry_module.Registration.Written.{registered_entries, document_of}
use swap_it_registry_module.Registration.Laws.{json, added}
use swap_it_registry_module.Registration.Monitored.{add_agent_to_registry-Gives}

module _ (c : Cj5) (d : DataTypes) (p : Passed) (registry : RegistryServer d p)
    (connect : Bytes → Option (Agent d p)) (depth fuel : ℕ) (st : registry.nodes.space.State)
    (service_name address port module_type : Bytes) (asc : AgentList (ServerConfig c.Number)) where
  open registry.nodes.space use {State}

  -- Let a registration of a readable agent be as in the theorem on what is monitored, and let a method of
  -- the agent lie below one of the three entry nodes, on some object. Then the registration has added a
  -- new node for it: a call of that node, which the server makes with the node's context, gives the status of
  -- the agent's method on this object, and its outputs come first, provided that these have values and
  -- are no more than the node has.
  pub add_agent_to_registry-calls :
      (agent : Agent d p) (r : c.Result) (interval timeout : c.Number)
      (entries : List (Entry d p agent depth fuel)) (accepts : Accepts d p registry.nodes)
      → Readable d p agent
      → c.parse
          (json c d p registry connect depth fuel st service_name address port module_type asc)
        ≡ some r
      → Describes c r (document_of interval timeout service_name address port module_type)
      → connect (connection_url address port).url ≡ some agent
      → map (mapping_entry d p agent depth fuel) entries ≡ registered_entries module_type
      → (let new =
            added c d p registry connect depth fuel st service_name address port module_type asc in
          accepts.Has new.0 new.1.nodes_entry_node)
      → {I W : Type 0} (call : NodeId → NodeId → I → CallResult W) (object method : NodeId)
        (before after : List Remote) (input : I) (outs output more : List (Output W))
      → all_calls d p agent depth fuel entries ≡ before ++ (method, object, none) ∷ after
      → (call object method input).outputs ≡ some outs
      → All HasValue outs
      → length output ≡ length outs
      → (connection : Connection c d p registry connect depth fuel) × (asc' : AgentList
          (ServerConfig c.Number))
        × (add_agent_to_registry c d p registry connect depth fuel st service_name address port
              module_type asc
            ≡ some (asc', connection.0.copied.server, some connection))
        × (n : NodeId) × accepts.Has connection.0.copied.server n
        × (¬ (
            accepts.Has
              (added c d p registry connect depth fuel st service_name address port module_type
                asc).0
              n))
        × (((accepts.attached connection.0.copied.server n).context >>= λ context.
              method_callback call context (length outs + length more) input (output ++ more))
            ≡ some ((call object method input).is_good, outs ++ more))
  add_agent_to_registry-calls agent r interval timeout entries accepts readable e described reached
        es has call object method before after input outs output more split set valued long =
      let (connection, e', k) =
        add_agent_to_registry-Gives c d p registry connect depth fuel st service_name address port
          module_type asc agent r interval timeout entries accepts readable e described reached es
          has in
      let (context, same, held, fresh) =
        All-map_split _ k.6.contexts before after (method, object, none) (k.6.lead ∙ split) k.6.set
          k.6.fresh in
      (
        connection,
        _,
        e',
        context.0.local_node_id,
        held.0,
        fresh,
        (λ i. held.1 i >>= λ found.
              method_callback call found (length outs + length more) input (output ++ more))
            ∙ method_callback_lem call context.0 input outs output more
                (ap (λ (m : Remote). (call m.1 m.0 input).outputs) same ∙ set) valued long
            ∙ ap (λ (m : Remote). some ((call m.1 m.0 input).is_good, outs ++ more)) same,
      )
