-- ===== src/Clear/Waits.antt =====
-- When the registry cannot be cleared.
use swap_it_registry_module.Prelude.{
  ℕ, bind_none, ◌≡◌, refl, none, List, [], ◌∷◌, ◌++◌, length, Bytes,
}
use swap_it_registry_module.Ua.{visit_children}
use swap_it_registry_module.Agents.{AgentList}
use swap_it_registry_module.Sync.{ValueRequest, ValueResponse, AggregateConfig}
use swap_it_registry_module.Clear.{
  ServerEntry, clear_foreach, clear_registered_modules_config, clear_configs, clear_agents,
  clear_registry_module,
}
use swap_it_registry_module.Clear.Contexts.{
  ContextServer, Freed, url, free_once, clear_node_context,
}

module _ {V : Type 0} where
  -- A request or a response waits.
  pub data Waits (config : AggregateConfig V) : Type 0 where
    waiting_request :
        (r : ValueRequest) (rest : List ValueRequest)
        → config.queues.requests ≡ r ∷ rest
        → Waits config
    waiting_response :
        (r : ValueResponse V) (rest : List (ValueResponse V))
        → config.queues.responses ≡ r ∷ rest
        → Waits config

  clear-Waits :
      (freed : List Freed) (config : AggregateConfig V)
      → Waits config
      → clear_registered_modules_config freed config ≡ none
  unfolding clear_registered_modules_config clear_foreach
  clear-Waits freed config (waiting_request r rest e) = rw e refl
  clear-Waits freed config (waiting_response r rest e) =
      rw e (bind_none (clear_foreach config.queues.requests) _ (λ a. refl))

  module _ (server : ContextServer) (fuel : ℕ) where
    configs-Waits :
        (freed : List Freed) (before after : List (AggregateConfig V)) (config : AggregateConfig V)
        → Waits config
        → clear_configs server fuel freed (before ++ config ∷ after) ≡ none
    unfolding clear_configs
    configs-Waits freed [] after config w =
        bind_none
          (visit_children (clear_node_context server fuel) freed
            (server.references config.nodes_entry_node))
          _ (λ freed'. rw (clear-Waits freed' config w) refl)
    configs-Waits freed (c ∷ before) after config w =
        bind_none
          (visit_children (clear_node_context server fuel) freed
            (server.references c.nodes_entry_node))
          _
          (λ freed'.
            bind_none (clear_registered_modules_config freed' c) _
              λ cl. rw (configs-Waits cl.0 before after config w) refl)

    agents-Waits :
        (freed : List Freed) (before after : List (ServerEntry V)) (agent : ServerEntry V)
        (urls : List Bytes)
        → ((f : List Freed) → clear_configs server fuel f agent.aggregate_config ≡ none)
        → clear_agents server fuel
            (length (before ++ agent ∷ after))
            freed
            (before ++ agent ∷ after)
            urls
          ≡ none
    unfolding clear_agents
    agents-Waits freed [] after agent [] e = refl
    agents-Waits freed [] after agent (u ∷ urls) e = rw (e freed) refl
    agents-Waits freed (b ∷ before) after agent [] e = refl
    agents-Waits freed (b ∷ before) after agent (u ∷ urls) e =
        bind_none (clear_configs server fuel freed b.aggregate_config) _ λ cl.
          bind_none (free_once cl.0 (url b.url_data)) _
            λ freed'. rw (agents-Waits freed' before after agent urls e) refl

    -- If one request or response waits for one of the agents, the clearing of the registry runs into a
    -- null pointer, if it does not run into something else before.
    pub clear_registry_module-Waits :
        (asc : AgentList (ServerEntry V)) (before after : List (ServerEntry V))
        (agent : ServerEntry V) (xs ys : List (AggregateConfig V)) (config : AggregateConfig V)
        → asc.number_agents ≡ length asc.agents
        → asc.agents ≡ before ++ agent ∷ after
        → agent.aggregate_config ≡ xs ++ config ∷ ys
        → Waits config
        → clear_registry_module server fuel asc ≡ none
    unfolding clear_registry_module
    clear_registry_module-Waits asc before after agent xs ys config e split own w =
        rw (e, split)
          (agents-Waits [] before after agent asc.agent_url
            λ freed. rw own (configs-Waits freed xs ys config w))
