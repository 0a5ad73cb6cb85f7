-- ===== src/Clear/Laws.antt =====
-- When the registry can be cleared.
use swap_it_registry_module.Prelude.{
  ℕ, bind_assoc, ◌≡◌, refl, ap, sym, ◌∙◌, Option, some, ◌>>=◌, false, List, [], ◌∷◌, ◌++◌, map, All,
  length, Bytes, Bool-cases, inl, inr, arith,
}
use swap_it_registry_module.Ua.{node_id_numeric, visit_children}
use swap_it_registry_module.Agents.{AgentList}
use swap_it_registry_module.Sync.{AggregateConfig}
use swap_it_registry_module.NodeIterator.Reached.{concat_map}
use swap_it_registry_module.Clear.{
  ServerEntry, clear_foreach, clear_foreach_safe, clear_registered_modules_config, clear_configs,
  clear_agents, clear_registry_module,
}
use swap_it_registry_module.Clear.Contexts.{
  ContextServer, Freed, client, url, is_in, free_once, clear_node_context, clear_node_context_lem,
  contexts_below, IsBounded, free_all, free_all-append, visit_children-free_all,
}

safe-empty : {A : Type 0} (queue : List A) → clear_foreach_safe queue ≡ []
unfolding clear_foreach_safe
safe-empty [] = refl
safe-empty (x ∷ queue) = safe-empty queue

free_once_lem :
    (server : ContextServer) (freed : List Freed) (n : Freed)
    → free_once freed n ≡ free_all server freed (n ∷ [])
unfolding free_once
free_once_lem server freed n = elim (Bool-cases (is_in n freed)) [
  | inl e ↦ rw e refl
  | inr e ↦ rw e refl
]

-- A result beside what is freed.
abbrev beside : {A : Type 0} → A → List Freed → Option (List Freed × A)
beside a freed = some (freed, a)

-- Two parts that free something, the second with a result to which something is done.
free_all-two :
    {A B : Type 0} (server : ContextServer) (freed xs ys : List Freed) (a : A) (f : A → B)
    → (free_all server freed xs >>= λ freed'.
        free_all server freed' ys >>= beside a >>= λ rest. beside (f rest.1) rest.0)
      ≡ (free_all server freed (xs ++ ys) >>= beside (f a))
free_all-two server freed xs ys a f =
    (λ i. free_all server freed xs >>= λ freed'.
    sym (bind_assoc (free_all server freed' ys) (beside a) λ rest. beside (f rest.1) rest.0) i)
    ∙ bind_assoc (free_all server freed xs) (λ freed'. free_all server freed' ys) (beside (f a))
    ∙ ap (λ o. o >>= beside (f a)) (sym (free_all-append server freed xs ys))

module _ {V : Type 0} where
  -- No request and no response waits.
  abbrev pub IsIdle : AggregateConfig V → Type 0
  IsIdle config = (config.queues.requests ≡ []) × (config.queues.responses ≡ [])

  abbrev pub cleared : AggregateConfig V → AggregateConfig V
  cleared config = record {
    queues = record { requests = []; responses = [] };
    subscription_nodes = [];
    mapping_entrys = [];
    nodes_entry_node = node_id_numeric 0 0;
    client = config.client;
    running = false;
  }

  clear-IsIdle :
      (server : ContextServer) (freed : List Freed) (config : AggregateConfig V)
      → IsIdle config
      → clear_registered_modules_config freed config
        ≡ (free_all server freed (client config.client ∷ []) >>= beside (cleared config))
  unfolding clear_registered_modules_config clear_foreach free_once
  clear-IsIdle server freed config h =
      rw (h.0, h.1, safe-empty config.subscription_nodes)
        (elim (Bool-cases (is_in (client config.client) freed)) [
          | inl e ↦ rw e refl
          | inr e ↦ rw e refl
        ])

  module _ (server : ContextServer) (fuel : ℕ) where
    -- No more than `fuel` nodes lie below one another under the entry node.
    abbrev pub IsShallow : AggregateConfig V → Type 0
    IsShallow config = All (IsBounded server fuel) (server.references config.nodes_entry_node)

    -- What is freed for an aggregate, for an agent, and for all, in the order of the visits.
    abbrev pub config_frees : AggregateConfig V → List Freed
    config_frees config =
        concat_map (contexts_below server fuel) (server.references config.nodes_entry_node)
        ++ client config.client ∷ []

    abbrev pub agent_frees : List (AggregateConfig V) → List Freed
    agent_frees [] = []
    agent_frees (c ∷ configs) = config_frees c ++ agent_frees configs

    abbrev pub all_frees : List (ServerEntry V) → List Freed
    all_frees [] = []
    all_frees (a ∷ agents) =
        (agent_frees a.aggregate_config ++ url a.url_data ∷ []) ++ all_frees agents

    abbrev pub all_cleared : List (ServerEntry V) → List (List (AggregateConfig V))
    all_cleared = map (λ a. map cleared a.aggregate_config)

    config-IsIdle :
        (freed : List Freed) (c : AggregateConfig V)
        → IsIdle c
        → IsShallow c
        → (visit_children
              (clear_node_context server fuel)
              freed
              (server.references c.nodes_entry_node)
            >>= λ freed'. clear_registered_modules_config freed' c)
          ≡ (free_all server freed (config_frees c) >>= beside (cleared c))
    config-IsIdle freed c h k =
        let contexts =
          concat_map (contexts_below server fuel) (server.references c.nodes_entry_node) in
        (λ i.
          visit_children-free_all server (clear_node_context server fuel)
            (contexts_below server fuel) (IsBounded server fuel)
            (clear_node_context_lem server fuel) freed (server.references c.nodes_entry_node) k i
          >>= λ freed'. clear-IsIdle server freed' c h i)
        ∙ bind_assoc (free_all server freed contexts)
            (λ freed'. free_all server freed' (client c.client ∷ [])) (beside (cleared c))
        ∙ ap (λ o. o >>= beside (cleared c))
            (sym (free_all-append server freed contexts (client c.client ∷ [])))

    configs-IsIdle :
        (freed : List Freed) (configs : List (AggregateConfig V))
        → All IsIdle configs
        → All IsShallow configs
        → clear_configs server fuel freed configs
          ≡ (free_all server freed (agent_frees configs) >>= beside (map cleared configs))
    unfolding clear_configs
    configs-IsIdle freed [] h k = refl
    configs-IsIdle freed (c ∷ configs) h k =
        let visited =
          visit_children (clear_node_context server fuel) freed
            (server.references c.nodes_entry_node) in
        let goes_on = λ (cl : List Freed × AggregateConfig V).
          clear_configs server fuel cl.0 configs >>= λ rest. some (rest.0, cl.1 ∷ rest.1) in
        bind_assoc visited (λ freed'. clear_registered_modules_config freed' c) goes_on
        ∙ ap (λ o. o >>= goes_on) (config-IsIdle freed c h.0 k.0)
        ∙ sym (bind_assoc (free_all server freed (config_frees c)) (beside (cleared c)) goes_on)
        ∙ (λ i. free_all server freed (config_frees c) >>= λ freed'.
            configs-IsIdle freed' configs h.1 k.1 i >>= λ rest. some (rest.0, cleared c ∷ rest.1))
        ∙ free_all-two server freed (config_frees c) (agent_frees configs) (map cleared configs)
            (◌∷◌ (cleared c))

    -- An agent, up to its URL.
    agent-IsIdle :
        (freed : List Freed) (a : ServerEntry V) {B : Type 0}
        (goes_on : List Freed → List (AggregateConfig V) → Option B)
        → All IsIdle a.aggregate_config
        → All IsShallow a.aggregate_config
        → (clear_configs server fuel freed a.aggregate_config >>= λ cl.
            free_once cl.0 (url a.url_data) >>= λ freed'. goes_on freed' cl.1)
          ≡ (free_all server freed (agent_frees a.aggregate_config ++ url a.url_data ∷ [])
              >>= λ freed'. goes_on freed' (map cleared a.aggregate_config))
    unfolding free_once
    agent-IsIdle freed a goes_on h k =
        let done = map cleared a.aggregate_config in
        let frees = free_all server freed (agent_frees a.aggregate_config) in
        let last = λ (cl : List Freed × List (AggregateConfig V)).
          free_all server cl.0 (url a.url_data ∷ []) >>= λ freed'. goes_on freed' cl.1 in
        (λ i. configs-IsIdle freed a.aggregate_config h k i >>= λ cl.
        free_once_lem server cl.0 (url a.url_data) i >>= λ freed'. goes_on freed' cl.1)
        ∙ sym (bind_assoc frees (beside done) last)
        ∙ bind_assoc frees (λ f. free_all server f (url a.url_data ∷ [])) (λ f. goes_on f done)
        ∙ ap (λ o. o >>= λ f. goes_on f done)
            (sym
              (free_all-append server freed (agent_frees a.aggregate_config) (url a.url_data ∷ [])))

    agents-IsIdle :
        (freed : List Freed) (agents : List (ServerEntry V)) (urls : List Bytes)
        → length urls ≡ length agents
        → All (λ a. All IsIdle a.aggregate_config) agents
        → All (λ a. All IsShallow a.aggregate_config) agents
        → clear_agents server fuel (length agents) freed agents urls
          ≡ (free_all server freed (all_frees agents) >>= beside (all_cleared agents))
    unfolding clear_agents
    agents-IsIdle freed [] urls e h k = refl
    agents-IsIdle freed (a ∷ agents) [] e h k = absurd (omega arith)
    agents-IsIdle freed (a ∷ agents) (u ∷ urls) e h k =
        let done = map cleared a.aggregate_config in
        let own = agent_frees a.aggregate_config ++ url a.url_data ∷ [] in
        agent-IsIdle freed a
          (λ freed' cl. clear_agents server fuel (length agents) freed' agents urls >>= λ rest.
            some (rest.0, cl ∷ rest.1))
          h.0 k.0
        ∙ (λ i. free_all server freed own >>= λ freed'.
            agents-IsIdle freed' agents urls (omega arith) h.1 k.1 i >>= λ rest.
            some (rest.0, done ∷ rest.1))
        ∙ free_all-two server freed own (all_frees agents) (all_cleared agents) (◌∷◌ done)

    -- Let no request and no response wait for any of the agents, and let no more than fuel nodes lie
    -- below one another under their entry nodes. Then the clearing frees the contexts of the variables
    -- and methods below these and then the client, aggregate by aggregate, and the URL, agent by agent,
    -- and empties all queues and stops all threads; it is undefined just where it comes to one of these
    -- a second time, be it of another agent.
    pub clear_registry_module-IsIdle :
        (asc : AgentList (ServerEntry V))
        → asc.number_agents ≡ length asc.agents
        → length asc.agent_url ≡ length asc.agents
        → All (λ a. All IsIdle a.aggregate_config) asc.agents
        → All (λ a. All IsShallow a.aggregate_config) asc.agents
        → clear_registry_module server fuel asc ≡ (
            free_all server [] (all_frees asc.agents) >>= λ freed.
            some (freed, all_cleared asc.agents))
    unfolding clear_registry_module
    clear_registry_module-IsIdle asc e e' h k =
        ap (λ n. clear_agents server fuel n [] asc.agents asc.agent_url) e
        ∙ agents-IsIdle [] asc.agents asc.agent_url e' h k
