-- ===== src/Clear.antt =====
-- src/registry_module_clear.c: the registry is shut down. The contexts of the nodes of every agent are
-- freed, and its queues are emptied. A variable that `TAILQ_FOREACH` runs with is set to `NULL` in the
-- body of the first two loops, so that the step to the next element reads through `NULL`, which `none`
-- stands for. The server, which is deleted then, stays as it is meanwhile.
pub mod Contexts
pub mod Laws
pub mod Waits
use swap_it_registry_module.Prelude.{
  ℕ, zero, suc, Option, none, some, ◌>>=◌, false, List, [], ◌∷◌, Bytes,
}
use swap_it_registry_module.Ua.{node_id_numeric, visit_children}
use swap_it_registry_module.Agents.{AgentList}
use swap_it_registry_module.Sync.{AggregateConfig}
use swap_it_registry_module.Clear.Contexts.{
  ContextServer, Freed, client, url, free_once, clear_node_context,
}

-- `TAILQ_FOREACH(val, ...) { ...; TAILQ_REMOVE(...); free(val); val = NULL; }`
unfoldable pub clear_foreach : {A : Type 0} → List A → Option (List A)
clear_foreach [] = some []
clear_foreach (x ∷ queue) = none

-- `TAILQ_FOREACH_SAFE`, which keeps the next element before the body runs
unfoldable pub clear_foreach_safe : {A : Type 0} → List A → List A
clear_foreach_safe [] = []
clear_foreach_safe (x ∷ queue) = clear_foreach_safe queue

-- `UA_AggregationServerConfig`, with the address of the text of the URL that stands at the same place of
-- `agent_url`: both arrays are always written at one place, from one place. The entry that a removal
-- copies keeps the addresses, so that the clearing comes to its client and its URL twice.
pub record ServerEntry (V : Type 0) : Type 0 where
  pub aggregate_config : List (AggregateConfig V)
  pub url_data : ℕ

module _ {V : Type 0} where
  -- The members that the clearing does not touch again are left out; `UA_Client_delete` comes last.
  unfoldable pub clear_registered_modules_config :
      List Freed → AggregateConfig V → Option (List Freed × AggregateConfig V)
  unfolding clear_foreach clear_foreach_safe free_once
  clear_registered_modules_config freed config =
      clear_foreach config.queues.requests >>= λ requests.
      clear_foreach config.queues.responses >>= λ responses.
      free_once freed (client config.client) >>= λ freed'. some (
        freed',
        record {
          queues = record { requests = requests; responses = responses };
          subscription_nodes = clear_foreach_safe config.subscription_nodes;
          mapping_entrys = [];
          nodes_entry_node = node_id_numeric 0 0;
          client = config.client;
          running = false;
        },
      )

  -- `fuel` bounds how many nodes lie below one another. What is freed goes along.
  module _ (server : ContextServer) (fuel : ℕ) where
    -- The loop over the aggregates of an agent.
    unfoldable pub clear_configs :
        List Freed → List (AggregateConfig V) → Option (List Freed × List (AggregateConfig V))
    unfolding visit_children clear_node_context clear_registered_modules_config
    clear_configs freed [] = some (freed, [])
    clear_configs freed (config ∷ configs) =
        visit_children (clear_node_context server fuel) freed
          (server.references config.nodes_entry_node)
        >>= λ freed'. clear_registered_modules_config freed' config >>= λ cleared.
            clear_configs cleared.0 configs >>= λ rest. some (rest.0, cleared.1 ∷ rest.1)

    -- The loop over the agents, with as many left as `number_agents` says; their URLs are cleared too.
    unfoldable pub clear_agents :
        ℕ
        → List Freed
        → List (ServerEntry V)
        → List Bytes
        → Option (List Freed × List (List (AggregateConfig V)))
    unfolding clear_configs free_once
    clear_agents zero freed agents urls = some (freed, [])
    clear_agents (suc left) freed [] urls = none
    clear_agents (suc left) freed (agent ∷ agents) [] = none
    clear_agents (suc left) freed (agent ∷ agents) (u ∷ urls) =
        clear_configs freed agent.aggregate_config >>= λ cleared.
        free_once cleared.0 (url agent.url_data) >>= λ freed'.
        clear_agents left freed' agents urls >>= λ rest. some (rest.0, cleared.1 ∷ rest.1)

    -- What is freed, and what is left of the agents. The status is always good.
    unfoldable pub clear_registry_module :
        AgentList (ServerEntry V) → Option (List Freed × List (List (AggregateConfig V)))
    unfolding clear_agents
    clear_registry_module asc = clear_agents asc.number_agents [] asc.agents asc.agent_url
