-- ===== src/Examples/Clear.antt =====
-- The witnesses of Clear: a registry with one agent, at rest and with a request that waits.
use swap_it_registry_module.Prelude.{ℕ, ◌≡◌, refl, none, some, true, List, [], ◌∷◌, codes}
use swap_it_registry_module.Ua.{node_id_numeric, node_id_equal, identifier_equal}
use swap_it_registry_module.Agents.{AgentList}
use swap_it_registry_module.Sync.{ValueRequest, AggregateConfig}
use swap_it_registry_module.Clear.{ServerEntry, clear_registry_module}
use swap_it_registry_module.Clear.Contexts.{context, client, url, contexts_below, IsBounded}
use swap_it_registry_module.Examples.Contexts.{once}
use swap_it_registry_module.Clear.Laws.{cleared, clear_registry_module-IsIdle}

abbrev config : List ValueRequest → AggregateConfig ℕ
config requests = record {
  queues = record { requests = requests; responses = [] };
  subscription_nodes = (node_id_numeric 1 7, node_id_numeric 2 8) ∷ [];
  mapping_entrys = codes "Objects/Drill/State" ∷ [];
  nodes_entry_node = node_id_numeric 1 1;
  client = 7;
  running = true;
}

abbrev registered : List ValueRequest → AgentList (ServerEntry ℕ)
registered requests = record {
  agents = record { aggregate_config = config requests ∷ []; url_data = 8 } ∷ [];
  agent_url = codes "a:1" ∷ [];
  number_agents = 1;
}

abbrev request : ValueRequest
request = record { remote_node_id = node_id_numeric 1 7; local_node_id = node_id_numeric 2 8 }

clear_registry_module-IsIdle_example :
    clear_registry_module once 2 (registered [])
    ≡ some (
      url 8 ∷ client 7 ∷ context (node_id_numeric 1 3) ∷ context (node_id_numeric 1 2) ∷ [],
      (cleared (config []) ∷ []) ∷ [],
    )
unfolding contexts_below node_id_equal identifier_equal IsBounded
clear_registry_module-IsIdle_example =
    clear_registry_module-IsIdle once 2 (registered []) refl refl (((refl, refl), _), _)
      ((((λ f. _), ((λ f. _), _)), _), _)

-- The entry that a removal leaves twice: the clearing is undefined, even without a node.
copied_entry :
    clear_registry_module {V = ℕ} once 2 (record {
      agents =
          record { aggregate_config = []; url_data = 8 }
          ∷ record { aggregate_config = []; url_data = 8 }
          ∷ [];
      agent_url = codes "a:1" ∷ codes "a:1" ∷ [];
      number_agents = 2;
    })
    ≡ none
unfolding clear_registry_module
copied_entry = refl
