-- ===== src/Examples/Main.antt =====
-- The witnesses of Main: one agent, for which a response waits in the first pass, and perhaps a request; in
-- the second pass a signal comes.
use swap_it_registry_module.Prelude.{
  ℕ, ◌≡◌, refl, true, false, none, some, List, [], ◌∷◌, codes, if◌then◌else◌,
}
use swap_it_registry_module.Ua.{node_id_equal, identifier_equal}
use swap_it_registry_module.Sync.{
  ValueRequest, AggregateConfig, sync_registered_agents, write_responses,
}
use swap_it_registry_module.Clear.Contexts.{context, client, url, contexts_below, IsBounded}
use swap_it_registry_module.Main.{
  Running, Pass, sync_agents, synchronize_all, stop_handler, main_loop, exited, exit_success,
  started, main,
}
use swap_it_registry_module.Main.Laws.{
  IsCounted, IsDrained, main_loop-stops, main-exits, main-waits,
}
use swap_it_registry_module.Examples.Contexts.{once}
use swap_it_registry_module.Examples.Sync.{memory, node, zeros}

abbrev request : ValueRequest
request = record { remote_node_id = node 3; local_node_id = node 2 }

abbrev config : List ValueRequest → AggregateConfig ℕ
config requests = record {
  queues = record {
    requests = requests;
    responses = record { local_node_id = node 2; value = 5 } ∷ [];
  };
  subscription_nodes = (node 3, node 2) ∷ [];
  mapping_entrys = codes "Objects/Drill/State" ∷ [];
  nodes_entry_node = node 1;
  client = 7;
  running = true;
}

abbrev with_agent : AggregateConfig ℕ → (st : memory.State) → Running memory
with_agent c st = record {
  state = st;
  asc = record {
    agents = record { aggregate_config = c ∷ []; url_data = 8 } ∷ [];
    agent_url = codes "a:1" ∷ [];
    number_agents = 1;
  };
}

-- The iteration in which the agent comes, and the one in which the signal does.
abbrev first : List ValueRequest → Pass memory
first requests = record { iterate = λ s. with_agent (config requests) s.state; signalled = false }

abbrev second : Pass memory
second = record { iterate = λ s. s; signalled = true }

abbrev synced : List ValueRequest → AggregateConfig ℕ
synced requests = record (config requests) {
  queues = record { requests = requests; responses = [] };
}

abbrev stopped : List ValueRequest → Running memory
stopped requests =
    with_agent (synced requests) (λ m. if node_id_equal (node 2) m then 5 else zeros m)

main_loop-stops_example :
    (s : Running memory) × (main_loop memory
        (first [] ∷ second ∷ second ∷ [])
        true
        (started memory zeros)
      ≡ some (false, s))
    × (main_loop memory (first [] ∷ second ∷ []) true (started memory zeros) ≡ some (false, s))
    × IsCounted memory s
    × IsDrained memory s.asc.agents
main_loop-stops_example =
    main_loop-stops memory (first [] ∷ []) (second ∷ []) second zeros ((λ s e. (refl, refl)), _)
      (λ s e. e) (refl, _) refl

main-exits_example :
    main memory (λ st. once) 2 (first [] ∷ second ∷ second ∷ []) zeros ≡ some (exited exit_success)
unfolding main_loop synchronize_all sync_agents sync_registered_agents write_responses stop_handler
    contexts_below node_id_equal identifier_equal IsBounded
main-exits_example =
    main-exits memory (first [] ∷ []) (second ∷ []) second zeros ((λ s e. (refl, refl)), _)
      (λ s e. e) (refl, _) refl (λ st. once) 2 (stopped []) refl
      (url 8 ∷ client 7 ∷ context (node 3) ∷ context (node 2) ∷ []) ((refl, _), _)
      ((((λ f. _), ((λ f. _), _)), _), _) refl

main-waits_example :
    main memory (λ st. once) 2 (first (request ∷ []) ∷ second ∷ second ∷ []) zeros ≡ none
unfolding main_loop synchronize_all sync_agents sync_registered_agents write_responses stop_handler
main-waits_example =
    main-waits memory (first (request ∷ []) ∷ []) (second ∷ []) second zeros
      ((λ s e. (refl, refl)), _) (λ s e. e) (refl, _) refl (λ st. once) 2 (stopped (request ∷ []))
      refl [] [] _ [] [] (synced (request ∷ [])) request [] refl refl refl
