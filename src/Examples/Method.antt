-- ===== src/Examples/Method.antt =====
-- The witness of Registration.Called: the method of Mill gives its input and the double of it, and the
-- node that is added for it has one place more for outputs.
use swap_it_registry_module.Prelude.{
  ℕ, ◌+◌, ◌≡◌, refl, ap, true, some, ◌>>=◌, List, [], ◌∷◌, Bytes, codes, starts_with, arith,
}
use swap_it_registry_module.Ua.{NodeId, node_id_numeric}
use swap_it_registry_module.Address.{json_string, first_part, quotation_mark}
use swap_it_registry_module.Agents.{AgentList}
use swap_it_registry_module.NodePath.{node_path}
use swap_it_registry_module.Register.{init_registered_agent_nodes}
use swap_it_registry_module.Config.{ServerConfig}
use swap_it_registry_module.Config.Service.{provide_service}
use swap_it_registry_module.NodeIterator.Reached.{calls_below}
use swap_it_registry_module.Registration.{Connection}
use swap_it_registry_module.Registration.Called.{add_agent_to_registry-calls}
use swap_it_registry_module.Examples.Mill.{
  types, passed, mill, mill-Readable, registry_accepts, Has, numbered, capabilities_entry,
  state_entry, queue_entry,
}
use swap_it_registry_module.Examples.Registration.{
  parser, home, no_agents, drill_tokens, drill_tokens-Describes, registers, new,
}
use swap_it_registry_module.Method.{
  Output, array, scalar, empty_array, no_value, CallResult, method_callback,
}
use swap_it_registry_module.Method.Laws.{HasValue}

abbrev answers : ℕ → List (Output ℕ)
answers n = scalar n ∷ array n ((n + n) ∷ []) ∷ []

abbrev call : NodeId → NodeId → ℕ → CallResult ℕ
call object method n = record { is_good = true; outputs = some (answers n) }

abbrev size : Output ℕ → ℕ
size (scalar w) = 1
size (array w ws) = 1
size empty_array = 0
size no_value = 0

scalar-HasValue : (w : ℕ) → HasValue (scalar w)
scalar-HasValue w = (λ e. omega (arith, ap size e), λ e. omega (arith, ap size e))

array-HasValue : (w : ℕ) (ws : List ℕ) → HasValue (array w ws)
array-HasValue w ws = (λ e. omega (arith, ap size e), λ e. omega (arith, ap size e))

add_agent_to_registry-calls_example :
    (connection : Connection parser types passed home (λ url. some mill) 2 3) × (asc' : AgentList
      (ServerConfig Bytes))
    × (registers (λ url. some mill) (codes "Drill")
        ≡ some (asc', connection.0.copied.server, some connection))
    × (n : NodeId) × Has connection.0.copied.server n
    × (¬ (Has new.0 n))
    × ((connection.0.copied.server.contexts n >>= λ context.
          method_callback call context 3 5 (no_value ∷ no_value ∷ no_value ∷ []))
        ≡ some (true, scalar 5 ∷ array 5 (10 ∷ []) ∷ no_value ∷ []))
unfolding json_string starts_with first_part quotation_mark calls_below capabilities_entry
    state_entry queue_entry node_path init_registered_agent_nodes provide_service
add_agent_to_registry-calls_example =
    add_agent_to_registry-calls parser types passed home (λ url. some mill) 2 3 (numbered 10)
      (codes "Drill") (codes "a") (codes "1") (codes "Mill") no_agents mill drill_tokens
      (codes "500") (codes "2000") (capabilities_entry ∷ state_entry ∷ queue_entry ∷ [])
      registry_accepts mill-Readable refl drill_tokens-Describes refl refl (13, refl, omega arith)
      call (node_id_numeric 1 2) (node_id_numeric 1 6) [] [] 5 (answers 5)
      (no_value ∷ no_value ∷ []) (no_value ∷ []) refl refl
      (scalar-HasValue 5, (array-HasValue 5 (10 ∷ []), _)) refl
