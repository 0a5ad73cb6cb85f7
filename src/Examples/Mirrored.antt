-- ===== src/Examples/Mirrored.antt =====
-- The witnesses of Sync.First and Registration.Mirrored: the agent of Mill, of which three monitored items
-- are reported after a pass in which it could not be reached.
use swap_it_registry_module.Prelude.{
  ℕ, ◌≡◌, refl, true, false, some, List, [], ◌∷◌, map, All, codes, starts_with, arith,
}
use swap_it_registry_module.Ua.{NodeId, node_id_numeric}
use swap_it_registry_module.Address.{json_string, first_part, quotation_mark}
use swap_it_registry_module.Agents.{append_agent}
use swap_it_registry_module.NodePath.{node_path}
use swap_it_registry_module.Values.{Content, plain}
use swap_it_registry_module.Sync.{Round, sync_registered_agents}
use swap_it_registry_module.Sync.First.{after_passes}
use swap_it_registry_module.Register.{init_registered_agent_nodes}
use swap_it_registry_module.Config.Service.{provide_service}
use swap_it_registry_module.NodeIterator.Reached.{variables_below}
use swap_it_registry_module.Registration.{Connection}
use swap_it_registry_module.Registration.Written.{config_of}
use swap_it_registry_module.Registration.Monitored.{Monitors, add_agent_to_registry-Gives}
use swap_it_registry_module.Registration.Mirrored.{reports, add_agent_to_registry-mirrors}
use swap_it_registry_module.NodeIterator.Store.{store}
use swap_it_registry_module.Examples.Mill.{
  types, passed, mill, mill-Readable, registry, values, registry-IsStore, quiet, registry_accepts,
  numbered, capabilities_entry, state_entry, queue_entry,
}
use swap_it_registry_module.Examples.Registration.{
  parser, home, no_agents, drill_tokens, drill_tokens-Describes, registers, new,
}
use swap_it_registry_module.Examples.Shop.{number_of}

-- Passes over values of any type, without requests.
abbrev away : {V : Type 0} → V → Round V
away v = record {
  connected = false;
  has_uri = true;
  connects = false;
  notifications = [];
  read = λ n. v;
}

abbrev brings : {V : Type 0} → V → List (NodeId × V) → Round V
brings v notifications = record {
  connected = true;
  has_uri = true;
  connects = true;
  notifications = notifications;
  read = λ n. v;
}

-- The registration of the agent, and what it leaves.
registered :
    (connection : Connection parser types passed home (λ url. some mill) 2 3) × (registers
        (λ url. some mill)
        (codes "Drill")
      ≡ some (
        append_agent no_agents
            (config_of
              (codes "500")
              (codes "2000")
              (codes "Drill")
              (codes "a")
              (codes "1")
              (codes "Mill")
              new.1)
            (codes "a:1"),
        connection.0.copied.server,
        some connection,
      ))
    × Monitors parser types passed home
        (λ url. some mill)
        2
        3
        (numbered 10)
        (codes "Drill")
        (codes "a")
        (codes "1")
        (codes "Mill")
        no_agents
        mill
        (capabilities_entry ∷ state_entry ∷ queue_entry ∷ [])
        registry_accepts
        new.0
        connection
unfolding json_string starts_with first_part quotation_mark capabilities_entry state_entry
    queue_entry node_path init_registered_agent_nodes provide_service
registered =
    add_agent_to_registry-Gives parser types passed home (λ url. some mill) 2 3 (numbered 10)
      (codes "Drill") (codes "a") (codes "1") (codes "Mill") no_agents mill drill_tokens
      (codes "500") (codes "2000") (capabilities_entry ∷ state_entry ∷ queue_entry ∷ [])
      registry_accepts mill-Readable refl drill_tokens-Describes refl refl (13, refl, omega arith)

abbrev value_of : NodeId → Content types ℕ
value_of n = plain (number_of n)

abbrev first_report : Round (Content types ℕ)
first_report = brings (plain 0) (reports value_of registered.0.1.items registered.0.1.contexts)

add_agent_to_registry-mirrors_example :
    let synced =
      (sync_registered_agents
        (store registry values)
        (numbered 99)
        (after_passes (away (plain 0) ∷ first_report ∷ []) quiet ∷ [])).0 in
    All
      (λ n. synced.values n.node_id_on_aggregation_server ≡ value_of n.node_id)
      registered.0.0.copied.subscription_nodes
    × (map (λ n. n.node_id) registered.0.0.copied.subscription_nodes
        ≡ node_id_numeric 1 3 ∷ node_id_numeric 1 5 ∷ node_id_numeric 1 3 ∷ [])
unfolding json_string starts_with first_part quotation_mark variables_below capabilities_entry
    state_entry queue_entry node_path init_registered_agent_nodes provide_service
add_agent_to_registry-mirrors_example =
    add_agent_to_registry-mirrors parser types passed home (λ url. some mill) 2 3 (numbered 10)
      (codes "Drill") (codes "a") (codes "1") (codes "Mill") no_agents values mill drill_tokens
      (codes "500") (codes "2000") (capabilities_entry ∷ state_entry ∷ queue_entry ∷ [])
      registry_accepts mill-Readable refl drill_tokens-Describes refl refl (13, refl, omega arith)
      registry-IsStore _ _ (numbered 99) registered.0 value_of (away (plain 0) ∷ []) first_report
      quiet registered.1 ((refl, refl, refl), _) refl refl refl
