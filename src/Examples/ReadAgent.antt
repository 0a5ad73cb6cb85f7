-- ===== src/Examples/ReadAgent.antt =====
-- The witnesses of NodeIterator and ReadAgent, on the agent of Mill.
use swap_it_registry_module.Prelude.{
  ℕ, true, ◌>>=◌, ◌≡◌, refl, none, some, false, [], ◌∷◌, map, All, Distinct, codes, Gives, arith,
}
use swap_it_registry_module.Ua.{NodeId, node_id_numeric}
use swap_it_registry_module.Config.{subscription, callback_read}
use swap_it_registry_module.Register.{Endpoint}
use swap_it_registry_module.NodeIterator.{Handle, Copied, null_id}
use swap_it_registry_module.NodeIterator.Copy.{node_iter}
use swap_it_registry_module.NodeIterator.Reached.{variables_below, calls_below, IsWithin}
use swap_it_registry_module.NodeIterator.Queues.{Kept, local_ids}
use swap_it_registry_module.NodeIterator.Calls.{Calls, Copies}
use swap_it_registry_module.NodeIterator.Laws.{node_iter-Gives}
use swap_it_registry_module.ReadAgent.{connect_registered_agent}
use swap_it_registry_module.ReadAgent.Laws.{Entry, mapping_entry, connect_registered_agent-Gives}
use swap_it_registry_module.Values.{Content, plain}
use swap_it_registry_module.Sync.{Round}
use swap_it_registry_module.NodeIterator.Store.{store}
use swap_it_registry_module.ReadAgent.{Read, MonitoredItems}
use swap_it_registry_module.ReadAgent.Refreshed.{
  read_node, after_pass, connect_registered_agent-refreshes,
}
use swap_it_registry_module.Examples.Shop.{number_of}
use swap_it_registry_module.Examples.Mill.{
  attached, values, registry-IsStore, quiet, types, passed, mill, mill-Readable, registry,
  registry_accepts, Has, Numbered, numbered, node, state_entry,
}

abbrev handle : Handle
handle = record {
  parent = node_id_numeric 1 7;
  remote_parent_object = node_id_numeric 1 2;
  synchronization = some subscription;
}

abbrev queue_at : ℕ → Copied Numbered
queue_at k = record { server = numbered k; subscription_nodes = [] }

node_iter-Gives_example :
    Gives
      (Copies registry_accepts subscription (node_id_numeric 1 5 ∷ []) [] (queue_at 10))
      (node_iter types passed mill registry 1 2 handle (queue_at 10) (node 4))
unfolding variables_below calls_below IsWithin
node_iter-Gives_example =
    node_iter-Gives types passed mill registry mill-Readable registry_accepts 1 2 subscription
      handle (queue_at 10) (node 4) (λ i o. (λ j q. _, _)) refl (7, refl, omega arith)

abbrev home : Endpoint
home = record { ip = codes "a"; port = codes "1" }

connect_registered_agent-Gives_example :
    Gives
      (λ result.
        Kept registry_accepts (numbered 10) result.0.copied.server
        × (result.1.items ≡ node_id_numeric 1 5 ∷ node_id_numeric 1 3 ∷ [])
        × (result.1 ≡ record {
          items = map (λ n. n.node_id) result.0.copied.subscription_nodes;
          contexts = local_ids result.0.copied.subscription_nodes;
        })
        × All (Has result.0.copied.server) result.1.contexts
        × All (λ n. ¬ (Has (numbered 10) n)) result.1.contexts
        × Distinct result.1.contexts
        × Calls registry_accepts
            ((node_id_numeric 1 6, node_id_numeric 1 2, none) ∷ [])
            (queue_at 10)
            result.0.copied)
      (connect_registered_agent types passed registry 2 3
        (λ url. some mill)
        home
        (node_id_numeric 1 7)
        (mapping_entry types passed mill 2 3 state_entry ∷ [])
        (numbered 10))
unfolding variables_below calls_below state_entry
connect_registered_agent-Gives_example =
    connect_registered_agent-Gives types passed mill registry mill-Readable registry_accepts 2 3
      (node_id_numeric 1 7) (λ url. some mill) home (state_entry ∷ []) (numbered 10) refl
      (7, refl, omega arith)

abbrev read_entry : Entry types passed mill 2 3
read_entry = record state_entry { mode = callback_read }

-- The client reads the number of a node.
abbrev pass : Round (Content types ℕ)
pass = record {
  connected = true;
  has_uri = true;
  connects = true;
  notifications = [];
  read = λ n. plain (number_of n);
}

connect_registered_agent-refreshes_example :
    (result : Read types passed registry × MonitoredItems) × (connect_registered_agent types passed
        registry 2 3
        (λ url. some mill)
        home
        (node_id_numeric 1 7)
        (mapping_entry types passed mill 2 3 read_entry ∷ [])
        (numbered 10)
      ≡ some result)
    × (n : NodeId) × Has result.0.copied.server n
    × (¬ (Has (numbered 10) n))
    × ((read_node (store registry values) (attached result.0.copied.server n) quiet >>= λ asked.
          some ((after_pass (store registry values) (numbered 99) pass asked).values n))
        ≡ some (plain 5))
unfolding calls_below state_entry
connect_registered_agent-refreshes_example =
    connect_registered_agent-refreshes types passed mill registry mill-Readable registry_accepts 2 3
      (node_id_numeric 1 7) values registry-IsStore (λ url. some mill) home (read_entry ∷ [])
      (numbered 10) (numbered 99) (node_id_numeric 1 5) (record { on_write = false })
      ((node_id_numeric 1 3, null_id, some (record { on_write = false })) ∷ [])
      ((node_id_numeric 1 6, node_id_numeric 1 2, none) ∷ []) pass quiet refl (7, refl, omega arith)
      refl refl refl refl
