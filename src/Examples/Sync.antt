-- ===== src/Examples/Sync.antt =====
-- The queues of one agent, with numbers for values.
use swap_it_registry_module.Prelude.{
  ℕ, ◌≡◌, refl, true, false, [], ◌∷◌, foldl, if◌then◌else◌, arith,
}
use swap_it_registry_module.Ua.{NodeId, node_id_numeric, node_id_equal, node_id_equal_iff}
use swap_it_registry_module.Sync.{
  ValueQueues, AggregateConfig, ServerValues, Round, handler_subscription, client_loop, notify,
  write_responses,
}
use swap_it_registry_module.Sync.Writes.{IsStore, first_value, sync_writes_oldest}
use swap_it_registry_module.Sync.Rounds.{client_loop-resumes}
use swap_it_registry_module.Sync.Events.{
  notified, requested, served, synced, run, start, IsAccounted, run_accounts,
}

-- A server that keeps its values in a function.
abbrev pub memory : ServerValues ℕ
memory = record {
  State = NodeId → ℕ;
  write_value = λ st n v m. if node_id_equal n m then v else st m;
  read_value = λ st n. st n;
}

pub memory-IsStore : IsStore memory
memory-IsStore = record {
  read-write = λ st n v. ground (arith, node_id_equal_iff n n);
  read-write_ne = λ st n m v h. ground (arith, node_id_equal_iff n m);
}

abbrev pub node : ℕ → NodeId
node = node_id_numeric 1

abbrev pub empty : ValueQueues ℕ
empty = record { requests = []; responses = [] }

abbrev pub zeros : NodeId → ℕ
zeros n = 0

abbrev away : Round ℕ
away = record {
  connected = false;
  has_uri = true;
  connects = false;
  notifications = [];
  read = λ n. 0;
}

abbrev back : Round ℕ
back = record {
  connected = true;
  has_uri = true;
  connects = true;
  notifications = [];
  read = λ n. 9;
}

-- Two notifications for one node, 1 and then 2: the server ends with 1.
sync_writes_oldest_example :
    memory.read_value
      (write_responses memory zeros (foldl notify empty ((node 7, 1) ∷ (node 7, 2) ∷ [])).responses)
      (node 7)
    ≡ first_value (node 7) ((node 7, 1) ∷ (node 7, 2) ∷ []) (memory.read_value zeros (node 7))
sync_writes_oldest_example =
    sync_writes_oldest memory memory-IsStore zeros empty ((node 7, 1) ∷ (node 7, 2) ∷ []) (node 7)
      refl

stale_value :
    (write_responses memory zeros (foldl notify empty ((node 7, 1) ∷ (node 7, 2) ∷ [])).responses)
      (node 7)
    ≡ 1
unfolding write_responses handler_subscription node_id_equal
stale_value = refl

client_loop-resumes_example :
    client_loop
      (away ∷ away ∷ back ∷ [])
      (record empty { requests = record { remote_node_id = node 70; local_node_id = node 7 } ∷ [] })
    ≡ record { requests = []; responses = record { local_node_id = node 7; value = 9 } ∷ [] }
client_loop-resumes_example =
    client_loop-resumes (away ∷ away ∷ []) back
      (record empty { requests = record { remote_node_id = node 70; local_node_id = node 7 } ∷ [] })
      ((refl, refl, refl), ((refl, refl, refl), tt)) refl

-- An aggregate of which just the queues count here.
abbrev aggregate : AggregateConfig ℕ
aggregate = record {
  queues = empty;
  subscription_nodes = [];
  mapping_entrys = [];
  nodes_entry_node = node 1;
  client = 7;
  running = true;
}

run_accounts_example : IsAccounted memory zeros (
    run memory
      (start memory aggregate zeros)
      (notified (node 7) 1 ∷ requested (node 70) (node 7) ∷ served (λ n. 9) ∷ synced ∷ []))
run_accounts_example =
    run_accounts memory aggregate zeros
      (notified (node 7) 1 ∷ requested (node 70) (node 7) ∷ served (λ n. 9) ∷ synced ∷ [])
