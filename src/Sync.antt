-- ===== src/Sync.antt =====
-- The queues between the server and an agent's client: src/registry_module_synchronization.c (the
-- handlers `handler_subscriptionSynchronization` and `onRead`), the loop of
-- `aggregate_client_connection` in src/registry_module_client_interface.c, and
-- `syncRegisteredAgents` of src/registry_module_internal.c. Each of them holds the mutex of the
-- aggregate while it works on a queue, so that each is one atomic step.
pub mod Writes
pub mod OnWrite
pub mod Rounds
pub mod First
pub mod Events
use swap_it_registry_module.Prelude.{
  ℕ, Bool, true, false, not, ◌&&◌, List, [], ◌∷◌, foldl, if◌then◌else◌, Bytes,
}
use swap_it_registry_module.Ua.{NodeId}

-- `UA_AggregateValueRequest`; its field `value` is never set.
pub record ValueRequest : Type 0 where
  pub remote_node_id : NodeId
  pub local_node_id : NodeId

-- `UA_AggregateValueResponse`
pub record ValueResponse (V : Type 0) : Type 0 where
  pub local_node_id : NodeId
  pub value : V

-- The two queues of a `UA_AggregateConfig` that the threads share, the head of a list first.
pub record ValueQueues (V : Type 0) : Type 0 where
  pub requests : List ValueRequest
  pub responses : List (ValueResponse V)

-- `UA_AggregateConfig`, the members of an agent that runs: the queues, the pairs of nodes that are
-- monitored, the paths of its entry nodes, the node that its own are below, and whether its thread goes on.
pub record AggregateConfig (V : Type 0) : Type 0 where
  pub queues : ValueQueues V
  pub subscription_nodes : List (NodeId × NodeId)
  pub mapping_entrys : List Bytes
  pub nodes_entry_node : NodeId
  -- the address of the client, by which two entries with the same `aggregateConfig` are known as one
  pub client : ℕ
  pub running : Bool

-- What the server keeps: `UA_Server_writeValue`, and the value that a client of the server reads.
pub record ServerValues (V : Type 0) : Type 1 where
  pub State : Type 0
  pub write_value : State → NodeId → V → State
  pub read_value : State → NodeId → V

-- One pass of the loop `while(aggregateConfig->running)`: what the client meets in it.
pub record Round (V : Type 0) : Type 0 where
  -- `UA_Client_getState` gives `UA_STATUSCODE_GOOD`
  pub connected : Bool
  -- the client has an `applicationUri`, so that it is not being deleted
  pub has_uri : Bool
  -- `UA_Client_connect` succeeds
  pub connects : Bool
  -- the monitored items that `UA_Client_run_iterate` reports: the local nodes of their contexts
  pub notifications : List (NodeId × V)
  pub read : NodeId → V

module _ {V : Type 0} where
  -- `handler_subscriptionSynchronization`, for a monitored item with the context of this local node
  unfoldable pub handler_subscription : NodeId → V → ValueQueues V → ValueQueues V
  handler_subscription local_node_id value config = record config {
    responses = record { local_node_id = local_node_id; value = value } ∷ config.responses;
  }

  -- `onRead`, for a variable whose node context holds these two identifiers
  unfoldable pub on_read : NodeId → NodeId → ValueQueues V → ValueQueues V
  on_read remote_node_id local_node_id config = record config {
    requests =
        record { remote_node_id = remote_node_id; local_node_id = local_node_id } ∷ config.requests;
  }

  -- The loop over the request list: a response for each request is put at the head of the response
  -- list, and the request is removed. `read` is what the client reads from the agent.
  unfoldable pub process_requests :
      (NodeId → V) → List ValueRequest → List (ValueResponse V) → ValueQueues V
  process_requests read [] responses = record { requests = []; responses = responses }
  process_requests read (avr1 ∷ requests) responses =
      process_requests read requests (
        record { local_node_id = avr1.local_node_id; value = read avr1.remote_node_id } ∷ responses)

  abbrev pub notify : ValueQueues V → NodeId × V → ValueQueues V
  notify config (n, v) = handler_subscription n v config

  -- A failed reconnection goes on with the next pass.
  unfoldable pub client_round : Round V → ValueQueues V → ValueQueues V
  unfolding handler_subscription process_requests
  client_round r config =
      let iterated = foldl notify config r.notifications in
      if not r.connected && (r.has_uri && not r.connects)
      then config
      else process_requests r.read iterated.requests iterated.responses

  -- The loop, over the passes that it makes until `running` is false.
  unfoldable pub client_loop : List (Round V) → ValueQueues V → ValueQueues V
  unfolding client_round
  client_loop [] config = config
  client_loop (r ∷ rounds) config = client_loop rounds (client_round r config)

  module _ (server : ServerValues V) where
    open server use {State, write_value}

    -- The loop over the response list: each is written to the server and removed.
    unfoldable pub write_responses : State → List (ValueResponse V) → State
    write_responses st [] = st
    write_responses st (avr1 ∷ responses) =
        write_responses (write_value st avr1.local_node_id avr1.value) responses

    -- `syncRegisteredAgents`, over the aggregates of an agent
    unfoldable pub sync_registered_agents :
        State → List (AggregateConfig V) → State × List (AggregateConfig V)
    unfolding write_responses
    sync_registered_agents st [] = (st, [])
    sync_registered_agents st (config ∷ configs) =
        let (st', configs') =
          sync_registered_agents (write_responses st config.queues.responses) configs in
        (st', record config { queues = record config.queues { responses = [] } } ∷ configs')
