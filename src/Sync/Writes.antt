-- ===== src/Sync/Writes.antt =====
-- What a synchronisation writes to the server.
use mathlib.Core.List.{append_assoc, reverse-cons}
use swap_it_registry_module.Prelude.{
  ◌≡◌, refl, ◌≢◌, true, false, List, [], ◌∷◌, ◌++◌, map, foldl, reverse, All, arith, if◌then◌else◌,
  Bool-cases, inl, inr,
}
use swap_it_registry_module.Ua.{NodeId, node_id_equal, node_id_equal_iff}
use swap_it_registry_module.Sync.{
  ValueRequest, ValueResponse, ValueQueues, AggregateConfig, ServerValues, handler_subscription,
  notify, process_requests, write_responses, sync_registered_agents, Round, client_round, on_read,
}

-- What is relied on of the server: a value that is written is read back, and the other nodes keep
-- theirs.
pub record IsStore {V : Type 0} (server : ServerValues V) : Type 0 where
  pub read-write :
      (st : server.State) (n : NodeId) (v : V) → server.read_value (server.write_value st n v) n ≡ v
  pub read-write_ne :
      (st : server.State) (n m : NodeId) (v : V)
      → n ≢ m
      → server.read_value (server.write_value st n v) m ≡ server.read_value st m

module _ {V : Type 0} where
  -- The value of the last response for a node, or else the value that it has.
  abbrev pub last_value : NodeId → List (ValueResponse V) → V → V
  last_value n [] v = v
  last_value n (r ∷ responses) v =
      last_value n responses (if node_id_equal r.local_node_id n then r.value else v)

  -- The value of the first of the notifications for a node, or else the value that it has.
  abbrev pub first_value : NodeId → List (NodeId × V) → V → V
  first_value n [] v = v
  first_value n ((m, w) ∷ notifications) v =
      if node_id_equal m n then w else first_value n notifications v

  -- The response for a request, as the loop builds it.
  abbrev pub answer : (NodeId → V) → ValueRequest → ValueResponse V
  answer read r = record { local_node_id = r.local_node_id; value = read r.remote_node_id }

  -- Every request is answered, none is left, and the answers stand in reverse order before the
  -- responses that were there.
  pub process_requests_lem :
      (read : NodeId → V) (requests : List ValueRequest) (responses : List (ValueResponse V))
      → process_requests read requests responses
        ≡ record { requests = []; responses = reverse (map (answer read) requests) ++ responses }
  unfolding process_requests
  process_requests_lem read [] responses = refl
  process_requests_lem read (r ∷ requests) responses =
      rw
        (
          process_requests_lem read requests (answer read r ∷ responses),
          reverse-cons (answer read r) (map (answer read) requests),
          append_assoc,
        )
        refl

  module _ (server : ServerValues V) (laws : IsStore server) where
    read-write_if :
        (st : server.State) (n m : NodeId) (v : V)
        → server.read_value (server.write_value st m v) n
          ≡ (if node_id_equal m n then v else server.read_value st n)
    read-write_if st n m v = elim (Bool-cases (node_id_equal m n)) [
      | inl e ↦ rw (e, (node_id_equal_iff m n).0 e) (laws.read-write st n v)
      | inr e ↦ rw e (laws.read-write_ne st m n v (λ p. ground (arith, node_id_equal_iff m n)))
    ]

    -- After the response list is written, a node has the value of the last response for it.
    pub read-write_responses :
        (st : server.State) (responses : List (ValueResponse V)) (n : NodeId)
        → server.read_value (write_responses server st responses) n
          ≡ last_value n responses (server.read_value st n)
    unfolding write_responses
    read-write_responses st [] n = refl
    read-write_responses st (r ∷ responses) n =
        rw
          (
            read-write_responses (server.write_value st r.local_node_id r.value) responses n,
            read-write_if st n r.local_node_id r.value,
          )
          refl

    pub last_value-notify :
        (n : NodeId) (notifications : List (NodeId × V)) (config : ValueQueues V) (v : V)
        → last_value n (foldl notify config notifications).responses v
          ≡ last_value n config.responses (first_value n notifications v)
    unfolding handler_subscription
    last_value-notify n [] config v = refl
    last_value-notify n ((m, w) ∷ notifications) config v =
        last_value-notify n notifications (notify config (m, w)) v

    -- The notifications that arrive between two synchronisations are written newest first, so that
    -- the server ends with the oldest value of a node.
    pub sync_writes_oldest :
        (st : server.State) (config : ValueQueues V) (notifications : List (NodeId × V))
        (n : NodeId)
        → config.responses ≡ []
        → server.read_value
            (write_responses server st (foldl notify config notifications).responses)
            n
          ≡ first_value n notifications (server.read_value st n)
    sync_writes_oldest st config notifications n e =
        rw
          (
            read-write_responses st (foldl notify config notifications).responses n,
            last_value-notify n notifications config (server.read_value st n),
            e,
          )
          refl

    pub last_value-append :
        (n : NodeId) (xs ys : List (ValueResponse V)) (v : V)
        → last_value n (xs ++ ys) v ≡ last_value n ys (last_value n xs v)
    last_value-append n [] ys v = refl
    last_value-append n (x ∷ xs) ys v = last_value-append n xs ys _

    last_value-none :
        (n : NodeId) (xs : List (ValueResponse V)) (v : V)
        → All (λ r. node_id_equal r.local_node_id n ≡ false) xs
        → last_value n xs v ≡ v
    last_value-none n [] v h = refl
    last_value-none n (x ∷ xs) v h = rw h.0 (last_value-none n xs v h.1)

    last_value-process_requests :
        (read : NodeId → V) (remote n : NodeId) (requests : List ValueRequest)
        (responses : List (ValueResponse V)) (v : V)
        → last_value n
            (process_requests read
              (record { remote_node_id = remote; local_node_id = n } ∷ requests)
              responses).responses
            v
          ≡ last_value n responses (read remote)
    unfolding process_requests
    last_value-process_requests read remote n requests responses v =
        let newest = answer read (record { remote_node_id = remote; local_node_id = n }) in
        rw
          (
            process_requests_lem read requests (newest ∷ responses),
            last_value-append n (reverse (map (answer read) requests)) (newest ∷ responses) v,
            (node_id_equal_iff n n).1 refl,
          )
          refl

    -- A read of a variable queues a request. Where no response for the variable waits, the next pass
    -- of a connected client without notifications, and the synchronisation after it, give the
    -- variable the value that the client reads from the agent, whatever else is queued.
    pub read_is_refreshed :
        (st : server.State) (config : ValueQueues V) (r : Round V) (remote n : NodeId)
        → r.connected ≡ true
        → r.notifications ≡ []
        → All (λ x. node_id_equal x.local_node_id n ≡ false) config.responses
        → server.read_value
            (write_responses server st (client_round r (on_read remote n config)).responses)
            n
          ≡ r.read remote
    unfolding client_round on_read
    read_is_refreshed st config r remote n up quiet h =
        let asked : List ValueRequest =
          record { remote_node_id = remote; local_node_id = n } ∷ config.requests in
        rw
          (
            up,
            quiet,
            read-write_responses st (process_requests r.read asked config.responses).responses n,
            last_value-process_requests r.read remote n config.requests config.responses
                (server.read_value st n),
          )
          (last_value-none n config.responses (r.read remote) h)

  abbrev pub drained : AggregateConfig V → AggregateConfig V
  drained config = record config { queues = record config.queues { responses = [] } }

  -- A synchronisation writes the response lists of all aggregates in turn, empties each, and leaves
  -- the request lists alone.
  pub sync_registered_agents_lem :
      (server : ServerValues V) (st : server.State) (configs : List (AggregateConfig V))
      → sync_registered_agents server st configs ≡ (
        foldl (λ st' c. write_responses server st' c.queues.responses) st configs,
        map drained configs,
      )
  unfolding sync_registered_agents
  sync_registered_agents_lem server st [] = refl
  sync_registered_agents_lem server st (c ∷ configs) =
      rw (sync_registered_agents_lem server (write_responses server st c.queues.responses) configs)
        refl
