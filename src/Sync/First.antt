-- ===== src/Sync/First.antt =====
-- The first values that an agent reports for its monitored items, up to the server.
use swap_it_registry_module.Prelude.{
  ◌≡◌, ◌≢◌, refl, ◌∙◌, List, [], ◌∷◌, ◌++◌, map, foldl, reverse, All, Distinct, arith,
}
use swap_it_registry_module.Ua.{NodeId, node_id_equal_iff}
use swap_it_registry_module.Sync.{
  AggregateConfig, Round, ServerValues, client_loop, notify, sync_registered_agents,
}
use swap_it_registry_module.Sync.Writes.{
  IsStore, answer, last_value, first_value, read-write_responses, last_value-append,
  last_value-notify,
}
use swap_it_registry_module.Sync.Rounds.{IsUnreachable, IsServing, client_loop-resumes}

module _ {V : Type 0} where
  abbrev nodes_of : List (NodeId × V) → List NodeId
  nodes_of = map (λ x. x.0)

  -- What the passes of the client do with an aggregate.
  abbrev pub after_passes : List (Round V) → AggregateConfig V → AggregateConfig V
  after_passes rounds config = record config { queues = client_loop rounds config.queues }

  -- A first notification for another node.
  first_value-other :
      (m : NodeId) (w : V) (v : NodeId → V) (notifications rest : List (NodeId × V))
      → All (λ n. m ≢ n) (nodes_of rest)
      → All (λ x. first_value x.0 notifications (v x.0) ≡ x.1) rest
      → All (λ x. first_value x.0 ((m, w) ∷ notifications) (v x.0) ≡ x.1) rest
  first_value-other m w v notifications [] h k = _
  first_value-other m w v notifications ((n, u) ∷ rest) h k = (
    ground (arith, node_id_equal_iff m n, h.0),
    first_value-other m w v notifications rest h.1 k.1,
  )

  -- With one notification for each node, that is the first one for it.
  first_value-Distinct :
      (v : NodeId → V) (notifications : List (NodeId × V))
      → Distinct (nodes_of notifications)
      → All (λ x. first_value x.0 notifications (v x.0) ≡ x.1) notifications
  first_value-Distinct v [] h = _
  first_value-Distinct v ((n, w) ∷ notifications) h = (
    ground (arith, node_id_equal_iff n n),
    first_value-other n w v notifications notifications h.0
        (first_value-Distinct v notifications h.1),
  )

  module _ (server : ServerValues V) (laws : IsStore server) where
    -- What a node has after the first pass that serves, and the synchronisation after it.
    read-first_sync :
        (st : server.State) (rounds : List (Round V)) (r : Round V) (config : AggregateConfig V)
        (n : NodeId)
        → All IsUnreachable rounds
        → IsServing r
        → config.queues.responses ≡ []
        → server.read_value
            (sync_registered_agents server st (after_passes (rounds ++ r ∷ []) config ∷ [])).0
            n
          ≡ first_value n r.notifications (
              last_value n
                (reverse (map (answer r.read) config.queues.requests))
                (server.read_value st n))
    unfolding sync_registered_agents
    read-first_sync st rounds r config n h serving e =
        let answers = reverse (map (answer r.read) config.queues.requests) in
        let notified = (foldl notify config.queues r.notifications).responses in
        rw
          (
            client_loop-resumes rounds r config.queues h serving,
            read-write_responses server laws st (answers ++ notified) n,
            last_value-append server laws n answers notified (server.read_value st n),
            last_value-notify server laws n r.notifications config.queues
                (last_value n answers (server.read_value st n)),
            e,
          )
          refl

    All-read :
        (f g : NodeId → V) (rest : List (NodeId × V))
        → ((n : NodeId) → f n ≡ g n)
        → All (λ x. g x.0 ≡ x.1) rest
        → All (λ x. f x.0 ≡ x.1) rest
    All-read f g [] h k = _
    All-read f g (x ∷ rest) h k = (h x.0 ∙ k.0, All-read f g rest h k.1)

    -- Let no response wait. However long the agent cannot be reached: after the first pass that serves,
    -- and the synchronisation after it, each node for which this pass brings just one notification has the
    -- value of this notification, if there are no two for one node.
    pub first_sync_mirrors :
        (st : server.State) (rounds : List (Round V)) (r : Round V) (config : AggregateConfig V)
        → All IsUnreachable rounds
        → IsServing r
        → config.queues.responses ≡ []
        → Distinct (nodes_of r.notifications)
        → All
            (λ x.
              server.read_value
                (sync_registered_agents server st (after_passes (rounds ++ r ∷ []) config ∷ [])).0
                x.0
              ≡ x.1)
            r.notifications
    first_sync_mirrors st rounds r config h serving e distinct =
        let v = λ (n : NodeId).
          last_value n (reverse (map (answer r.read) config.queues.requests))
            (server.read_value st n) in
        All-read _ (λ n. first_value n r.notifications (v n)) r.notifications
          (λ n. read-first_sync st rounds r config n h serving e)
          (first_value-Distinct v r.notifications distinct)
