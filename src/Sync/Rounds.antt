-- ===== src/Sync/Rounds.antt =====
-- The client's loop while the agent cannot be reached, and after it is reached again.
use swap_it_registry_module.Prelude.{
  ◌≡◌, refl, true, false, not, ◌&&◌, List, [], ◌∷◌, ◌++◌, All, map, foldl, reverse, arith,
}
use swap_it_registry_module.Sync.{
  ValueQueues, Round, client_round, client_loop, notify, handler_subscription,
}
use swap_it_registry_module.Sync.Writes.{answer, process_requests_lem}

module _ {V : Type 0} where
  -- The connection is lost, the client is alive, and the attempt to connect again fails.
  abbrev pub IsUnreachable : Round V → Type 0
  IsUnreachable r = (r.connected ≡ false) × (r.has_uri ≡ true) × (r.connects ≡ false)

  -- The pass goes on to iterate the client.
  abbrev pub IsServing : Round V → Type 0
  IsServing r = (not r.connected && (r.has_uri && not r.connects)) ≡ false

  requests-notify :
      (notifications : List _) (config : ValueQueues V)
      → (foldl notify config notifications).requests ≡ config.requests
  unfolding handler_subscription
  requests-notify [] config = refl
  requests-notify ((n, w) ∷ notifications) config =
      requests-notify notifications (notify config (n, w))

  unreachable_keeps :
      (rounds : List (Round V)) (config : ValueQueues V)
      → All IsUnreachable rounds
      → client_loop rounds config ≡ config
  unfolding client_loop
  unreachable_keeps [] config h = refl
  unreachable_keeps (r ∷ rounds) config h =
      let idle : client_round r config ≡ config = ground arith in
      rw idle (unreachable_keeps rounds config h.1)

  client_loop-append :
      (rounds rest : List (Round V)) (config : ValueQueues V)
      → client_loop (rounds ++ rest) config ≡ client_loop rest (client_loop rounds config)
  unfolding client_loop
  client_loop-append [] rest config = refl
  client_loop-append (r ∷ rounds) rest config =
      client_loop-append rounds rest (client_round r config)

  -- However long an agent cannot be reached, no request is lost: the first pass that serves answers
  -- each of them once, with what the client then reads, leaves none, and puts the answers before
  -- the responses that waited or came in with the pass.
  pub client_loop-resumes :
      (rounds : List (Round V)) (r : Round V) (config : ValueQueues V)
      → All IsUnreachable rounds
      → IsServing r
      → client_loop (rounds ++ r ∷ []) config ≡ record {
        requests = [];
        responses =
            reverse (map (answer r.read) config.requests)
            ++ (foldl notify config r.notifications).responses;
      }
  unfolding client_loop
  client_loop-resumes rounds r config h serving =
      rw
        (
          client_loop-append rounds (r ∷ []) config,
          unreachable_keeps rounds config h,
          serving,
          process_requests_lem r.read (foldl notify config r.notifications).requests
              (foldl notify config r.notifications).responses,
          requests-notify r.notifications config,
        )
        refl
