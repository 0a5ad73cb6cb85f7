-- ===== src/Sync/Events.antt =====
-- The server thread and the client thread of an aggregate, interleaved in any order: each event is
-- one stretch of code under the mutex.
use mathlib.Core.List.{
  append-nil, append_assoc, foldl-append, perm_middle, reverse_perm, perm_append_comm, Perm,
}
use mathlib.Core.List.Perm
use swap_it_registry_module.Prelude.{
  ◌≡◌, refl, ap, sym, ◌∙◌, List, [], ◌∷◌, ◌++◌, map, foldl, reverse,
}
use swap_it_registry_module.Ua.{NodeId}
use swap_it_registry_module.Sync.{
  ValueRequest, ValueResponse, AggregateConfig, ServerValues, sync_registered_agents,
  handler_subscription, on_read, process_requests, write_responses,
}
use swap_it_registry_module.Sync.Writes.{answer, process_requests_lem}

-- `notified` and `served` are of the client thread, `requested` and `synced` of the server thread.
pub data Event (V : Type 0) : Type 0 where
  notified : (local_node_id : NodeId) → V → Event V
  requested : (remote_node_id local_node_id : NodeId) → Event V
  served : (read : NodeId → V) → Event V
  synced : Event V

-- The aggregate with its queues and the server, with a record of what came in and of what was done: the responses that
-- were made and those that were written, the requests that were made and those that were answered.
pub record System {V : Type 0} (server : ServerValues V) : Type 0 where
  pub config : AggregateConfig V
  pub state : server.State
  pub arrived : List (ValueResponse V)
  pub written : List (ValueResponse V)
  pub asked : List ValueRequest
  pub answered : List ValueRequest

module _ {V : Type 0} (server : ServerValues V) where
  abbrev first_or : AggregateConfig V → List (AggregateConfig V) → AggregateConfig V
  first_or config [] = config
  first_or config (c ∷ configs) = c

  pub step : System server → Event V → System server
  step s (notified n v) = record s {
    config = record s.config { queues = handler_subscription n v s.config.queues };
    arrived = record { local_node_id = n; value = v } ∷ s.arrived;
  }
  step s (requested remote n) = record s {
    config = record s.config { queues = on_read remote n s.config.queues };
    asked = record { remote_node_id = remote; local_node_id = n } ∷ s.asked;
  }
  step s (served read) = record s {
    config = record s.config {
      queues = process_requests read s.config.queues.requests s.config.queues.responses;
    };
    arrived = map (answer read) s.config.queues.requests ++ s.arrived;
    answered = s.answered ++ s.config.queues.requests;
  }
  step s synced =
      let after = sync_registered_agents server s.state (s.config ∷ []) in
      record s {
        config = first_or s.config after.1;
        state = after.0;
        written = s.written ++ s.config.queues.responses;
      }

  pub run : System server → List (Event V) → System server
  run = foldl step

  pub start : AggregateConfig V → server.State → System server
  start config st = record {
    config = record config { queues = record { requests = []; responses = [] } };
    state = st;
    arrived = [];
    written = [];
    asked = [];
    answered = [];
  }

  -- The server after these responses are written, one after the other.
  abbrev pub writes : server.State → List (ValueResponse V) → server.State
  writes = foldl (λ st r. server.write_value st r.local_node_id r.value)

  -- Each response that was made is written or waits, once; each request is answered or waits, once;
  -- and the server holds just what the writes make of its first state.
  pub record IsAccounted (st : server.State) (s : System server) : Type 0 where
    pub responses : Perm s.arrived (s.written ++ s.config.queues.responses)
    pub requests : Perm s.asked (s.answered ++ s.config.queues.requests)
    pub state : s.state ≡ writes st s.written

  write_responses-writes :
      (st : server.State) (xs : List (ValueResponse V))
      → write_responses server st xs ≡ writes st xs
  unfolding write_responses
  write_responses-writes st [] = refl
  write_responses-writes st (x ∷ xs) =
      write_responses-writes (server.write_value st x.local_node_id x.value) xs

  -- A new entry, or a batch of them in any order, joins what waits.
  Perm-enter {ℓ} :
      {A : Type ℓ} (a : A) (all done waiting : List A)
      → Perm all (done ++ waiting)
      → Perm (a ∷ all) (done ++ a ∷ waiting)
  Perm-enter a all done waiting h =
      Perm.trans (Perm.cons a h) (Perm.symm (perm_middle done waiting))

  Perm-enter_batch {ℓ} :
      {A : Type ℓ} (batch all done waiting : List A)
      → Perm all (done ++ waiting)
      → Perm (batch ++ all) (done ++ (reverse batch ++ waiting))
  Perm-enter_batch batch all done waiting h = Perm.trans (Perm.append_left batch h) (
      rw (← append_assoc batch done waiting, ← append_assoc done (reverse batch) waiting)
        (Perm.append_right waiting (
          Perm.trans (perm_append_comm batch done)
            (Perm.append_left done (Perm.symm (reverse_perm batch))))))

  step-IsAccounted :
      (st : server.State) (s : System server) (e : Event V)
      → IsAccounted st s
      → IsAccounted st (step s e)
  unfolding step handler_subscription on_read sync_registered_agents
  step-IsAccounted st s (notified n v) h = record {
    responses = Perm-enter _ s.arrived s.written s.config.queues.responses h.responses;
    requests = h.requests;
    state = h.state;
  }
  step-IsAccounted st s (requested remote n) h = record {
    responses = h.responses;
    requests = Perm-enter _ s.asked s.answered s.config.queues.requests h.requests;
    state = h.state;
  }
  step-IsAccounted st s (served read) h =
      rw (process_requests_lem read s.config.queues.requests s.config.queues.responses) (record {
        responses =
            Perm-enter_batch (map (answer read) s.config.queues.requests) s.arrived s.written
              s.config.queues.responses h.responses;
        requests = rw append-nil h.requests;
        state = h.state;
      })
  step-IsAccounted st s synced h = record {
    responses = rw append-nil h.responses;
    requests = h.requests;
    state =
        write_responses-writes s.state s.config.queues.responses
        ∙ ap (λ x. writes x s.config.queues.responses) h.state
        ∙ sym (foldl-append _ st s.written s.config.queues.responses);
  }

  run-IsAccounted :
      (st : server.State) (s : System server) (events : List (Event V))
      → IsAccounted st s
      → IsAccounted st (run s events)
  unfolding run
  run-IsAccounted st s [] h = h
  run-IsAccounted st s (e ∷ events) h =
      run-IsAccounted st (step s e) events (step-IsAccounted st s e h)

  start-IsAccounted :
      (config : AggregateConfig V) (st : server.State) → IsAccounted st (start config st)
  unfolding start
  start-IsAccounted config st = record {
    responses = Perm.refl [];
    requests = Perm.refl [];
    state = refl;
  }

  -- In every interleaving of the client thread and the server thread, whose synchronisation goes
  -- through the response queue as syncRegisteredAgents does, each response that was made is written
  -- or waits, once, each request is answered or waits, once, and the server is in the state that
  -- writing the responses one by one makes of its first state.
  pub run_accounts :
      (config : AggregateConfig V) (st : server.State) (events : List (Event V))
      → IsAccounted st (run (start config st) events)
  run_accounts config st events =
      run-IsAccounted st (start config st) events (start-IsAccounted config st)
