-- ===== src/Main/Laws.antt =====
-- What the loop of the program keeps up, and how the program ends.
use swap_it_registry_module.Prelude.{
  ℕ, ◌≡◌, refl, sym, ap, subst, ◌∙◌, if◌then◌else◌, Bool, true, false, Option, none, some, ◌>>=◌,
  List, [], ◌∷◌, ◌++◌, map, foldl, All, length, length-map, Gives,
}
use swap_it_registry_module.Sync.{ValueRequest, AggregateConfig, ServerValues, write_responses}
use swap_it_registry_module.Sync.Writes.{drained, sync_registered_agents_lem}
use swap_it_registry_module.ReadAgent.{good}
use swap_it_registry_module.Clear.Contexts.{ContextServer, Freed, free_all}
use swap_it_registry_module.Clear.{ServerEntry}
use swap_it_registry_module.Clear.Waits.{waiting_request, clear_registry_module-Waits}
use swap_it_registry_module.Clear.Laws.{
  IsIdle, IsShallow, all_frees, all_cleared, clear_registry_module-IsIdle,
}
use swap_it_registry_module.Main.{
  Running, Pass, sync_agents, synchronize_all, stop_handler, main_loop, exited, exit_success,
  exit_code, started, finish, main,
}

module _ {V : Type 0} (server : ServerValues V) where
  open server use {State}

  -- The server after the responses of all aggregates of an agent.
  abbrev pub written : State → List (AggregateConfig V) → State
  written = foldl (λ st c. write_responses server st c.queues.responses)

  abbrev written_agent : State → ServerEntry V → State
  written_agent st agent = written st agent.aggregate_config

  abbrev drained_agent : ServerEntry V → ServerEntry V
  drained_agent agent = record agent { aggregate_config = map drained agent.aggregate_config }

  sync_agents_lem :
      (st : State) (agents : List (ServerEntry V))
      → sync_agents server (length agents) st agents
        ≡ some (foldl written_agent st agents, map drained_agent agents)
  unfolding sync_agents
  sync_agents_lem st [] = refl
  sync_agents_lem st (agent ∷ agents) =
      rw
        (
          sync_registered_agents_lem server st agent.aggregate_config,
          sync_agents_lem (written_agent st agent) agents,
        )
        refl

  -- No response waits.
  abbrev pub IsDrained : List (ServerEntry V) → Type 0
  IsDrained = All (λ a. All (λ c. c.queues.responses ≡ []) a.aggregate_config)

  configs-IsDrained :
      (configs : List (AggregateConfig V))
      → All (λ c. c.queues.responses ≡ []) (map drained configs)
  configs-IsDrained [] = _
  configs-IsDrained (c ∷ configs) = (refl, configs-IsDrained configs)

  agents-IsDrained : (agents : List (ServerEntry V)) → IsDrained (map drained_agent agents)
  agents-IsDrained [] = _
  agents-IsDrained (a ∷ agents) = (configs-IsDrained a.aggregate_config, agents-IsDrained agents)

  -- The number of agents is that of both arrays.
  abbrev pub IsCounted : Running server → Type 0
  IsCounted s =
      (s.asc.number_agents ≡ length s.asc.agents) × (length s.asc.agent_url ≡ length s.asc.agents)

  -- If the number of agents is that of the array, a pass writes the responses of all agents, one after
  -- the other, and empties their queues of responses; the rest stays.
  synchronize_all_lem :
      (s : Running server)
      → IsCounted s
      → synchronize_all server s
        ≡ some (record {
          state = foldl written_agent s.state s.asc.agents;
          asc = record s.asc { agents = map drained_agent s.asc.agents };
        })
  unfolding synchronize_all
  synchronize_all_lem s e =
      ap (λ k. sync_agents server k s.state s.asc.agents >>= finished) e.0
      ∙ ap (λ o. o >>= finished) (sync_agents_lem s.state s.asc.agents)
    where
      finished : State × List (ServerEntry V) → Option (Running server)
      finished synced = some (record { state = synced.0; asc = record s.asc { agents = synced.1 } })

  synchronize_all-Gives :
      (s : Running server)
      → IsCounted s
      → Gives (λ s'. IsCounted s' × IsDrained s'.asc.agents) (synchronize_all server s)
  synchronize_all-Gives s e =
      let same = sym (length-map drained_agent s.asc.agents) in
      (_, synchronize_all_lem s e, ((e.0 ∙ same, e.1 ∙ same), agents-IsDrained s.asc.agents))

  -- Iterations of the server that keep the number of agents that of the arrays.
  abbrev pub KeepsCount : Pass server → Type 1
  KeepsCount pass = (s : Running server) → IsCounted s → IsCounted (pass.iterate s)

  main_loop-stopped :
      (passes : List (Pass server)) (s : Running server)
      → main_loop server passes false s ≡ some (false, s)
  unfolding main_loop
  main_loop-stopped [] s = refl
  main_loop-stopped (pass ∷ passes) s = refl

  -- The loop makes the passes up to the one in which a signal comes, from any state.
  loop-stops :
      (before after : List (Pass server)) (last : Pass server) (s : Running server)
      → All KeepsCount before
      → KeepsCount last
      → All (λ pass. pass.signalled ≡ false) before
      → last.signalled ≡ true
      → IsCounted s
      → (s' : Running server) × (main_loop server (before ++ last ∷ after) true s
          ≡ some (false, s'))
        × (main_loop server (before ++ last ∷ []) true s ≡ some (false, s'))
        × IsCounted s'
        × IsDrained s'.asc.agents
  unfolding main_loop stop_handler
  loop-stops [] after last s keeps keeps_last quiet signal e =
      let (s2, e2, h) = synchronize_all-Gives (last.iterate s) (keeps_last s e) in
      let stops = λ (passes : List (Pass server)).
        (λ i. e2 i >>= main_loop server passes (if signal i then false else true))
        ∙ main_loop-stopped passes s2 in
      (s2, stops after, stops [], h.0, h.1)
  loop-stops (pass ∷ before) after last s keeps keeps_last quiet signal e =
      let (s2, e2, h) = synchronize_all-Gives (pass.iterate s) (keeps.0 s e) in
      let (s3, e3, e4, counted, drained) =
        loop-stops before after last s2 keeps.1 keeps_last quiet.1 signal h.0 in
      let goes_on : (passes : List (Pass server))
          → main_loop server (pass ∷ passes) true s ≡ main_loop server passes true s2 =
        λ passes i. e2 i >>= main_loop server passes (if quiet.0 i then false else true) in
      (
        s3,
        goes_on (before ++ last ∷ after) ∙ e3,
        goes_on (before ++ last ∷ []) ∙ e4,
        counted,
        drained,
      )

  configs-IsIdle :
      (configs : List (AggregateConfig V))
      → All (λ c. c.queues.requests ≡ []) configs
      → All (λ c. c.queues.responses ≡ []) configs
      → All IsIdle configs
  configs-IsIdle [] h k = _
  configs-IsIdle (c ∷ configs) h k = ((h.0, k.0), configs-IsIdle configs h.1 k.1)

  agents-IsIdle :
      (agents : List (ServerEntry V))
      → All (λ a. All (λ c. c.queues.requests ≡ []) a.aggregate_config) agents
      → IsDrained agents
      → All (λ a. All IsIdle a.aggregate_config) agents
  agents-IsIdle [] h k = _
  agents-IsIdle (a ∷ agents) h k =
      (configs-IsIdle a.aggregate_config h.0 k.0, agents-IsIdle agents h.1 k.1)

  module _ (before after : List (Pass server)) (last : Pass server) (st : State)
      (keeps : All KeepsCount before) (keeps_last : KeepsCount last)
      (quiet : All (λ pass. pass.signalled ≡ false) before) (signal : last.signalled ≡ true) where
    -- Let each iteration of the server keep the number of agents that of the arrays, and let a signal
    -- come in one of the passes. Then the loop makes the passes up to this one and no further, however
    -- many would follow, and leaves the number of agents as that of the arrays, and no response that
    -- waits.
    pub main_loop-stops :
        (s : Running server) × (main_loop server (before ++ last ∷ after) true (started server st)
          ≡ some (false, s))
        × (main_loop server (before ++ last ∷ []) true (started server st) ≡ some (false, s))
        × IsCounted s
        × IsDrained s.asc.agents
    main_loop-stops =
        loop-stops before after last (started server st) keeps keeps_last quiet signal (refl, refl)

    state_of : Option (Bool × Running server) → Running server
    state_of none = started server st
    state_of (some ended) = ended.1

    module _ (contexts : State → ContextServer) (fuel : ℕ) (s : Running server)
        (stopped : main_loop server (before ++ last ∷ []) true (started server st)
          ≡ some (false, s)) where
      same : main_loop-stops.0 ≡ s
      unfolding state_of
      same = ap state_of (sym main_loop-stops.2 ∙ stopped)

      ends :
          main server contexts fuel (before ++ last ∷ after) st
          ≡ finish server contexts fuel (false, s)
      unfolding main
      ends =
          ap (λ o. o >>= finish server contexts fuel) main_loop-stops.1
          ∙ ap (λ s'. finish server contexts fuel (false, s')) same

      -- Let a signal come in a pass, as in the theorem on the loop. In the state in which it stops, let
      -- no request wait, let no more than fuel nodes lie below one another under the agents' entry
      -- nodes, and let the clearing come to no context, no client and no URL twice. Then the program
      -- exits with success, however many responses came in before the last synchronisation.
      pub main-exits :
          (freed : List Freed)
          → All (λ a. All (λ c. c.queues.requests ≡ []) a.aggregate_config) s.asc.agents
          → All (λ a. All (IsShallow (contexts s.state) fuel) a.aggregate_config) s.asc.agents
          → free_all (contexts s.state) [] (all_frees (contexts s.state) fuel s.asc.agents)
            ≡ some freed
          → main server contexts fuel (before ++ last ∷ after) st ≡ some (exited exit_success)
      unfolding finish exit_code
      main-exits freed idle shallow once =
          let counted = subst IsCounted same main_loop-stops.3 in
          let drained = subst (λ x. IsDrained x.asc.agents) same main_loop-stops.4 in
          let clears =
            clear_registry_module-IsIdle (contexts s.state) fuel s.asc counted.0 counted.1
              (agents-IsIdle s.asc.agents idle drained) shallow in
          ends
          ∙ ap (λ o. o >>= λ c. some (exited (exit_code good)))
              (clears
                ∙ ap (λ o. o >>= λ f. some (f, all_cleared (contexts s.state) fuel s.asc.agents))
                    once)

      -- Let a signal come in a pass, as in the theorem on the loop, which stops in the state s. If a request
      -- of a client that has read a variable waits there for one of the agents, then the program does not
      -- exit: the clearing is undefined.
      pub main-waits :
          (agents rest : List (ServerEntry V)) (agent : ServerEntry V)
          (xs ys : List (AggregateConfig V)) (config : AggregateConfig V) (r : ValueRequest)
          (requests : List ValueRequest)
          → s.asc.agents ≡ agents ++ agent ∷ rest
          → agent.aggregate_config ≡ xs ++ config ∷ ys
          → config.queues.requests ≡ r ∷ requests
          → main server contexts fuel (before ++ last ∷ after) st ≡ none
      unfolding finish
      main-waits agents rest agent xs ys config r requests split own e =
          let counted = subst IsCounted same main_loop-stops.3 in
          ends
          ∙ ap (λ o. o >>= λ c. some (exited (exit_code good)))
              (clear_registry_module-Waits (contexts s.state) fuel s.asc agents rest agent xs ys
                config counted.0 split own (waiting_request r requests e))
