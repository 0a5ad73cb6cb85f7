-- ===== src/Main.antt =====
-- main.c: as long as no signal has come, the server makes one iteration, and then the response queues of
-- all agents are written; after that the registry is cleared.
pub mod Laws
use swap_it_registry_module.Prelude.{
  ℕ, zero, suc, Bool, true, false, Option, none, some, ◌>>=◌, List, [], ◌∷◌, if◌then◌else◌,
}
use swap_it_registry_module.Agents.{AgentList}
use swap_it_registry_module.Sync.{ServerValues, sync_registered_agents}
use swap_it_registry_module.ReadAgent.{Status, good, bad_not_connected}
use swap_it_registry_module.Clear.{ServerEntry, clear_registry_module}
use swap_it_registry_module.Clear.Contexts.{ContextServer}

-- `EXIT_SUCCESS` and `EXIT_FAILURE`
pub data ExitCode : Type 0 where
  exit_success exit_failure : ExitCode

unfoldable pub exit_code : Status → ExitCode
exit_code good = exit_success
exit_code bad_not_connected = exit_failure

-- `stopHandler`, with the global variable `running`
unfoldable pub stop_handler : Bool → Bool
stop_handler running = false

module _ {V : Type 0} (server : ServerValues V) where
  open server use {State}

  -- The server, and the aggregates of each agent.
  pub record Running : Type 1 where
    pub state : State
    pub asc : AgentList (ServerEntry V)

  -- What a pass of the loop meets: what has changed when the iteration of the server is over, by the calls
  -- of methods, the reads of values, and the client threads; and whether a signal comes before its end.
  pub record Pass : Type 1 where
    pub iterate : Running → Running
    pub signalled : Bool

  -- The loop over the agents, with as many left as `number_agents` says; a read behind the array is
  -- undefined.
  unfoldable pub sync_agents :
      ℕ → State → List (ServerEntry V) → Option (State × List (ServerEntry V))
  unfolding sync_registered_agents
  sync_agents zero st agents = some (st, agents)
  sync_agents (suc left) st [] = none
  sync_agents (suc left) st (agent ∷ agents) =
      let synced = sync_registered_agents server st agent.aggregate_config in
      sync_agents left synced.0 agents >>= λ rest.
      some (rest.0, record agent { aggregate_config = synced.1 } ∷ rest.1)

  -- The second half of a pass.
  unfoldable pub synchronize_all : Running → Option Running
  unfolding sync_agents
  synchronize_all s = sync_agents s.asc.number_agents s.state s.asc.agents >>= λ synced.
      some (record { state = synced.0; asc = record s.asc { agents = synced.1 } })

  -- `while(running)`, as far as the passes are given, with the last value of `running`.
  unfoldable pub main_loop : List Pass → Bool → Running → Option (Bool × Running)
  unfolding synchronize_all stop_handler
  main_loop [] running s = some (running, s)
  main_loop (pass ∷ passes) false s = some (false, s)
  main_loop (pass ∷ passes) true s =
      synchronize_all (pass.iterate s)
      >>= main_loop passes (if pass.signalled then stop_handler true else true)

  pub data Ended : Type 1 where
    still_running : Running → Ended
    exited : ExitCode → Ended

  -- The list of agents as `start_registry_module` leaves it, with the server.
  abbrev pub started : State → Running
  started st = record {
    state = st;
    asc = record { agents = []; agent_url = []; number_agents = 0 };
  }

  -- `contexts` is what the clearing reads of the server, `fuel` the depth of its nodes.
  module _ (contexts : State → ContextServer) (fuel : ℕ) where
    -- What follows the loop. The status of the clearing is always good.
    unfoldable pub finish : Bool × Running → Option Ended
    unfolding clear_registry_module exit_code
    finish (true, s) = some (still_running s)
    finish (false, s) = clear_registry_module (contexts s.state) fuel s.asc >>= λ cleared.
        some (exited (exit_code good))

    unfoldable pub main : List Pass → State → Option Ended
    unfolding main_loop finish
    main passes st = main_loop passes true (started st) >>= finish
