-- ===== src/Agents.antt =====
-- `UA_agent_list` (include/registry_module_internal.h): the arrays of the registered agents. How
-- `add_agent_server` (src/registry_module_register_agent.c) extends them and how
-- `remove_agent_from_registry` (src/registry_module_callback_functions.c) shortens them.
pub mod Shift
pub mod Removal
use swap_it_registry_module.Prelude.{
  ℕ, zero, suc, ◌+◌, ◌-◌, ◌%◌, ◌^◌, List, [], ◌∷◌, ◌++◌, Bytes, string_equal, get_elem?, set, take,
  Option, some, ◌>>=◌, if◌then◌else◌,
}

-- `C` is the configuration of one agent. `agents` and `agent_url` are as long as their allocations.
pub record AgentList (C : Type 0) : Type 0 where
  pub agents : List C
  pub agent_url : List Bytes
  pub number_agents : ℕ

-- `size_t` arithmetic.
abbrev pub size_mod : ℕ
size_mod = 2 ^ 64

abbrev pub size_pred : ℕ → ℕ
size_pred n = (n + size_mod - 1) % size_mod

module _ {C : Type 0} where
  -- `realloc` to one element more, the new element, and `number_agents += 1`.
  unfoldable pub append_agent : AgentList C → C → Bytes → AgentList C
  append_agent asc config url = record {
    agents = take asc.number_agents asc.agents ++ config ∷ [];
    agent_url = take asc.number_agents asc.agent_url ++ url ∷ [];
    number_agents = (asc.number_agents + 1) % size_mod;
  }

  -- The body of the loop: the entry with the URL is overwritten by the one behind it, which is a read
  -- past the arrays, and undefined, for the last entry.
  unfoldable pub shift_agent : Bytes → ℕ → AgentList C → Option (AgentList C)
  shift_agent url i asc = get_elem? asc.agent_url i >>= λ entry_url.
      (if string_equal entry_url url
        then (get_elem? asc.agents (i + 1) >>= λ next.
            get_elem? asc.agent_url (i + 1) >>= λ next_url. some (record asc {
              agents = set asc.agents i next;
              agent_url = set asc.agent_url i next_url;
            }))
        else some asc)

  -- The loop `for (i = 0; i < number_agents; i++)`, with `rounds` rounds left.
  unfoldable pub shift_agents : Bytes → ℕ → ℕ → AgentList C → Option (AgentList C)
  unfolding shift_agent
  shift_agents url zero i asc = some asc
  shift_agents url (suc rounds) i asc = shift_agent url i asc >>= shift_agents url rounds (i + 1)

  -- The loop, the two calls of `realloc`, and `number_agents--`. A size that wraps around is refused
  -- by `realloc`, which leaves no element to be used.
  unfoldable pub remove_agent : Bytes → AgentList C → Option (AgentList C)
  unfolding shift_agents
  remove_agent url asc = shift_agents url asc.number_agents 0 asc >>= λ shifted. some (record {
    agents = take (size_pred asc.number_agents) shifted.agents;
    agent_url = take (size_pred asc.number_agents) shifted.agent_url;
    number_agents = size_pred asc.number_agents;
  })
