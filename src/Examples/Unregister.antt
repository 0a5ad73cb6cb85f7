-- ===== src/Examples/Unregister.antt =====
-- A run of `remove_agent_from_registry` on the registry of Shop, and the witnesses of Unregister. The
-- state of the server is the list of the nodes deleted so far.
use swap_it_registry_module.Prelude.{
  ◌>>=◌, ℕ, ◌≡◌, refl, Bool, true, false, not, ◌||◌, List, [], ◌∷◌, map, filter, codes, none, some,
  ◌==◌, if◌then◌else◌, string_equal, starts_with,
}
use swap_it_registry_module.Ua.{qualified_name, node_id_equal, identifier_equal}
use swap_it_registry_module.Agents.{AgentList, remove_agent}
use swap_it_registry_module.Unregister.{NodeStore, is_agent_name, remove_agent_from_registry}
use swap_it_registry_module.Unregister.Walk.{other_name}
use swap_it_registry_module.Unregister.Handler.{Way, remove_agent_from_registry-left}
use swap_it_registry_module.Examples.Shop.{number_of, component, children, name_of}

abbrev is_deleted : List ℕ → ℕ → Bool
is_deleted [] k = false
is_deleted (d ∷ st) k = d == k || is_deleted st k

abbrev store : NodeStore
store = record {
  State = List ℕ;
  references = λ st n. map component (filter (λ k. not (is_deleted st k)) (children (number_of n)));
  browse_name = λ st n.
      if is_deleted st (number_of n) then none else some (qualified_name 0 (name_of (number_of n)));
  delete_node = λ st n. number_of n ∷ st;
}

abbrev pub registered : AgentList ℕ
registered = record {
  agents = 100 ∷ 200 ∷ [];
  agent_url = codes "a:1" ∷ codes "b:1" ∷ [];
  number_agents = 2;
}

way : Way store [] (4 ∷ []) (codes "Drill") (codes "opc.tcp://a:1") (component 3) (component 4)
unfolding string_equal node_id_equal identifier_equal
way = record {
  list = component 1;
  agents = component 2;
  at_list = record {
    before = [];
    after = [];
    split = refl;
    component = refl;
    qn = _;
    read = refl;
    named = refl;
    misses_before = _;
    misses_after = _;
  };
  at_agents = record {
    before = [];
    after = [];
    split = refl;
    component = refl;
    qn = _;
    read = refl;
    named = refl;
    misses_before = _;
    misses_after = _;
  };
  at_home = record {
    before = [];
    after = [];
    split = refl;
    component = refl;
    qn = _;
    read = refl;
    named = refl;
    misses_before = _;
    misses_after = _;
  };
  at_agent = record {
    before = [];
    after = component 5 ∷ [];
    split = refl;
    component = refl;
    qn = _;
    read = refl;
    named = refl;
    misses_before = _;
    misses_after = (other_name _ refl refl, _);
  };
}

remove_agent_from_registry-left_example :
    remove_agent_from_registry store registered [] (codes "a") (codes "1") (codes "Drill")
    ≡ (remove_agent (codes "a:1") registered >>= λ list. some (list, 4 ∷ []))
unfolding string_equal node_id_equal identifier_equal is_agent_name starts_with
remove_agent_from_registry-left_example =
    remove_agent_from_registry-left store registered [] (codes "a") (codes "1") (codes "Drill")
      (component 3) (component 4) way [] [] (component 5) refl ((true, refl), _) refl
