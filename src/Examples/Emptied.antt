-- ===== src/Examples/Emptied.antt =====
-- The removal of the last agent of the shop. The state of the server is the list of the nodes deleted so
-- far, among them the other agent.
use swap_it_registry_module.Prelude.{
  ◌>>=◌, ◌≡◌, ◌≢◌, refl, List, [], ◌∷◌, All, codes, some, string_equal,
}
use swap_it_registry_module.Ua.{NodeId, node_id_equal, identifier_equal, objects_folder}
use swap_it_registry_module.Agents.{remove_agent}
use swap_it_registry_module.Filter.Find.{find_agents}
use swap_it_registry_module.Filter.Find.Path.{Route}
use swap_it_registry_module.Unregister.{remove_agent_from_registry}
use swap_it_registry_module.Unregister.Left.{IsOther}
use swap_it_registry_module.Unregister.Handler.{Way}
use swap_it_registry_module.Unregister.Kept.{view}
use swap_it_registry_module.Unregister.Emptied.{remove_agent_from_registry-none_found}
use swap_it_registry_module.Examples.Shop.{component}
use swap_it_registry_module.Examples.Filter.{agent}
use swap_it_registry_module.Examples.Unregister.{registered}
use swap_it_registry_module.Examples.Removal.{store, unread, url, deletes, apart}

abbrev start : List NodeId
start = agent 5 ∷ []

unfoldable way :
    Way store start (agent 3 ∷ agent 4 ∷ start) (codes "Drill") url (component 3) (component 4)
unfolding string_equal node_id_equal identifier_equal
way = record {
  list = component 1;
  agents = component 2;
  at_list = record {
    before = [];
    after = [];
    split = refl;
    component = refl;
    qn = _;
    read = refl;
    named = refl;
    misses_before = _;
    misses_after = _;
  };
  at_agents = record {
    before = [];
    after = [];
    split = refl;
    component = refl;
    qn = _;
    read = refl;
    named = refl;
    misses_before = _;
    misses_after = _;
  };
  at_home = record {
    before = [];
    after = [];
    split = refl;
    component = refl;
    qn = _;
    read = refl;
    named = refl;
    misses_before = _;
    misses_after = _;
  };
  at_agent = record {
    before = [];
    after = [];
    split = refl;
    component = refl;
    qn = _;
    read = refl;
    named = refl;
    misses_before = _;
    misses_after = _;
  };
}

route : Route (view store unread) start (codes "Drill") way.list way.agents (component 3)
unfolding way string_equal node_id_equal identifier_equal
route = record {
  at_list = record {
    before = [];
    after = [];
    split = refl;
    component = refl;
    named = refl;
    misses_before = tt;
    misses_after = tt;
  };
  at_agents = record {
    before = [];
    after = [];
    split = refl;
    component = refl;
    named = refl;
    misses_before = tt;
    misses_after = tt;
  };
  at_service = record {
    before = [];
    after = [];
    split = refl;
    component = refl;
    named = refl;
    misses_before = tt;
    misses_after = tt;
  };
}

others : All (λ r. r.child_id ≢ agent 4 → IsOther store start r) (store.references start (agent 3))
unfolding node_id_equal identifier_equal
others = ((λ h. absurd (h refl)), tt)

below_agent :
    All (λ m. m ≢ agent 4) (agent 3 ∷ objects_folder ∷ way.list.child_id ∷ way.agents.child_id ∷ [])
unfolding way node_id_equal identifier_equal
below_agent = (
  apart (agent 4) (agent 3) refl,
  (
    apart (agent 4) objects_folder refl,
    (apart (agent 4) (agent 1) refl, (apart (agent 4) (agent 2) refl, tt)),
  ),
)

below_home : All (λ m. m ≢ agent 3) (objects_folder ∷ way.list.child_id ∷ way.agents.child_id ∷ [])
unfolding way node_id_equal identifier_equal
below_home = (
  apart (agent 3) objects_folder refl,
  (apart (agent 3) (agent 1) refl, (apart (agent 3) (agent 2) refl, tt)),
)

remove_agent_from_registry-none_found_example :
    (remove_agent_from_registry store registered start (codes "a") (codes "1") (codes "Drill")
      ≡ (remove_agent (codes "a:1") registered >>= λ list. some (list, agent 3 ∷ agent 4 ∷ start)))
    × ((find_agents
          (view store unread)
          (agent 3 ∷ agent 4 ∷ start)
          (codes "Drill")).target_node_nodeid
        ≡ [])
remove_agent_from_registry-none_found_example =
    remove_agent_from_registry-none_found store unread registered start (codes "a") (codes "1")
      (codes "Drill") (component 3) (component 4) way route (deletes start (agent 4))
      (deletes (agent 4 ∷ start) (agent 3)) below_agent below_home others
