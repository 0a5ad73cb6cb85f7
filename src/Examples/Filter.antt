-- ===== src/Examples/Filter.antt =====
-- Calls of the Filter Agents method on the shop.
use swap_it_registry_module.Prelude.{
  ℕ, ◌≡◌, ◌≢◌, refl, [], ◌∷◌, map, filter, codes, string_equal, some, none, arith,
}
use swap_it_registry_module.Ua.{
  NodeId, node_id_numeric, node_id_equal, qualified_name_equal, objects_folder,
}
use swap_it_registry_module.Ua.Levels.{Hit}
use swap_it_registry_module.Matching.{call_matching, operator_value, greater_or_equal, equal_string}
use swap_it_registry_module.Filter.{array, good, filter_agents}
use swap_it_registry_module.Filter.Find.{find_agents}
use swap_it_registry_module.Filter.Find.Path.{agents_below, find_agents_lem}
use swap_it_registry_module.Filter.Capabilities.{agent_capabilities}
use swap_it_registry_module.Filter.Suitable.{match_items, filter_by_capabilities}
use swap_it_registry_module.Filter.Suitable.Laws.{
  IsTyped, handler, suits, AreAligned, rename, filter_by_capabilities_lem, match_items-rename,
  match_items-short,
}
use swap_it_registry_module.Filter.Laws.{filter_agents_lem}
use swap_it_registry_module.Examples.Shop.{whole, component, shop_nodes, shop, speed, coat, offers}

abbrev pub agent : ℕ → NodeId
agent k = node_id_numeric 1 k

list-Hit :
    Hit shop_nodes tt
      (codes "AgentList")
      (codes "Drill")
      (shop_nodes.references tt objects_folder)
      (component 1)
unfolding string_equal node_id_equal
list-Hit = record {
  before = [];
  after = [];
  split = refl;
  component = refl;
  named = refl;
  misses_before = tt;
  misses_after = tt;
}

agents-Hit :
    Hit shop_nodes tt
      (codes "PFDLServiceAgents")
      (codes "Drill")
      (shop_nodes.references tt (agent 1))
      (component 2)
unfolding string_equal node_id_equal
agents-Hit = record {
  before = [];
  after = [];
  split = refl;
  component = refl;
  named = refl;
  misses_before = tt;
  misses_after = tt;
}

service-Hit :
    Hit shop_nodes tt
      (codes "Drill")
      (codes "Drill")
      (shop_nodes.references tt (agent 2))
      (component 3)
unfolding string_equal node_id_equal
service-Hit = record {
  before = [];
  after = [];
  split = refl;
  component = refl;
  named = refl;
  misses_before = tt;
  misses_after = tt;
}

find_agents_lem_example :
    (find_agents shop_nodes tt (codes "Drill")).target_node_nodeid
    ≡ agents_below shop_nodes tt (agent 3)
find_agents_lem_example =
    find_agents_lem shop_nodes tt (codes "Drill") (component 1) (component 2) (component 3) list-Hit
      agents-Hit service-Hit

find_agents_runs :
    (find_agents shop_nodes tt (codes "Drill")).target_node_nodeid ≡ agent 4 ∷ agent 5 ∷ []
unfolding find_agents string_equal node_id_equal qualified_name_equal
find_agents_runs = refl

speed-IsTyped : (v : ℕ) → IsTyped whole (speed v)
unfolding operator_value
speed-IsTyped v = record {
  operator = greater_or_equal;
  numbered = refl;
  operand = refl;
  valued = refl;
}

coat-IsTyped : IsTyped whole coat
unfolding operator_value
coat-IsTyped = record { operator = equal_string; numbered = refl; operand = refl; valued = refl }

pub offers-AreAligned : AreAligned whole offers (agent 4 ∷ agent 5 ∷ [])
offers-AreAligned = (
  ((refl, (refl, tt)), (speed-IsTyped 60, (coat-IsTyped, tt))),
  (((refl, (refl, tt)), (speed-IsTyped 100, (coat-IsTyped, tt))), tt),
)

filter_by_capabilities_lem_example :
    filter_by_capabilities whole
      (handler whole offers (agent 4 ∷ agent 5 ∷ []))
      (codes "speed" ∷ [])
      (codes "80" ∷ [])
    ≡ some (
        filter
          (λ n. suits whole (offers n) (codes "speed" ∷ []) (codes "80" ∷ []))
          (agent 4 ∷ agent 5 ∷ []))
filter_by_capabilities_lem_example =
    filter_by_capabilities_lem whole offers (agent 4 ∷ agent 5 ∷ []) (codes "speed" ∷ [])
      (codes "80" ∷ []) refl offers-AreAligned

-- Agent 4 offers 60 and up, agent 5 100 and up.
filter_agents_runs :
    filter_agents whole shop tt
      (codes "Drill")
      (array (codes "speed" ∷ codes "coat" ∷ []))
      (array (codes "80" ∷ codes "zinc" ∷ []))
    ≡ some (good (agent 4 ∷ []))
unfolding filter_agents string_equal node_id_equal qualified_name_equal call_matching
filter_agents_runs = refl

shop_loaded :
    (agent_capabilities shop tt (agent 4) ≡ map some (offers (agent 4)))
    × (agent_capabilities shop tt (agent 5) ≡ map some (offers (agent 5)))
unfolding agent_capabilities string_equal node_id_equal qualified_name_equal
shop_loaded = (refl, refl)

shop_agents : agents_below shop_nodes tt (agent 3) ≡ agent 4 ∷ agent 5 ∷ []
unfolding string_equal node_id_equal qualified_name_equal
shop_agents = refl

filter_agents_lem_example :
    filter_agents whole shop tt
      (codes "Drill")
      (array (codes "speed" ∷ codes "coat" ∷ []))
      (array (codes "80" ∷ codes "zinc" ∷ []))
    ≡ some (
        good (
          filter
            (λ n.
              suits whole
                (offers n)
                (codes "speed" ∷ codes "coat" ∷ [])
                (codes "80" ∷ codes "zinc" ∷ []))
            (agents_below shop_nodes tt (agent 3))))
filter_agents_lem_example =
    filter_agents_lem whole shop tt (codes "Drill") (codes "speed") (codes "coat" ∷ [])
      (codes "80" ∷ codes "zinc" ∷ []) offers (component 1) (component 2) (component 3) list-Hit
      agents-Hit service-Hit (rw shop_agents (shop_loaded.0, (shop_loaded.1, tt)))
      (rw shop_agents offers-AreAligned) refl speed-ne-none
  where
    speed-ne-none : codes "speed" ≢ codes "None"
    speed-ne-none = λ e. cc

match_items-rename_example :
    match_items whole
      (codes "speed")
      (codes "80")
      (map some (offers (agent 4)))
      (rename whole (λ s. codes "other") (map some (offers (agent 5))))
    ≡ match_items whole
        (codes "speed")
        (codes "80")
        (map some (offers (agent 4)))
        (map some (offers (agent 5)))
match_items-rename_example =
    match_items-rename whole (λ s. codes "other") (codes "speed") (codes "80")
      (map some (offers (agent 4))) (map some (offers (agent 5)))

match_items-short_example :
    match_items whole
      (codes "coat")
      (codes "zinc")
      (map some (offers (agent 4)))
      (some (speed 7) ∷ [])
    ≡ none
unfolding string_equal
match_items-short_example =
    match_items-short whole (codes "coat") (codes "zinc") (speed 60 ∷ []) coat []
      (some (speed 7) ∷ []) (refl, tt) refl (omega arith)
