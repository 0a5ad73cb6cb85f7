-- ===== src/Examples/Removal.antt =====
-- The removal of the first of the two agents of the shop, and a call of the Filter Agents method before
-- and after it. The state of the server is the list of the nodes deleted so far.
use swap_it_registry_module.Prelude.{
  ◌>>=◌, ℕ, ◌≡◌, ◌≢◌, refl, ap, Bool, true, false, ◌||◌, List, [], ◌∷◌, map, filter, codes, none,
  some, if◌then◌else◌, string_equal, starts_with, Bytes, All, arith,
}
use swap_it_registry_module.Ua.{
  NodeId, QualifiedName, qualified_name, node_id_equal, node_id_equal_iff, identifier_equal,
  qualified_name_equal, Reference, objects_folder,
}
use swap_it_registry_module.Ua.Levels.{Hit}
use swap_it_registry_module.Agents.{remove_agent}
use swap_it_registry_module.Filter.{array, good, filter_agents}
use swap_it_registry_module.Filter.Find.Path.{agents_below}
use swap_it_registry_module.Filter.Capabilities.{CapabilitySpace, agent_capabilities}
use swap_it_registry_module.Unregister.{NodeStore, is_agent_name, remove_agent_from_registry}
use swap_it_registry_module.Unregister.Walk.{other_name}
use swap_it_registry_module.Unregister.Left.{IsRead, IsAgent}
use swap_it_registry_module.Unregister.Handler.{Way}
use swap_it_registry_module.Unregister.Kept.{is_kept, view, Deletes}
use swap_it_registry_module.Unregister.Found.{Place}
use swap_it_registry_module.Unregister.Filtered.{
  capability_view, remove_agent_from_registry-filter_agents,
}
use swap_it_registry_module.Examples.Shop.{
  whole, number_of, component, children, name_of, shop, offers,
}
use swap_it_registry_module.Examples.Filter.{agent, offers-AreAligned}
use swap_it_registry_module.Examples.Unregister.{registered}

abbrev is_deleted : List NodeId → NodeId → Bool
is_deleted [] n = false
is_deleted (d ∷ st) n = node_id_equal n d || is_deleted st n

abbrev left : List NodeId → List Reference → List Reference
left [] refs = refs
left (d ∷ st) refs = filter (λ r. is_kept d r.child_id) (left st refs)

abbrev pub store : NodeStore
store = record {
  State = List NodeId;
  references = λ st n. left st (map component (children (number_of n)));
  browse_name =
      λ st n. if is_deleted st n then none else some (qualified_name 0 (name_of (number_of n)));
  delete_node = λ st n. n ∷ st;
}

abbrev pub unread : QualifiedName
unread = qualified_name 0 []

pub deletes : (st : List NodeId) (n : NodeId) → Deletes store unread st n
deletes st n = record {
  listed = λ m h. refl;
  named = λ m h.
      ap (λ b. if b then none else some (qualified_name 0 (name_of (number_of m))))
        (ground (arith, node_id_equal_iff m n));
}

abbrev pub url : Bytes
url = codes "opc.tcp://a:1"

unfoldable way : Way store [] (agent 4 ∷ []) (codes "Drill") url (component 3) (component 4)
unfolding string_equal node_id_equal identifier_equal
way = record {
  list = component 1;
  agents = component 2;
  at_list = record {
    before = [];
    after = [];
    split = refl;
    component = refl;
    qn = _;
    read = refl;
    named = refl;
    misses_before = _;
    misses_after = _;
  };
  at_agents = record {
    before = [];
    after = [];
    split = refl;
    component = refl;
    qn = _;
    read = refl;
    named = refl;
    misses_before = _;
    misses_after = _;
  };
  at_home = record {
    before = [];
    after = [];
    split = refl;
    component = refl;
    qn = _;
    read = refl;
    named = refl;
    misses_before = _;
    misses_after = _;
  };
  at_agent = record {
    before = [];
    after = component 5 ∷ [];
    split = refl;
    component = refl;
    qn = _;
    read = refl;
    named = refl;
    misses_before = _;
    misses_after = (other_name _ refl refl, _);
  };
}

-- A node with one component, which has the name that is looked for.
only_Hit :
    (name : Bytes) (n : NodeId) (k : ℕ)
    → children (number_of n) ≡ k ∷ []
    → string_equal (name_of k) name ≡ true
    → Hit (view store unread) [] name (codes "Drill") (store.references [] n) (component k)
unfolding node_id_equal identifier_equal
only_Hit name n k e h = record {
  before = [];
  after = [];
  split = ap (map component) e;
  component = refl;
  named = h;
  misses_before = tt;
  misses_after = tt;
}

five-ne-four : node_id_equal (agent 5) (agent 4) ≡ false
unfolding node_id_equal identifier_equal
five-ne-four = refl

pub apart : (m n : NodeId) → node_id_equal n m ≡ false → n ≢ m
apart m n h e = ground (arith, node_id_equal_iff n m)

place : Place store unread [] (codes "Drill") url (component 3) (component 4)
unfolding way string_equal node_id_equal identifier_equal
place = record {
  way = way;
  route = record {
    at_list = only_Hit (codes "AgentList") objects_folder 1 refl refl;
    at_agents = only_Hit (codes "PFDLServiceAgents") (agent 1) 2 refl refl;
    at_service = only_Hit (codes "Drill") (agent 2) 3 refl refl;
  };
  objects_apart = apart (agent 4) objects_folder refl;
  list_apart = apart (agent 4) (agent 1) refl;
  agents_apart = apart (agent 4) (agent 2) refl;
  home_apart = apart (agent 4) (agent 3) refl;
}

abbrev view_of_shop : CapabilitySpace ℕ
view_of_shop =
    capability_view whole store unread (λ st. shop.data_type tt) (λ st. shop.value tt) 15048 15049
      15050

below : agents_below (view store unread) [] (agent 3) ≡ agent 4 ∷ agent 5 ∷ []
unfolding string_equal node_id_equal identifier_equal qualified_name_equal
below = refl

loaded_before :
    (agent_capabilities view_of_shop [] (agent 4) ≡ map some (offers (agent 4)))
    × (agent_capabilities view_of_shop [] (agent 5) ≡ map some (offers (agent 5)))
unfolding agent_capabilities string_equal node_id_equal identifier_equal qualified_name_equal
loaded_before = (refl, refl)

kept_after : filter (is_kept (agent 4)) (agent 4 ∷ agent 5 ∷ []) ≡ agent 5 ∷ []
unfolding node_id_equal identifier_equal
kept_after = refl

loaded_after :
    agent_capabilities view_of_shop (agent 4 ∷ []) (agent 5)
    ≡ agent_capabilities view_of_shop [] (agent 5)
unfolding agent_capabilities string_equal node_id_equal identifier_equal qualified_name_equal
loaded_after = refl

other-IsAgent :
    (store.references [] (agent 3) ≡ component 4 ∷ component 5 ∷ [])
    × All (IsRead store []) (component 4 ∷ component 5 ∷ [])
    × IsAgent store [] (component 5)
unfolding is_agent_name starts_with string_equal node_id_equal identifier_equal
other-IsAgent = (refl, ((true, refl), ((true, refl), tt)), refl)

speed-ne-none : codes "speed" ≢ codes "None"
speed-ne-none = λ e. cc

-- Both agents suit a speed of 120; the second one is left.
remove_agent_from_registry-filter_agents_example :
    (remove_agent_from_registry store registered [] (codes "a") (codes "1") (codes "Drill")
      ≡ (remove_agent (codes "a:1") registered >>= λ list. some (list, agent 4 ∷ [])))
    × (found : List NodeId) × (filter_agents whole view_of_shop []
          (codes "Drill")
          (array (codes "speed" ∷ []))
          (array (codes "120" ∷ []))
        ≡ some (good found))
    × (filter_agents whole view_of_shop
          (agent 4 ∷ [])
          (codes "Drill")
          (array (codes "speed" ∷ []))
          (array (codes "120" ∷ []))
        ≡ some (good (filter (is_kept (agent 4)) found)))
remove_agent_from_registry-filter_agents_example =
    remove_agent_from_registry-filter_agents whole store unread (λ st. shop.data_type tt)
      (λ st. shop.value tt) 15048 15049 15050 registered [] (codes "a") (codes "1") (codes "Drill")
      (component 3) (component 4) (codes "speed") [] (codes "120" ∷ []) offers place
      (deletes [] (agent 4)) (component 4 ∷ []) [] (component 5) other-IsAgent.0 other-IsAgent.1
      other-IsAgent.2 (apart (agent 4) (agent 5) five-ne-four)
      (rw below (loaded_before.0, (loaded_before.1, tt)))
      (rw (below, kept_after) (loaded_after, tt)) (rw below offers-AreAligned) refl speed-ne-none
