-- ===== src/Examples/Namespace.antt =====
-- Tests and witnesses of Namespace, on a registry and an agent with two namespaces in common.
use swap_it_registry_module.Prelude.{
  ◌≡◌, refl, some, List, [], ◌∷◌, Bytes, codes, string_equal, arith, if◌then◌else◌, ◌==◌,
}
use swap_it_registry_module.Ua.{node_id_numeric, qualified_name, AddressSpace}
use swap_it_registry_module.Namespace.{map_namespace_idx, NamespaceidxMapping, get_namespace}
use swap_it_registry_module.Namespace.Laws.{Place, map_namespace_idx-back}
use swap_it_registry_module.Namespace.Browse.{at_target, get_namespace-known}
use swap_it_registry_module.Examples.Shop.{component, number_of}

abbrev registry_names : List Bytes
registry_names = codes "ua" ∷ codes "registry" ∷ codes "common" ∷ []

abbrev agent_names : List Bytes
agent_names = codes "ua" ∷ codes "common" ∷ codes "own" ∷ []

in_agent : Place (codes "common") agent_names 1
unfolding string_equal
in_agent = record {
  before = codes "ua" ∷ [];
  after = codes "own" ∷ [];
  split = refl;
  at = refl;
  no_later = (refl, _);
}

in_registry : Place (codes "common") registry_names 2
unfolding string_equal
in_registry = record {
  before = codes "ua" ∷ codes "registry" ∷ [];
  after = [];
  split = refl;
  at = refl;
  no_later = _;
}

map_namespace_idx-back_example :
    (map_namespace_idx (some registry_names) (some agent_names) 1 ≡ some 2)
    × (map_namespace_idx (some agent_names) (some registry_names) 2 ≡ some 1)
map_namespace_idx-back_example =
    map_namespace_idx-back registry_names agent_names (codes "common") 1 2 in_agent in_registry
      (omega arith) (omega arith)

-- An agent with the node `Module` of its second namespace below node 1.
abbrev agent_space : AddressSpace
agent_space = record {
  State = Unit {0};
  references = λ st n. if number_of n == 1 then component 2 ∷ component 3 ∷ [] else [];
  browse_name = λ st n.
      if number_of n == 2
      then qualified_name 1 (codes "Module")
      else qualified_name 0 (codes "Other");
}

abbrev index_finder : NamespaceidxMapping
index_finder = record {
  namespace_index = 0;
  target_node_name = codes "Module";
  curr_id = node_id_numeric 1 1;
}

get_namespace-known_example :
    get_namespace agent_space _ (some registry_names) (some agent_names) index_finder
    ≡ some (2, at_target agent_space _ index_finder (component 2))
unfolding string_equal
get_namespace-known_example =
    get_namespace-known agent_space _ agent_names (codes "common") index_finder []
      (component 3 ∷ []) (component 2) refl refl refl (refl, _) in_agent registry_names 2
      in_registry (omega arith)
