-- ===== src/Examples/Search.antt =====
-- Searches of the registry of Shop.
use swap_it_registry_module.Prelude.{◌≡◌, refl, codes, [], string_equal}
use swap_it_registry_module.Ua.{
  NodeId, QualifiedName, node_id_numeric, node_id_equal, identifier_equal, qualified_name,
  qualified_name_equal, objects_folder, for_each_child,
}
use swap_it_registry_module.Search.{
  search, get_variable, get_single_variable, get_object_type_node_id,
}
use swap_it_registry_module.Search.Finds.{here, below}
use swap_it_registry_module.Search.Laws.{HasVariable, HasType}
use swap_it_registry_module.Examples.Shop.{shop_nodes, component}

abbrev drill_name : QualifiedName
drill_name = qualified_name 0 (codes "Drill")

get_single_variable_runs : get_single_variable shop_nodes 5 _ (codes "Drill") ≡ node_id_numeric 1 3
unfolding get_single_variable get_variable search string_equal node_id_equal identifier_equal
get_single_variable_runs = refl

drill : HasVariable shop_nodes _ 3 (codes "Drill") objects_folder (node_id_numeric 1 3)
unfolding string_equal node_id_equal identifier_equal
drill = record {
  before = [];
  after = [];
  through = component 1;
  split = refl;
  finds = below [] [] refl refl refl (below [] [] refl refl refl (here refl refl));
}

drill_type : HasType shop_nodes _ 3 drill_name objects_folder (node_id_numeric 1 3)
unfolding string_equal node_id_equal identifier_equal qualified_name_equal
drill_type = record {
  before = [];
  after = [];
  through = component 1;
  split = refl;
  finds = below [] [] refl refl refl (below [] [] refl refl refl (here refl refl));
}

abbrev type_found : NodeId
type_found =
    for_each_child (get_object_type_node_id shop_nodes 3 _ drill_name) (node_id_numeric 0 0)
      (shop_nodes.references _ objects_folder)
