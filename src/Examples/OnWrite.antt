-- ===== src/Examples/OnWrite.antt =====
-- The witness of OnWrite: an agent that has one data type, and notes what is written.
use swap_it_registry_module.Prelude.{
  ℕ, ◌≡◌, refl, true, false, List, [], ◌∷◌, codes, ◌==◌, if◌then◌else◌, string_equal, arith,
}
use swap_it_registry_module.Ua.{
  NodeId, node_id_numeric, node_id_equal, identifier_equal, qualified_name, Reference,
}
use swap_it_registry_module.Search.{has_name, has_subtype}
use swap_it_registry_module.Search.Finds.{here}
use swap_it_registry_module.NodeIterator.{NodeContext, null_id}
use swap_it_registry_module.Sync.OnWrite.{
  TypedValue, WritableAgent, on_write, HasDataType, on_write_lem,
}
use swap_it_registry_module.Examples.Shop.{number_of}

abbrev Written : Type 0
Written = List (NodeId × TypedValue ℕ)

abbrev mode_type : Reference
mode_type = record {
  child_id = node_id_numeric 1 30;
  is_inverse = false;
  reference_type_id = has_subtype;
}

abbrev notes : WritableAgent ℕ
notes = record {
  space = record {
    State = Written;
    references = λ st n. if number_of n == 24 then mode_type ∷ [] else [];
    browse_name = λ st n. qualified_name 1 (codes "Mode");
  };
  write_value = λ st n v. (n, v) ∷ st;
}

abbrev mode : TypedValue ℕ
mode = record { type_id = node_id_numeric 4 30; content = 2 }

abbrev context : NodeContext
context = record {
  remote_node_id = node_id_numeric 1 5;
  remote_parent_object_node_id = null_id;
  local_node_id = node_id_numeric 1 50;
}

mode-HasDataType : HasDataType notes 1 [] (codes "Mode") (node_id_numeric 1 30)
unfolding string_equal node_id_equal identifier_equal
mode-HasDataType = record {
  before = [];
  after = [];
  through = mode_type;
  split = refl;
  finds = here refl refl;
}

on_write_lem_example :
    (n : NodeId) × (on_write notes 1 (λ id. codes "Mode") context mode []
      ≡ (node_id_numeric 1 5, record { type_id = n; content = 2 }) ∷ [])
    × HasDataType notes 1 [] (codes "Mode") n
    × (has_name notes.space [] (codes "Mode") n ≡ true)
on_write_lem_example =
    on_write_lem notes 1 (λ id. codes "Mode") context mode [] (node_id_numeric 1 30)
      (λ e. omega (arith, e)) mode-HasDataType
