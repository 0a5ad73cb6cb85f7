-- ===== src/Examples/Mill.antt =====
-- An agent with three entry nodes, one of them with a variable in an inner object.
pub use swap_it_registry_module.Examples.Numbered.{
  Has, Numbered, add, add-Adds, attached, context-set, context-set_ne, number-eq, numbered, passed,
  quiet, registry, registry-IsStore, registry_accepts, types, values,
}
use swap_it_registry_module.Prelude.{
  ℕ, refl, none, some, List, [], ◌∷◌, Bytes, codes, length, ◌==◌, if◌then◌else◌, string_equal,
  arith,
}
use swap_it_registry_module.Ua.{
  NodeId, node_id_numeric, node_id_equal, identifier_equal, QualifiedName, qualified_name,
  Reference,
}
use swap_it_registry_module.NodePath.{split_path}
use swap_it_registry_module.Values.{plain, write_variable_value}
use swap_it_registry_module.Config.{subscription}
use swap_it_registry_module.Register.Laws.{component_to}
use swap_it_registry_module.NodeIterator.{object, variable, method, Agent}
use swap_it_registry_module.NodeIterator.Reached.{IsWithin, Readable}
use swap_it_registry_module.ReadAgent.{browse_path}
use swap_it_registry_module.ReadAgent.Laws.{Entry}
use swap_it_registry_module.Examples.Shop.{number_of}

abbrev pub node : ℕ → Reference
node k = component_to (node_id_numeric 1 k)

-- 84 and 85 are the folders of the standard, 2 is `State`, 3 and 5 are variables, 6 is a method, 7 is
-- `Capabilities`, 8 `Queue` and 9 `ServiceQueue`, below which is the variable 3 again.
abbrev pub children : ℕ → List Reference
children k =
    if k == 84
    then node 85 ∷ []
    else if k == 85
    then node 1 ∷ []
    else if k == 1
    then node 2 ∷ node 7 ∷ node 8 ∷ []
    else if k == 2
    then node 3 ∷ node 4 ∷ node 6 ∷ []
    else if k == 4
    then node 5 ∷ []
    else if k == 8
    then node 9 ∷ []
    else if k == 9
    then node 3 ∷ []
    else []

abbrev pub name : ℕ → Bytes
name k =
    if k == 85
    then codes "Objects"
    else if k == 1
    then codes "Mill"
    else if k == 2
    then codes "State"
    else if k == 7
    then codes "Capabilities"
    else if k == 8
    then codes "Queue"
    else if k == 9
    then codes "ServiceQueue"
    else codes "Other"

-- The length of the third name of a path.
abbrev pub third_length : List (NodeId × QualifiedName) → ℕ
third_length (a ∷ b ∷ c ∷ path) = length c.1.name
third_length _ = 0

abbrev pub mill : Agent types passed
mill = record {
  references = λ n. children (number_of n);
  browse_name = λ n. qualified_name 1 (name (number_of n));
  node_class = λ n.
      if number_of n == 6
      then method
      else if number_of n == 3
      then variable
      else if number_of n == 5
      then variable
      else object;
  display_name = λ n. name (number_of n);
  data_type = λ n. node_id_numeric 0 6;
  access_level = λ n. 1;
  value_rank = λ n. _;
  array_dimensions = λ n. [];
  value_as = λ n t. plain (number_of n);
  arguments = λ n. [];
  translate = λ n path.
      if length path == 4
      then some (node_id_numeric 1 9)
      else if length path == 3
      then some (node_id_numeric 1 (if third_length path == 12 then 7 else 2))
      else none;
  namespace_array = some (codes "http://opcfoundation.org/UA/" ∷ codes "urn:mill" ∷ []);
}

pub mill-Readable : Readable types passed mill
unfolding write_variable_value
mill-Readable = record {
  names = codes "http://opcfoundation.org/UA/" ∷ codes "urn:mill" ∷ [];
  namespace_array = refl;
  first = omega arith;
  browse_names = λ n. omega arith;
  data_types = λ n. omega arith;
  values = λ n id. (_, refl, _);
}

unfoldable pub state_entry : Entry types passed mill 2 3
unfolding browse_path split_path IsWithin string_equal node_id_equal identifier_equal
state_entry = record {
  path = codes "Objects/Mill/State";
  mode = subscription;
  elements = _;
  target = node_id_numeric 1 2;
  resolved = refl;
  translated = refl;
  within = (λ i o. _, (λ i o. (λ j q. _, _), (λ i o. _, _)));
}

unfoldable pub capabilities_entry : Entry types passed mill 2 3
unfolding browse_path split_path IsWithin string_equal node_id_equal identifier_equal
capabilities_entry = record {
  path = codes "Objects/Mill/Capabilities";
  mode = subscription;
  elements = _;
  target = node_id_numeric 1 7;
  resolved = refl;
  translated = refl;
  within = _;
}

unfoldable pub queue_entry : Entry types passed mill 2 3
unfolding browse_path split_path IsWithin string_equal node_id_equal identifier_equal
queue_entry = record {
  path = codes "Objects/Mill/Queue/ServiceQueue";
  mode = subscription;
  elements = _;
  target = node_id_numeric 1 9;
  resolved = refl;
  translated = refl;
  within = (λ i o. _, _);
}
