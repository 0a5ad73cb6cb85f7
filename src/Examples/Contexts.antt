-- ===== src/Examples/Contexts.antt =====
-- Servers for the witnesses of Clear and Main.
use swap_it_registry_module.Prelude.{ℕ, true, [], ◌∷◌, ◌==◌, if◌then◌else◌}
use swap_it_registry_module.Ua.{node_id_numeric, Reference}
use swap_it_registry_module.NodeIterator.{object, variable}
use swap_it_registry_module.Register.Laws.{component_to}
use swap_it_registry_module.Clear.Contexts.{ContextServer}
use swap_it_registry_module.Examples.Shop.{number_of}

abbrev child : ℕ → Reference
child k = component_to (node_id_numeric 1 k)

-- The variables below the node 1, each with one reference.
abbrev pub once : ContextServer
once = record {
  references = λ n. if number_of n == 1 then child 2 ∷ child 3 ∷ [] else [];
  node_class = λ n. if number_of n == 1 then object else variable;
  has_context = λ n. true;
}
