-- ===== src/NodeIterator/Indices.antt =====
-- The namespaces of an agent whose names the registry maps: its nodes, and the types of its objects.
use swap_it_registry_module.Prelude.{
  ℕ, zero, suc, ◌<◌, ◌≡◌, refl, some, List, [], ◌∷◌, length, get_elem?, IsDefined, bind-Gives,
  Bool-cases, inl, inr, arith, ◌==◌,
}
use swap_it_registry_module.Ua.{NodeId, QualifiedName, qualified_name, Reference, for_each_child}
use swap_it_registry_module.Values.{DataTypes}
use swap_it_registry_module.Namespace.{
  check_source_server_namespace_array, check_aggregation_server_namespace_array, map_namespace_idx,
}
use swap_it_registry_module.NodeIterator.{Passed, Agent, NodeServer}
use swap_it_registry_module.NodeIterator.Copy.{client_get_object_type, map_idx, local_object_type}
use swap_it_registry_module.NodeIterator.Reached.{Readable, Accepts}

get_elem?-lt {ℓ} :
    {A : Type ℓ} (xs : List A) (i : ℕ) → i < length xs → (a : A) × (get_elem? xs i ≡ some a)
get_elem?-lt [] i h = absurd (omega arith)
get_elem?-lt (x ∷ xs) zero h = (x, refl)
get_elem?-lt (x ∷ xs) (suc i) h = get_elem?-lt xs i (omega arith)

module _ (d : DataTypes) (p : Passed) (agent : Agent d p) (server : NodeServer d p)
    (readable : Readable d p agent) (accepts : Accepts d p server) where
  open server.space use {State}
  open accepts use {Has}

  pub map_idx-lt :
      (st : State) (i : ℕ) → i < length readable.names → IsDefined (map_idx d p agent server st i)
  unfolding map_idx map_namespace_idx check_source_server_namespace_array
  map_idx-lt st i h = elim (Bool-cases (i == 0)) [
    | inl e ↦ (0, rw e refl, _)
    | inr e ↦
        let name = get_elem?-lt readable.names i h in
        (
          check_aggregation_server_namespace_array 0 (server.namespace_array st) name.0,
          rw (e, readable.namespace_array, name.1) refl,
          _,
        )
  ]

  -- The name of a type is a name on the agent, or empty.
  object_type_step-lt :
      (name : QualifiedName) (r : Reference)
      → name.namespace_index < length readable.names
      → (client_get_object_type d p agent server name r).namespace_index < length readable.names
  unfolding client_get_object_type
  object_type_step-lt name r h = ground (arith, readable.browse_names r.child_id)

  type_name-lt :
      (name : QualifiedName) (refs : List Reference)
      → name.namespace_index < length readable.names
      → (for_each_child (client_get_object_type d p agent server) name refs).namespace_index
        < length readable.names
  type_name-lt name [] h = h
  type_name-lt name (r ∷ refs) h =
      type_name-lt (client_get_object_type d p agent server name r) refs
        (object_type_step-lt name r h)

  pub local_object_type-Gives :
      (depth : ℕ) (st : State) (n : NodeId)
      → IsDefined (local_object_type d p agent server depth st n)
  unfolding local_object_type
  local_object_type-Gives depth st n =
      bind-Gives
        (map_idx-lt st _ (type_name-lt (qualified_name 0 []) (agent.references n) readable.first))
        λ i h. (_, refl, _)
