-- ===== src/Search/Laws.antt =====
-- What the searches find: a node with the wanted name, wherever there is one within their depth.
use swap_it_registry_module.Prelude.{ℕ, ◌≡◌, true, Bytes}
use swap_it_registry_module.Ua.{
  NodeId, node_id_numeric, QualifiedName, qualified_name_equal, objects_folder, AddressSpace,
}
use swap_it_registry_module.Search.{
  follows_variable, has_name, get_variable, get_single_variable, follows_type,
}
use swap_it_registry_module.Search.Finds.{FindsIn, searches-Found}

module _ (space : AddressSpace) (st : space.State) where
  open space use {references, browse_name}

  -- A node that the walk of `get_variable` reaches, from the references of `start` and with the name.
  abbrev pub HasVariable : ℕ → Bytes → NodeId → NodeId → Type 0
  HasVariable fuel name start =
      FindsIn (references st) (follows_variable space) (has_name space st name) fuel
        (references st start)

  -- The same for the walk of `get_ObjectType_NodeId`, with a name that has a namespace.
  abbrev pub HasType : ℕ → QualifiedName → NodeId → NodeId → Type 0
  HasType fuel name start =
      FindsIn (references st) (follows_type space)
        (λ n. qualified_name_equal (browse_name st n) name) fuel (references st start)

  -- If a node with the name is within reach of the walk from the Objects folder, by at most `fuel`
  -- references, `get_single_variable` gives such a node, which has the name.
  pub get_single_variable-found :
      (fuel : ℕ) (name : Bytes) (m : NodeId)
      → HasVariable fuel name objects_folder m
      → let n = get_single_variable space fuel st name in
        HasVariable fuel name objects_folder n × (has_name space st name n ≡ true)
  unfolding get_single_variable get_variable
  get_single_variable-found fuel name =
      searches-Found (references st) (follows_variable space) (has_name space st name) fuel
        (node_id_numeric 0 0) (references st objects_folder)
