-- ===== src/Namespace.antt =====
-- src/registry_module_namespace_solver.c: the index that a namespace of an agent has in the registry's
-- own server, found by the namespace's name in the two namespace arrays. An array is a parameter:
-- `none` where the value of node 2255 is no array of strings.
pub mod Laws
pub mod Browse
use swap_it_registry_module.Prelude.{
  ℕ, ◌+◌, ◌%◌, ◌^◌, not, Option, none, some, ◌>>=◌, List, [], ◌∷◌, Bytes, string_equal, get_elem?,
  if◌then◌else◌,
}
use swap_it_registry_module.Ua.{NodeId, Reference, for_each_child, AddressSpace}

-- The bytes of `namespacename` after the call, `[]` where the array is not read. A read behind the
-- array is undefined.
unfoldable pub check_source_server_namespace_array : ℕ → Option (List Bytes) → Option Bytes
check_source_server_namespace_array namespacidx none = some []
check_source_server_namespace_array namespacidx (some namespacearray) =
    get_elem? namespacearray namespacidx

-- The loop of `check_aggregation_server_namespace_array` from index `i` on. `UA_UInt16_copy` takes the
-- low 16 bits of `i`, as on little-endian machines.
unfoldable pub namespace_loop : ℕ → List Bytes → Bytes → ℕ → ℕ
namespace_loop i [] namespacename namespaceidx = namespaceidx
namespace_loop i (entry ∷ namespacearray) namespacename namespaceidx =
    namespace_loop (i + 1) namespacearray namespacename
      (if string_equal namespacename entry then i % 2 ^ 16 else namespaceidx)

unfoldable pub check_aggregation_server_namespace_array : ℕ → Option (List Bytes) → Bytes → ℕ
check_aggregation_server_namespace_array namespaceidx none namespacename = namespaceidx
check_aggregation_server_namespace_array namespaceidx (some namespacearray) namespacename =
    namespace_loop 0 namespacearray namespacename namespaceidx

-- `client` is the agent's array, `server` that of the registry.
unfoldable pub map_namespace_idx : Option (List Bytes) → Option (List Bytes) → ℕ → Option ℕ
map_namespace_idx server client current_identifier =
    check_source_server_namespace_array current_identifier client >>= λ namespacename.
    some (check_aggregation_server_namespace_array 0 server namespacename)

-- `UA_NamespaceidxMapping`
pub record NamespaceidxMapping : Type 0 where
  pub namespace_index : ℕ
  pub target_node_name : Bytes
  pub curr_id : NodeId

module _ (space : AddressSpace) (st : space.State) where
  open space use {references, browse_name}

  unfoldable pub browse_target_server : NamespaceidxMapping → Reference → NamespaceidxMapping
  browse_target_server node r =
      let qn = browse_name st r.child_id in
      if not r.is_inverse
      then (if string_equal qn.name node.target_node_name
          then record node { curr_id = r.child_id; namespace_index = qn.namespace_index }
          else node)
      else node

  -- The result, and the mapping that the call leaves.
  unfoldable pub check_namespace_idx : NamespaceidxMapping → ℕ × NamespaceidxMapping
  check_namespace_idx node =
      let qn = browse_name st node.curr_id in
      let browsed = for_each_child browse_target_server node (references st node.curr_id) in
      if string_equal qn.name node.target_node_name
      then (qn.namespace_index, node)
      else (browsed.namespace_index, browsed)

  unfoldable pub get_namespace :
      Option (List Bytes)
      → Option (List Bytes)
      → NamespaceidxMapping
      → Option (ℕ × NamespaceidxMapping)
  get_namespace server client index_finder =
      let found = check_namespace_idx index_finder in
      check_source_server_namespace_array found.0 client >>= λ namespacename.
      some (check_aggregation_server_namespace_array found.0 server namespacename, found.1)
