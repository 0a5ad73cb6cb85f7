-- ===== src/Ua.antt =====
-- What the registry module takes from open62541, which is not part of the repository: identifiers,
-- names, references, and the calls of `UA_Server` that a traversal makes. The address space is a
-- parameter: a record of the reads that the code makes of it.
pub mod Levels
pub mod Visits
use swap_it_registry_module.Prelude.{
  ℕ, ◌≡◌, ◌↔◌, Bool, true, false, not, ◌&&◌, Option, some, ◌>>=◌, List, [], ◌∷◌, Bytes, foldl,
  arith, ◌==◌, string_equal, string_equal_iff,
}

-- `UA_NodeId`: a namespace index, and an identifier of one of four kinds.
pub data Identifier : Type 0 where
  numeric : ℕ → Identifier
  text guid byte_string : Bytes → Identifier

pub record NodeId : Type 0 where
  pub namespace_index : ℕ
  pub identifier : Identifier

-- `UA_QualifiedName`
pub record QualifiedName : Type 0 where
  pub namespace_index : ℕ
  pub name : Bytes

unfoldable pub identifier_equal : Identifier → Identifier → Bool
identifier_equal (numeric a) (numeric b) = a == b
identifier_equal (text a) (text b) = string_equal a b
identifier_equal (guid a) (guid b) = string_equal a b
identifier_equal (byte_string a) (byte_string b) = string_equal a b
identifier_equal _ _ = false

-- `UA_NodeId_equal`
unfoldable pub node_id_equal : NodeId → NodeId → Bool
unfolding identifier_equal
node_id_equal a b =
    a.namespace_index == b.namespace_index && identifier_equal a.identifier b.identifier

pub identifier_equal_iff : (a b : Identifier) → (identifier_equal a b ≡ true) ↔ (a ≡ b)
unfolding identifier_equal
identifier_equal_iff (numeric a) (numeric b) = ground arith
identifier_equal_iff (text a) (text b) = ground (arith, string_equal_iff a b)
identifier_equal_iff (guid a) (guid b) = ground (arith, string_equal_iff a b)
identifier_equal_iff (byte_string a) (byte_string b) = ground (arith, string_equal_iff a b)
identifier_equal_iff _ _ = ground arith

pub node_id_equal_iff : (a b : NodeId) → (node_id_equal a b ≡ true) ↔ (a ≡ b)
unfolding node_id_equal
node_id_equal_iff a b = ground (arith, identifier_equal_iff a.identifier b.identifier)

-- `UA_QualifiedName_equal`
unfoldable pub qualified_name_equal : QualifiedName → QualifiedName → Bool
qualified_name_equal a b = a.namespace_index == b.namespace_index && string_equal a.name b.name

-- `UA_NODEID_NUMERIC` and `UA_QUALIFIEDNAME`
abbrev pub node_id_numeric : ℕ → ℕ → NodeId
node_id_numeric ns k = record { namespace_index = ns; identifier = numeric k }

abbrev pub qualified_name : ℕ → Bytes → QualifiedName
qualified_name ns s = record { namespace_index = ns; name = s }

-- The node identifiers of namespace 0 that the code names, as the OPC UA standard numbers them.
abbrev pub has_component : NodeId
has_component = node_id_numeric 0 47

abbrev pub has_property : NodeId
has_property = node_id_numeric 0 46

abbrev pub objects_folder : NodeId
objects_folder = node_id_numeric 0 85

-- One call of a `UA_NodeIteratorCallback`: the reference that `UA_Server_forEachChildNodeCall` found.
pub record Reference : Type 0 where
  pub child_id : NodeId
  pub is_inverse : Bool
  pub reference_type_id : NodeId

-- The guard that most callbacks begin with: a forward `HasComponent` reference.
abbrev pub is_component : Reference → Bool
is_component r = not r.is_inverse && node_id_equal r.reference_type_id has_component

-- `forEachChildNodeCall`: the callback is called for each reference of the node, in the order in
-- which the server lists them. Every callback of the module returns `UA_STATUSCODE_GOOD`, so the
-- iteration is never cut short. `S` is what the callback changes: its handle, or the server too.
abbrev pub for_each_child {ℓ} : {S : Type ℓ} → (S → Reference → S) → S → List Reference → S
for_each_child = foldl

-- `forEachChildNodeCall` with a callback that may have undefined behaviour. The references are those
-- at the call: the server goes through a copy of them, for callbacks that delete nodes.
unfoldable pub visit_children {ℓ} :
    {S : Type ℓ} → (S → Reference → Option S) → S → List Reference → Option S
visit_children f s [] = some s
visit_children f s (r ∷ refs) = f s r >>= λ next. visit_children f next refs

-- The reads that a traversal makes of the server's address space. Nodes that were just browsed
-- exist, so that reading their attributes succeeds.
pub record AddressSpace : Type 1 where
  pub State : Type 0
  -- what `UA_Server_forEachChildNodeCall` goes through
  pub references : State → NodeId → List Reference
  -- `UA_Server_readBrowseName`
  pub browse_name : State → NodeId → QualifiedName
