-- ===== src/NodeIterator.antt =====
-- `nodeIter` (src/registry_module_node_iterator.c): the nodes of an agent below one of its objects are
-- copied into the registry. The agent and the server are parameters.
pub mod Copy
pub mod Store
pub mod Reached
pub mod Queues
pub mod Calls
pub mod Indices
pub mod Steps
pub mod Laws
use swap_it_registry_module.Prelude.{
  ℕ, zero, suc, Bool, true, false, Option, none, some, ◌>>=◌, List, [], ◌∷◌, Bytes, codes, ◌==◌,
  if◌then◌else◌,
}
use swap_it_registry_module.Ua.{
  NodeId, node_id_numeric, node_id_equal, QualifiedName, qualified_name, Reference, for_each_child,
  visit_children, AddressSpace,
}
use swap_it_registry_module.Values.{DataTypes, Content, write_variable_value}
use swap_it_registry_module.Search.{has_type_definition, get_object_type_node_id}
use swap_it_registry_module.Namespace.{map_namespace_idx}
use swap_it_registry_module.Config.{
  Synchronization, subscription, callback_read, callback_read_write,
}

-- `UA_NodeClass`
pub data NodeClass : Type 0 where
  unspecified object variable method object_type variable_type reference_type data_type view :
      NodeClass

-- The values of open62541 that are passed on as they are.
pub record Passed : Type 1 where
  pub LocalizedText : Type 0
  pub Argument : Type 0
  pub ValueRank : Type 0
  pub Plain : Type 0

-- `UA_VariableAttributes`, the members that the code sets
pub record VariableAttributes (p : Passed) : Type 0 where
  pub display_name : p.LocalizedText
  pub data_type : NodeId
  pub access_level : ℕ
  pub value_rank : p.ValueRank
  pub array_dimensions : List ℕ

-- What a client reads from an agent: `UA_Client_forEachChildNodeCall` and the reads of attributes.
pub record Agent (d : DataTypes) (p : Passed) : Type 0 where
  pub references : NodeId → List Reference
  pub browse_name : NodeId → QualifiedName
  pub node_class : NodeId → NodeClass
  pub display_name : NodeId → p.LocalizedText
  pub data_type : NodeId → NodeId
  pub access_level : NodeId → ℕ
  pub value_rank : NodeId → p.ValueRank
  pub array_dimensions : NodeId → List ℕ
  -- the value, whose type the code replaces by this one; `none` is `NULL`
  pub value_as : NodeId → Option d.DataType → Content d p.Plain
  -- the value of a node as an array of arguments, empty where it is none
  pub arguments : NodeId → List p.Argument
  -- `UA_Client_Service_translateBrowsePathsToNodeIds`: the first target of a path from a node, by
  -- references of these types or their subtypes to nodes of these names; `none` where there is none
  pub translate : NodeId → List (NodeId × QualifiedName) → Option NodeId
  -- node 2255, `none` where it is no array of strings
  pub namespace_array : Option (List Bytes)

-- `internalNodeContext`, but for the pointer to the aggregate; an id of zeros where it is not set
pub record NodeContext : Type 0 where
  pub remote_node_id : NodeId
  pub remote_parent_object_node_id : NodeId
  pub local_node_id : NodeId

-- The value callbacks of a variable: `onRead`, and perhaps `onWrite`.
pub record ValueCallback : Type 0 where
  pub on_write : Bool

-- What the server does. The new id of a node is `none` where the status is bad.
pub record NodeServer (d : DataTypes) (p : Passed) : Type 1 where
  pub space : AddressSpace
  pub namespace_array : space.State → Option (List Bytes)
  -- parent, reference, browse name, type and display name
  pub add_object_node :
      space.State
      → NodeId
      → NodeId
      → QualifiedName
      → NodeId
      → p.LocalizedText
      → space.State × Option NodeId
  -- parent, reference, browse name, display name, arguments in and out
  pub add_method_node :
      space.State
      → NodeId
      → NodeId
      → QualifiedName
      → p.LocalizedText
      → List p.Argument
      → List p.Argument
      → space.State × Option NodeId
  pub add_variable_node :
      space.State
      → NodeId
      → NodeId
      → QualifiedName
      → VariableAttributes p
      → space.State × Option NodeId
  pub write_value : space.State → NodeId → Content d p.Plain → space.State
  pub set_node_context : space.State → NodeId → NodeContext → space.State
  pub set_value_callback : space.State → NodeId → ValueCallback → space.State

-- `UA_AggregateNodeId`
pub record AggregateNodeId : Type 0 where
  pub node_id : NodeId
  pub node_id_on_aggregation_server : NodeId

-- `internalNodeIteratorHandle`. `synchronization` is that of the current mapping entry, `none` where it
-- was not written.
pub record Handle : Type 0 where
  pub parent : NodeId
  pub remote_parent_object : NodeId
  pub synchronization : Option Synchronization

-- What the iteration changes: the server, and the queue of the aggregate's subscription nodes.
pub record Copied (State : Type 0) : Type 0 where
  pub server : State
  pub subscription_nodes : List AggregateNodeId

abbrev pub object_types_folder : NodeId
object_types_folder = node_id_numeric 0 88

abbrev pub references_type : NodeId
references_type = node_id_numeric 0 31

-- `UA_NODEID_NULL`
abbrev pub null_id : NodeId
null_id = node_id_numeric 0 0
