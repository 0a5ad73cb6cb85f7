-- ===== src/Register.antt =====
-- `initRegisteredAgentNodes` of src/registry_module_register_agent.c: the nodes that a registration adds
-- below the node of the service. The server that adds them is a parameter.
pub mod Laws
pub mod Found
use swap_it_registry_module.Prelude.{ℕ, Option, none, some, Bytes, codes}
use swap_it_registry_module.Ua.{
  NodeId, node_id_numeric, QualifiedName, qualified_name, has_component, has_property, AddressSpace,
}
use swap_it_registry_module.Address.{connection_url}

pub record NodeAdder : Type 1 where
  pub space : AddressSpace
  -- `UA_Server_addObjectNode`, with the parent, the reference to it and the browse name: the new id, or
  -- `none` where the status is bad.
  pub add_object_node : space.State → NodeId → NodeId → QualifiedName → space.State × Option NodeId
  -- `UA_Server_addVariableNode`, with the value too; the code does not ask for its id.
  pub add_variable_node : space.State → NodeId → NodeId → QualifiedName → Bytes → space.State

-- The members of `UA_AggregateConfig` that are read and written here.
pub record Endpoint : Type 0 where
  pub ip : Bytes
  pub port : Bytes

pub record EntryNodes : Type 0 where
  pub aggregate_entry_node : NodeId
  pub status_entry_node : NodeId
  pub nodes_entry_node : NodeId

-- What the member for the new id holds after the call: the zeros of before, where no node was added.
abbrev pub id_or_null : Option NodeId → NodeId
id_or_null none = node_id_numeric 0 0
id_or_null (some id) = id

module _ (server : NodeAdder) where
  open server use {space, add_object_node, add_variable_node}

  -- The name of the agent's node comes from the first configuration, the rest from the last one.
  unfoldable pub init_registered_agent_nodes :
      space.State → Endpoint → Endpoint → NodeId → Bytes → space.State × EntryNodes
  init_registered_agent_nodes st first last parent module_type_name =
      let name = qualified_name 0 (connection_url first.ip first.port).url in
      let entry = add_object_node st parent has_component name in
      let entry_id = id_or_null entry.1 in
      let status =
        add_object_node entry.0 entry_id has_component (qualified_name 0 (codes "Status")) in
      let status_id = id_or_null status.1 in
      let nodes =
        add_object_node status.0 entry_id has_component (qualified_name 0 module_type_name) in
      let address =
        add_variable_node nodes.0 status_id has_property (qualified_name 0 (codes "Address"))
          last.ip in
      let port =
        add_variable_node address status_id has_property (qualified_name 0 (codes "Port"))
          last.port in
      (
        port,
        record {
          aggregate_entry_node = entry_id;
          status_entry_node = status_id;
          nodes_entry_node = id_or_null nodes.1;
        },
      )
