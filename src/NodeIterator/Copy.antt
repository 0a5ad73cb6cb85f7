-- ===== src/NodeIterator/Copy.antt =====
-- `nodeIter`, step by step: what is done for an object, a method and a variable, and the recursion. An id
-- of a new node that open62541 refuses to add is an uninitialised variable, which the code goes on to read.
use swap_it_registry_module.Prelude.{
  ℕ, zero, suc, true, false, Option, none, some, ◌>>=◌, List, [], ◌∷◌, Bytes, codes, ◌==◌,
  if◌then◌else◌,
}
use swap_it_registry_module.Ua.{
  NodeId, node_id_equal, QualifiedName, qualified_name, Reference, for_each_child, visit_children,
}
use swap_it_registry_module.Values.{DataTypes, write_variable_value}
use swap_it_registry_module.Search.{has_type_definition, get_object_type_node_id}
use swap_it_registry_module.Namespace.{map_namespace_idx}
use swap_it_registry_module.Config.{
  Synchronization, subscription, callback_read, callback_read_write,
}
use swap_it_registry_module.NodeIterator.{
  NodeClass, object, method, variable, Passed, Agent, NodeContext, NodeServer, Handle, Copied,
  object_types_folder, references_type, null_id,
}

module _ (d : DataTypes) (p : Passed) (agent : Agent d p) (server : NodeServer d p) where
  open server use {
    space, add_object_node, add_method_node, add_variable_node, write_value, set_node_context,
    set_value_callback,
  }
  open space use {State, references}

  -- The callback keeps the name of the type definition.
  unfoldable pub client_get_object_type : QualifiedName → Reference → QualifiedName
  client_get_object_type name r =
      if r.is_inverse
      then name
      else if node_id_equal r.reference_type_id has_type_definition
      then agent.browse_name r.child_id
      else name

  -- An index other than 0 is mapped by the names of the two arrays.
  unfoldable pub map_idx : State → ℕ → Option ℕ
  unfolding map_namespace_idx
  map_idx st i =
      if i == 0
      then some 0
      else map_namespace_idx (server.namespace_array st) agent.namespace_array i

  -- The type that an object has in the registry, by the name of the one that it has on the agent.
  unfoldable pub local_object_type : ℕ → State → NodeId → Option NodeId
  unfolding client_get_object_type map_idx get_object_type_node_id
  local_object_type fuel st child_id =
      let name =
        for_each_child client_get_object_type (qualified_name 0 []) (agent.references child_id) in
      map_idx st name.namespace_index >>= λ i. some (
        for_each_child (get_object_type_node_id space fuel st (qualified_name i name.name)) null_id
          (references st object_types_folder))

  -- Lines 82 to 125: the object is added, and the handle for what lies below it.
  unfoldable pub copy_object :
      ℕ → Handle → Copied State → Reference → Option (Handle × Copied State)
  unfolding local_object_type
  copy_object depth h s r = local_object_type depth s.server r.child_id >>= λ type.
      let added =
        add_object_node s.server h.parent r.reference_type_id (agent.browse_name r.child_id) type
          (agent.display_name r.child_id) in
      added.1 >>= λ assigned_node. some (
        record h { parent = assigned_node; remote_parent_object = r.child_id },
        record s { server = added.0 },
      )

  -- `findSingleChildNode`
  unfoldable pub find_single_child_node : QualifiedName → NodeId → NodeId → NodeId
  find_single_child_node target_name reference_type_id starting_node =
      elim (agent.translate starting_node ((reference_type_id, target_name) ∷ [])) [
        | none ↦ null_id
        | some id ↦ id
      ]

  unfoldable pub method_arguments : Bytes → NodeId → List p.Argument
  unfolding find_single_child_node
  method_arguments name child_id =
      agent.arguments (find_single_child_node (qualified_name 0 name) references_type child_id)

  -- Lines 130 to 179.
  unfoldable pub copy_method : Handle → Copied State → Reference → Option (Copied State)
  unfolding method_arguments
  copy_method h s r =
      let added =
        add_method_node s.server h.parent r.reference_type_id (agent.browse_name r.child_id)
          (agent.display_name r.child_id) (method_arguments (codes "InputArguments") r.child_id)
          (method_arguments (codes "OutputArguments") r.child_id) in
      added.1 >>= λ assigned_node. some (record s {
        server = set_node_context added.0 assigned_node (record {
          remote_node_id = r.child_id;
          remote_parent_object_node_id = h.remote_parent_object;
          local_node_id = assigned_node;
        });
      })

  abbrev pub variable_context : NodeId → NodeId → NodeContext
  variable_context child_id new_node = record {
    remote_node_id = child_id;
    remote_parent_object_node_id = null_id;
    local_node_id = new_node;
  }

  -- Lines 226 to 250, by the mode of the mapping entry.
  unfoldable pub synchronize :
      Option Synchronization → Copied State → NodeId → NodeId → Option (Copied State)
  synchronize none s child_id new_node = none
  synchronize (some subscription) s child_id new_node = some (record s {
    subscription_nodes =
        record { node_id = child_id; node_id_on_aggregation_server = new_node }
        ∷ s.subscription_nodes;
  })
  synchronize (some callback_read) s child_id new_node = some (record s {
    server =
        set_value_callback (set_node_context s.server new_node (variable_context child_id new_node))
          new_node (record { on_write = false });
  })
  synchronize (some callback_read_write) s child_id new_node = some (record s {
    server =
        set_value_callback (set_node_context s.server new_node (variable_context child_id new_node))
          new_node (record { on_write = true });
  })

  -- Lines 183 to 225: the id of the variable's copy, and the server that has its value.
  unfoldable pub copy_value : Handle → State → Reference → Option (NodeId × State)
  unfolding map_idx write_variable_value
  copy_value h st r =
      let remote_type = agent.data_type r.child_id in
      let remote_name = agent.browse_name r.child_id in
      map_idx st remote_type.namespace_index >>= λ i.
      map_idx st remote_name.namespace_index >>= λ j.
      let data_type_id = record remote_type { namespace_index = i } in
      let added =
        add_variable_node st h.parent r.reference_type_id
          (record remote_name { namespace_index = j })
          (record {
            display_name = agent.display_name r.child_id;
            data_type = data_type_id;
            access_level = agent.access_level r.child_id;
            value_rank = agent.value_rank r.child_id;
            array_dimensions = agent.array_dimensions r.child_id;
          }) in
      added.1 >>= λ new_node.
      write_variable_value d (agent.value_as r.child_id (d.find_data_type data_type_id))
        data_type_id
      >>= λ content. some (new_node, write_value added.0 new_node content)

  unfoldable pub copy_variable : Handle → Copied State → Reference → Option (Copied State)
  unfolding copy_value synchronize
  copy_variable h s r = copy_value h s.server r >>= λ copy.
      synchronize h.synchronization (record s { server = copy.1 }) r.child_id copy.0

  -- What is done for a node of this class; `below` goes through what lies below an object.
  unfoldable pub copy_node :
      ℕ
      → (Handle → Copied State → Option (Copied State))
      → NodeClass
      → Handle
      → Copied State
      → Reference
      → Option (Copied State)
  unfolding copy_object copy_method copy_variable
  copy_node depth below object h s r = copy_object depth h s r >>= λ copy. below copy.0 copy.1
  copy_node depth below method h s r = copy_method h s r
  copy_node depth below variable h s r = copy_variable h s r
  copy_node depth below _ h s r = some s

  -- `depth` bounds the search of an object's type, `fuel` the depth of the agent's objects: below that
  -- the recursion of the source, which has no bound, is taken to run out of stack.
  unfoldable pub node_iter : ℕ → ℕ → Handle → Copied State → Reference → Option (Copied State)
  unfolding copy_node
  node_iter depth zero h s r = none
  node_iter depth (suc fuel) h s r =
      if r.is_inverse
      then some s
      else copy_node depth
          (λ h' s'. visit_children (node_iter depth fuel h') s' (agent.references r.child_id))
          (agent.node_class r.child_id) h s r
