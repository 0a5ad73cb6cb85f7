-- ===== src/Sync/OnWrite.antt =====
-- `onWrite` of src/registry_module_synchronization.c: a value that is written to a copied variable is
-- passed on to the agent. A value of a type outside namespace 0 is given the id of the agent's data type
-- that has the name of its type.
use swap_it_registry_module.Prelude.{ℕ, ◌==◌, ==_iff, ◌≡◌, ◌≢◌, true, Bytes, arith, if◌then◌else◌}
use swap_it_registry_module.Ua.{NodeId, node_id_numeric, for_each_child, AddressSpace}
use swap_it_registry_module.Search.{has_name, follows_subtype, client_get_data_type_node_id}
use swap_it_registry_module.Search.Finds.{FindsIn, searches-Found}
use swap_it_registry_module.NodeIterator.{NodeContext}

abbrev pub base_data_type : NodeId
base_data_type = node_id_numeric 0 24

-- A value with the id of its type; the rest of the type goes with the content.
pub record TypedValue (D : Type 0) : Type 0 where
  pub type_id : NodeId
  pub content : D

-- The agent's address space, and `UA_Client_writeValueAttribute`, whose status is only printed.
pub record WritableAgent (D : Type 0) : Type 1 where
  pub space : AddressSpace
  pub write_value : space.State → NodeId → TypedValue D → space.State

module _ {D : Type 0} (agent : WritableAgent D) where
  open agent use {space, write_value}

  -- The id that the search leaves in its handle, which starts with the null id.
  unfoldable pub remote_type : ℕ → space.State → Bytes → NodeId
  unfolding client_get_data_type_node_id
  remote_type fuel st name =
      for_each_child (client_get_data_type_node_id space fuel st name) (node_id_numeric 0 0)
        (space.references st base_data_type)

  -- `type_name` is the browse name that the registry has for a type.
  unfoldable pub on_write :
      ℕ → (NodeId → Bytes) → NodeContext → TypedValue D → space.State → space.State
  unfolding remote_type
  on_write fuel type_name context value st =
      if value.type_id.namespace_index == 0
      then write_value st context.remote_node_id value
      else write_value st context.remote_node_id
          (record value { type_id = remote_type fuel st (type_name value.type_id) })

module _ {D : Type 0} (agent : WritableAgent D) where
  open agent use {space, write_value}

  -- A data type of the agent with this name, at most `fuel` references to subtypes below the base.
  abbrev pub HasDataType : ℕ → space.State → Bytes → NodeId → Type 0
  HasDataType fuel st name =
      FindsIn (space.references st) (follows_subtype space) (has_name space st name) fuel
        (space.references st base_data_type)

  -- Let a value have a type outside namespace 0, and let the agent have a data type with the name of this
  -- type, within the depth of the search. Then the value is written to the agent's node with its content
  -- and the id of a data type of the agent that has this name.
  pub on_write_lem :
      (fuel : ℕ) (type_name : NodeId → Bytes) (context : NodeContext) (value : TypedValue D)
      (st : space.State) (m : NodeId)
      → value.type_id.namespace_index ≢ 0
      → HasDataType fuel st (type_name value.type_id) m
      → (n : NodeId) × (on_write agent fuel type_name context value st
          ≡ write_value st context.remote_node_id (record { type_id = n; content = value.content }))
        × HasDataType fuel st (type_name value.type_id) n
        × (has_name space st (type_name value.type_id) n ≡ true)
  unfolding on_write remote_type client_get_data_type_node_id
  on_write_lem fuel type_name context value st m outside has =
      let found =
        searches-Found (space.references st) (follows_subtype space)
          (has_name space st (type_name value.type_id)) fuel (node_id_numeric 0 0)
          (space.references st base_data_type) m has in
      (_, ground (arith, ==_iff value.type_id.namespace_index 0), found.0, found.1)
