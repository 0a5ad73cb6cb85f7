-- ===== src/Values.antt =====
-- `write_variable_value` of src/registry_module_namespace_solver.c: the value of an agent's variable is
-- written to its copy in the registry, an encoded extension object decoded first.
pub mod Laws
use swap_it_registry_module.Prelude.{
  ℕ, Option, none, some, ◌>>=◌, List, [], ◌∷◌, Bytes, length, take, ltb, if◌then◌else◌,
}
use swap_it_registry_module.Ua.{NodeId, node_id_numeric}

-- What open62541 does for a data type: `UA_Server_findDataType`, `none` for `NULL`, and the memory that
-- `UA_decodeBinary` leaves at its destination.
pub record DataTypes : Type 1 where
  pub DataType : Type 0
  pub Value : Type 0
  pub find_data_type : NodeId → Option DataType
  pub decode_binary : DataType → Bytes → Value

module _ (d : DataTypes) where
  open d use {DataType, Value, find_data_type, decode_binary}

  -- `UA_ExtensionObject`, by its encoding
  pub data ExtensionObject : Type 0 where
    encoded_no_body : NodeId → ExtensionObject
    encoded_byte_string encoded_xml : NodeId → Bytes → ExtensionObject
    decoded : DataType → Value → ExtensionObject

  -- The value of a variable: an array of extension objects, a single one, or a value of another type.
  pub data Content {κ} (W : Type κ) : Type κ where
    objects : List ExtensionObject → Content W
    object : ExtensionObject → Content W
    plain : W → Content W

  -- A new extension object, all zeros.
  abbrev pub new_object : ExtensionObject
  new_object = encoded_no_body (node_id_numeric 0 0)

  -- `encode_single_extension_object`, which in fact decodes; `typ->memSize` is read where no type is found.
  unfoldable pub encode_single_extension_object : NodeId → Bytes → Option ExtensionObject
  encode_single_extension_object data_type_id body =
      find_data_type data_type_id >>= λ typ. some (decoded typ (decode_binary typ body))

  -- One element: an encoded object is decoded, another copied.
  unfoldable pub new_extension_object : NodeId → ExtensionObject → Option ExtensionObject
  unfolding encode_single_extension_object
  new_extension_object data_type_id (encoded_byte_string type_id body) =
      encode_single_extension_object data_type_id body
  new_extension_object data_type_id (encoded_no_body type_id) = some (encoded_no_body type_id)
  new_extension_object data_type_id (encoded_xml type_id body) = some (encoded_xml type_id body)
  new_extension_object data_type_id (decoded typ value) = some (decoded typ value)

  -- The array that `create_new_extension_object_array` fills. The pointer to it is a local of that
  -- function: the caller's `new_val` keeps what it points to.
  unfoldable pub create_new_extension_object_array :
      NodeId → List ExtensionObject → Option (List ExtensionObject)
  unfolding new_extension_object
  create_new_extension_object_array data_type_id [] = some []
  create_new_extension_object_array data_type_id (old ∷ old_val) =
      new_extension_object data_type_id old >>= λ new.
      create_new_extension_object_array data_type_id old_val >>= λ new_val. some (new ∷ new_val)

  -- `UA_Variant_setArrayCopy` of `size` elements from an array in memory.
  unfoldable pub set_array_copy {κ} : {W : Type κ} → List ExtensionObject → ℕ → Option (Content W)
  set_array_copy array size =
      if ltb (length array) size then none else some (objects (take size array))

  -- The value that is written to the registry's node. An empty array has no first element for the
  -- branch of the single value to copy.
  unfoldable pub write_variable_value {κ} : {W : Type κ} → Content W → NodeId → Option (Content W)
  unfolding set_array_copy
  write_variable_value (objects []) data_type_id = none
  write_variable_value (objects (o ∷ old_val)) data_type_id =
      create_new_extension_object_array data_type_id (o ∷ old_val) >>= λ unused.
      set_array_copy (new_object ∷ []) (length (o ∷ old_val))
  write_variable_value (object old_val) data_type_id =
      new_extension_object data_type_id old_val >>= λ new_val. set_array_copy (new_val ∷ []) 1
  write_variable_value (plain content) data_type_id = some (plain content)
