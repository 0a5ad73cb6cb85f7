-- ===== src/Examples/Values.antt =====
-- The witnesses of Values, with one data type whose values are the bytes that encode them.
use swap_it_registry_module.Prelude.{◌≡◌, Option, none, some, [], ◌∷◌, Bytes, codes, if◌then◌else◌}
use swap_it_registry_module.Ua.{node_id_numeric, node_id_equal}
use swap_it_registry_module.Values.{
  DataTypes, ExtensionObject, encoded_byte_string, Content, objects, write_variable_value,
}
use swap_it_registry_module.Values.Laws.{write_variable_value-array}

abbrev types : DataTypes
types = record {
  DataType = Unit {0};
  Value = Bytes;
  find_data_type = λ id. if node_id_equal id (node_id_numeric 2 15049) then some _ else none;
  decode_binary = λ typ body. body;
}

abbrev encoded : ExtensionObject types
encoded = encoded_byte_string (node_id_numeric 1 5001) (codes "x")

write_variable_value-array_example :
    write_variable_value types {W = Bytes}
      (objects (encoded ∷ encoded ∷ []))
      (node_id_numeric 2 15049)
    ≡ none
write_variable_value-array_example =
    write_variable_value-array types (node_id_numeric 2 15049) encoded encoded []

abbrev written : Content types Bytes → Option (Content types Bytes)
written content = write_variable_value types content (node_id_numeric 2 15049)
