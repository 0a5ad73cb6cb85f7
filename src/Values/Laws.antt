-- ===== src/Values/Laws.antt =====
-- Which values reach the registry.
use swap_it_registry_module.Prelude.{bind_none, ◌≡◌, Option, none, List, [], ◌∷◌, length, arith}
use swap_it_registry_module.Ua.{NodeId}
use swap_it_registry_module.Values.{
  DataTypes, ExtensionObject, Content, objects, new_object, create_new_extension_object_array,
  set_array_copy, write_variable_value,
}

module _ (d : DataTypes) where
  open d use {DataType, find_data_type, decode_binary}

  module _ {W : Type 0} (data_type_id : NodeId) where
    abbrev write : Content d W → Option (Content d W)
    write content = write_variable_value d content data_type_id

    -- An array of two or more extension objects is never written: the copy reads behind the one
    -- object that `new_val` points to.
    pub write_variable_value-array :
        (a b : ExtensionObject d) (rest : List (ExtensionObject d))
        → write_variable_value d {W = W} (objects (a ∷ b ∷ rest)) data_type_id ≡ none
    unfolding write_variable_value set_array_copy
    write_variable_value-array a b rest =
        bind_none (create_new_extension_object_array d data_type_id (a ∷ b ∷ rest))
          (λ unused. set_array_copy d (new_object d ∷ []) (length (a ∷ b ∷ rest)))
          (λ unused. ground arith)
