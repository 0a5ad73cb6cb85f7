-- ===== src/Method.antt =====
-- `methodCallback` of src/registry_module_synchronization.c: a call of a copied method is passed on to
-- the agent, and the outputs are copied into those of the registry's own method.
pub mod Laws
use swap_it_registry_module.Prelude.{ℕ, zero, suc, Bool, Option, none, some, ◌>>=◌, List, [], ◌∷◌}
use swap_it_registry_module.Ua.{NodeId}
use swap_it_registry_module.NodeIterator.{NodeContext}

-- A variant: several values, one value, an array without elements, or nothing at all. The last two have
-- no value for `UA_Variant_setScalarCopy` to copy, which the code calls where `arrayLength` is 0.
pub data Output (W : Type 0) : Type 0 where
  array : W → List W → Output W
  scalar : W → Output W
  empty_array no_value : Output W

-- What `UA_Client_call` gives: the status, and the outputs where it sets them. The code reads
-- `outputSizeTmp`, which it does not initialise, in any case.
pub record CallResult (W : Type 0) : Type 0 where
  pub is_good : Bool
  pub outputs : Option (List (Output W))

module _ {W : Type 0} where
  unfoldable pub copy_output : Output W → Option (Output W)
  copy_output (array w ws) = some (array w ws)
  copy_output (scalar w) = some (scalar w)
  copy_output empty_array = none
  copy_output no_value = none

  -- The loop over the agent's outputs, with `output_size` places left in `output`; a write behind them
  -- is undefined. The other places keep what they held.
  unfoldable pub copy_outputs : ℕ → List (Output W) → List (Output W) → Option (List (Output W))
  unfolding copy_output
  copy_outputs output_size [] output = some output
  copy_outputs zero (o ∷ output_tmp) output = none
  copy_outputs (suc output_size) (o ∷ output_tmp) [] = none
  copy_outputs (suc output_size) (o ∷ output_tmp) (old ∷ output) = copy_output o >>= λ new.
      copy_outputs output_size output_tmp output >>= λ rest. some (new ∷ rest)

  -- The status and the outputs of the method that has this context. `call` is the agent's answer to a call
  -- of a method on an object.
  unfoldable pub method_callback :
      {I : Type 0}
      → (NodeId → NodeId → I → CallResult W)
      → NodeContext
      → ℕ
      → I
      → List (Output W)
      → Option (Bool × List (Output W))
  unfolding copy_outputs
  method_callback call context output_size input output =
      let result = call context.remote_parent_object_node_id context.remote_node_id input in
      result.outputs >>= λ output_tmp.
      copy_outputs output_size output_tmp output >>= λ copied. some (result.is_good, copied)
