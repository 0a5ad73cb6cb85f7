-- ===== src/Method/Laws.antt =====
-- When the outputs of an agent's method arrive.
use swap_it_registry_module.Prelude.{
  suc, ◌≡◌, ◌≢◌, refl, ◌+◌, some, List, [], ◌∷◌, ◌++◌, All, length, arith,
}
use swap_it_registry_module.Ua.{NodeId}
use swap_it_registry_module.NodeIterator.{NodeContext}
use swap_it_registry_module.Method.{
  Output, array, scalar, empty_array, no_value, CallResult, copy_output, copy_outputs,
  method_callback,
}

module _ {W : Type 0} where
  abbrev pub HasValue : Output W → Type 0
  HasValue o = (o ≢ empty_array) × (o ≢ no_value)

  copy-HasValue : (o : Output W) → HasValue o → copy_output o ≡ some o
  unfolding copy_output
  copy-HasValue (array w ws) h = refl
  copy-HasValue (scalar w) h = refl
  copy-HasValue empty_array h = absurd (h.0 refl)
  copy-HasValue no_value h = absurd (h.1 refl)

  copies :
      (outs output more : List (Output W))
      → All HasValue outs
      → length output ≡ length outs
      → copy_outputs (length outs + length more) outs (output ++ more) ≡ some (outs ++ more)
  unfolding copy_outputs
  copies [] [] more h e = refl
  copies [] (x ∷ output) more h e = absurd (omega arith)
  copies (o ∷ outs) [] more h e = absurd (omega arith)
  copies (o ∷ outs) (x ∷ output) more h e =
      let shape : suc (length outs) + length more ≡ suc (length outs + length more) = omega arith in
      rw (shape, copy-HasValue o h.0, copies outs output more h.1 (omega (arith, e))) refl

  -- Let the call of the agent's method, on the object of the context, set outputs, each with a value, and no more than the method has. Then the method has
  -- the agent's status, and its first outputs are the agent's; the rest is as before.
  pub method_callback_lem :
      {I : Type 0} (call : NodeId → NodeId → I → CallResult W) (context : NodeContext) (input : I)
      (outs output more : List (Output W))
      → let result = call context.remote_parent_object_node_id context.remote_node_id input in
        result.outputs ≡ some outs
        → All HasValue outs
        → length output ≡ length outs
        → method_callback call context (length outs + length more) input (output ++ more)
          ≡ some (result.is_good, outs ++ more)
  unfolding method_callback
  method_callback_lem call context input outs output more e h l =
      rw (e, copies outs output more h l) refl
