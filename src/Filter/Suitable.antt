-- ===== src/Filter/Suitable.antt =====
-- The loops of `filter_agents` over agents, requested capabilities and capability items.
pub mod Laws
pub mod Aligned
use swap_it_registry_module.Prelude.{
  ℕ, Bool, true, false, ◌||◌, List, [], ◌∷◌, Option, none, some, Bytes, codes, string_equal, head?,
  tail, if◌then◌else◌, ◌>>=◌,
}
use swap_it_registry_module.Ua.{NodeId}
use swap_it_registry_module.Matching.{
  Doubles, Variant, boolean, double, string, ValueType, boolean_type, number_type, string_type,
  call_matching,
}
use swap_it_registry_module.Filter.Capabilities.{Capability, CapabilityItems}

module _ (d : Doubles) where
  open d use {Double, atof}

  -- The product's value, converted from its text to the type of the capability. `atof` reads the
  -- bytes of the text up to its end.
  unfoldable pub product_value : ValueType → Bytes → Variant Double
  product_value string_type text = string text
  product_value boolean_type text =
      boolean (string_equal (codes "true") text || string_equal (codes "True") text)
  product_value number_type text = double (atof text)

  -- The slot `handler.agents[i].capability_items[k]` against the text `value_list[j]`.
  unfoldable pub match_item : Option (Capability Double) → Bytes → Option Bool
  unfolding product_value
  match_item none text = none
  match_item (some c) text = call_matching d c.oper c.value (product_value c.type text)

  -- The loop over `k`: its bound and the names come from `handler.agents`, the first agent, and the
  -- items that are matched from agent `i`; both arrays are given from `k` on.
  unfoldable pub match_items :
      Bytes → Bytes → CapabilityItems Double → CapabilityItems Double → Option Bool
  unfolding match_item
  match_items name text [] items = some true
  match_items name text (none ∷ first) items = none
  match_items name text (some c ∷ first) items =
      let rest = match_items name text first (tail items) in
      if string_equal name c.name
      then (do
        item ← head? items
        agent_is_suitable ← match_item item text
        if agent_is_suitable then rest else some false)
      else rest

  -- The loop over `j`: `item_list` and `value_list` have one length.
  unfoldable pub match_names :
      CapabilityItems Double → CapabilityItems Double → List Bytes → List Bytes → Option Bool
  unfolding match_items
  match_names first items [] values = some true
  match_names first items (name ∷ names) [] = none
  match_names first items (name ∷ names) (text ∷ values) =
      let rest = match_names first items names values in
      do
        agent_is_suitable ← match_items name text first items
        if agent_is_suitable then rest else some false

  -- The loop over `i`: the result list of the agents that stay suitable.
  unfoldable pub result_agents :
      CapabilityItems Double
      → List (NodeId × CapabilityItems Double)
      → List Bytes
      → List Bytes
      → Option (List NodeId)
  unfolding match_names
  result_agents first [] names values = some []
  result_agents first ((agent_node, items) ∷ agents) names values = do
    agent_is_suitable ← match_names first items names values
    result_list ← result_agents first agents names values
    some (if agent_is_suitable then agent_node ∷ result_list else result_list)

  -- `handler.agents` points to the first agent.
  unfoldable pub filter_by_capabilities :
      List (NodeId × CapabilityItems Double) → List Bytes → List Bytes → Option (List NodeId)
  unfolding result_agents
  filter_by_capabilities [] names values = some []
  filter_by_capabilities ((agent_node, items) ∷ agents) names values =
      result_agents items ((agent_node, items) ∷ agents) names values
