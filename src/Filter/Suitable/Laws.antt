-- ===== src/Filter/Suitable/Laws.antt =====
-- The loops select the agents that meet every request.
use swap_it_registry_module.Prelude.{
  ◌≡◌, ◌≤◌, ◌++◌, refl, Bool, true, false, not, ◌&&◌, ◌||◌, List, [], ◌∷◌, Option, none, some, map,
  Bytes, string_equal, All, filter, length, all, arith,
}
use swap_it_registry_module.Ua.{NodeId}
use swap_it_registry_module.Matching.{
  Doubles, OperatorEnum, operator_value, call_matching, ValueType,
}
use swap_it_registry_module.Matching.Table.{operator_type, variant_type, call_matching_defined}
use swap_it_registry_module.Filter.Capabilities.{Capability, CapabilityItems}
use swap_it_registry_module.Filter.Suitable.{
  product_value, match_item, match_items, match_names, result_agents, filter_by_capabilities,
}

module _ (d : Doubles) where
  -- A capability whose operator is one of the enumeration and compares values of its type.
  pub record IsTyped (c : Capability d.Double) : Type 0 where
    pub operator : OperatorEnum
    pub numbered : c.oper ≡ operator_value operator
    pub operand : operator_type operator ≡ c.type
    pub valued : variant_type c.value ≡ c.type

  -- The product's text meets the capability: the table's function accepts the converted value.
  abbrev pub meets : Capability d.Double → Bytes → Bool
  meets c text = elim (call_matching d c.oper c.value (product_value d c.type text)) [
    | none ↦ false
    | some b ↦ b
  ]

  -- Every capability with a requested name meets the value that stands at that place.
  abbrev pub suits : List (Capability d.Double) → List Bytes → List Bytes → Bool
  suits items [] values = true
  suits items (name ∷ names) [] = true
  suits items (name ∷ names) (text ∷ values) =
      all (λ c. not (string_equal name c.name) || meets c text) items && suits items names values

  variant_type-product_value :
      (t : ValueType) (text : Bytes) → variant_type (product_value d t text) ≡ t
  unfolding product_value
  variant_type-product_value t text = ground arith

  match_item-IsTyped :
      (c : Capability d.Double) (text : Bytes)
      → IsTyped c
      → match_item d (some c) text ≡ some (meets c text)
  unfolding match_item
  match_item-IsTyped c text h = ground (
    arith,
    variant_type-product_value c.type text,
    call_matching_defined d h.operator c.value (product_value d c.type text),
  )

  -- The items of an agent that has the names of the first agent, in the order of the first agent.
  abbrev pub HasNames : List (Capability d.Double) → List (Capability d.Double) → Type 0
  HasNames [] [] = Unit
  HasNames (c ∷ first) (e ∷ items) = (c.name ≡ e.name) × HasNames first items
  HasNames _ _ = ⊥

  match_items_lem :
      (name text : Bytes) (first items : List (Capability d.Double))
      → HasNames first items
      → All IsTyped items
      → match_items d name text (map some first) (map some items)
        ≡ some (all (λ c. not (string_equal name c.name) || meets c text) items)
  unfolding match_items
  match_items_lem name text [] [] h t = refl
  match_items_lem name text [] (e ∷ items) h t = elim h [ ]
  match_items_lem name text (c ∷ first) [] h t = elim h [ ]
  match_items_lem name text (c ∷ first) (e ∷ items) h t =
      rw (match_items_lem name text first items h.1 t.1, h.0, match_item-IsTyped e text t.0)
        (ground arith)

  match_names_lem :
      (names values : List Bytes) (first items : List (Capability d.Double))
      → length names ≡ length values
      → HasNames first items
      → All IsTyped items
      → match_names d (map some first) (map some items) names values
        ≡ some (suits items names values)
  unfolding match_names
  match_names_lem [] values first items e h t = refl
  match_names_lem (name ∷ names) [] first items e h t = absurd (omega arith)
  match_names_lem (name ∷ names) (text ∷ values) first items e h t =
      rw
        (
          match_items_lem name text first items h t,
          match_names_lem names values first items (omega arith) h t,
        )
        (ground arith)

  -- The agents, each with initialised items, and the names that the first of them has.
  module _ (capabilities : NodeId → List (Capability d.Double)) where
    abbrev pub handler : List NodeId → List (NodeId × CapabilityItems d.Double)
    handler = map (λ n. (n, map some (capabilities n)))

    abbrev first_items : List NodeId → List (Capability d.Double)
    first_items [] = []
    first_items (n ∷ agents) = capabilities n

    -- Every agent has well-typed capabilities, under the names of the first agent in its order.
    abbrev pub AreAligned : List NodeId → Type 0
    AreAligned agents =
        All (λ n. HasNames (first_items agents) (capabilities n) × All IsTyped (capabilities n))
          agents

    result_agents_lem :
        (first : List (Capability d.Double)) (agents : List NodeId) (names values : List Bytes)
        → length names ≡ length values
        → All (λ n. HasNames first (capabilities n) × All IsTyped (capabilities n)) agents
        → result_agents d (map some first) (handler agents) names values
          ≡ some (filter (λ n. suits (capabilities n) names values) agents)
    unfolding result_agents
    result_agents_lem first [] names values e h = refl
    result_agents_lem first (n ∷ agents) names values e h =
        rw
          (
            match_names_lem names values first (capabilities n) e h.0.0 h.0.1,
            result_agents_lem first agents names values e h.1,
          )
          refl

    -- Where the agents are aligned, the loops give just those agents, in order, all of whose
    -- capabilities with a requested name meet the value that is requested.
    pub filter_by_capabilities_lem :
        (agents : List NodeId) (names values : List Bytes)
        → length names ≡ length values
        → AreAligned agents
        → filter_by_capabilities d (handler agents) names values
          ≡ some (filter (λ n. suits (capabilities n) names values) agents)
    unfolding filter_by_capabilities
    filter_by_capabilities_lem [] names values e h = refl
    filter_by_capabilities_lem (n ∷ agents) names values e h =
        result_agents_lem (capabilities n) (n ∷ agents) names values e h

  abbrev pub rename_slot :
      (Bytes → Bytes) → Option (Capability d.Double) → Option (Capability d.Double)
  rename_slot f none = none
  rename_slot f (some c) = some (record c { name = f c.name })

  abbrev pub rename : (Bytes → Bytes) → CapabilityItems d.Double → CapabilityItems d.Double
  rename f = map (rename_slot f)

  -- The names of an agent's own items are never read: renaming them changes no result.
  pub match_items-rename :
      (f : Bytes → Bytes) (name text : Bytes) (first items : CapabilityItems d.Double)
      → match_items d name text first (rename f items) ≡ match_items d name text first items
  unfolding match_items match_item
  match_items-rename f name text [] items = refl
  match_items-rename f name text (none ∷ first) items = refl
  match_items-rename f name text (some c ∷ first) [] = rw (match_items-rename f name text first [])
  match_items-rename f name text (some c ∷ first) (none ∷ items) =
      rw (match_items-rename f name text first items)
  match_items-rename f name text (some c ∷ first) (some e ∷ items) =
      rw (match_items-rename f name text first items)

  -- An agent with fewer items than the position at which the first agent has the requested name is
  -- read past the end of its array.
  pub match_items-short :
      (name text : Bytes) (before : List (Capability d.Double)) (c : Capability d.Double)
      (first items : CapabilityItems d.Double)
      → All (λ e. string_equal name e.name ≡ false) before
      → string_equal name c.name ≡ true
      → length items ≤ length before
      → match_items d name text (map some before ++ some c ∷ first) items ≡ none
  unfolding match_items
  match_items-short name text [] c first [] h e l = rw e
  match_items-short name text [] c first (x ∷ items) h e l = absurd (omega arith)
  match_items-short name text (b ∷ before) c first [] h e l =
      rw h.0 (match_items-short name text before c first [] h.1 e (omega arith))
  match_items-short name text (b ∷ before) c first (x ∷ items) h e l =
      rw h.0 (match_items-short name text before c first items h.1 e (omega arith))
