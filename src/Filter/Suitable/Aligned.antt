-- ===== src/Filter/Suitable/Aligned.antt =====
-- Agents that are left of aligned ones are aligned.
use swap_it_registry_module.Prelude.{sym, ◌∙◌, Bool, List, [], ◌∷◌, All, All-filter, filter}
use swap_it_registry_module.Ua.{NodeId}
use swap_it_registry_module.Matching.{Doubles}
use swap_it_registry_module.Filter.Capabilities.{Capability}
use swap_it_registry_module.Filter.Suitable.Laws.{HasNames, IsTyped, AreAligned}

module _ (d : Doubles) where
  HasNames-shared :
      (first items others : List (Capability d.Double))
      → HasNames d first items
      → HasNames d first others
      → HasNames d items others
  HasNames-shared [] [] [] h k = _
  HasNames-shared [] [] (o ∷ others) h k = k
  HasNames-shared [] (e ∷ items) others h k = elim h [ ]
  HasNames-shared (c ∷ first) [] others h k = elim h [ ]
  HasNames-shared (c ∷ first) (e ∷ items) [] h k = k
  HasNames-shared (c ∷ first) (e ∷ items) (o ∷ others) h k =
      (sym h.0 ∙ k.0, HasNames-shared first items others h.1 k.1)

  module _ (capabilities : NodeId → List (Capability d.Double)) where
    abbrev IsLike : List (Capability d.Double) → NodeId → Type 0
    IsLike first n = HasNames d first (capabilities n) × All (IsTyped d) (capabilities n)

    likes :
        (first items : List (Capability d.Double)) (agents : List NodeId)
        → HasNames d first items
        → All (IsLike first) agents
        → All (IsLike items) agents
    likes first items [] e h = _
    likes first items (n ∷ agents) e h = (
      (HasNames-shared first items (capabilities n) e h.0.0, h.0.1),
      likes first items agents e h.1,
    )

    aligned :
        (first : List (Capability d.Double)) (agents : List NodeId)
        → All (IsLike first) agents
        → AreAligned d capabilities agents
    aligned first [] h = _
    aligned first (n ∷ agents) h = likes first (capabilities n) (n ∷ agents) h.0.0 h

    pub AreAligned-filter :
        (p : NodeId → Bool) (agents : List NodeId)
        → AreAligned d capabilities agents
        → AreAligned d capabilities (filter p agents)
    AreAligned-filter p [] h = _
    AreAligned-filter p (n ∷ agents) h =
        aligned (capabilities n) (filter p (n ∷ agents)) (All-filter p (n ∷ agents) (λ m e k. k) h)
