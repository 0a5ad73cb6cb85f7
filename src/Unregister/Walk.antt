-- ===== src/Unregister/Walk.antt =====
-- Which nodes `find_agent` deletes.
use swap_it_registry_module.Prelude.{
  ℕ, zero, suc, ◌≡◌, refl, true, false, some, List, [], ◌∷◌, ◌++◌, Bytes, All, string_equal, get_or,
  arith,
}
use swap_it_registry_module.Ua.{QualifiedName, Reference, is_component, visit_children}
use swap_it_registry_module.Ua.Visits.{visit_children-append}
use swap_it_registry_module.Unregister.{NodeStore, NodeHandler, Visit, find_agent}

module _ (store : NodeStore) where
  open store use {State, references, browse_name, delete_node}

  -- A reference that the walk passes by: no component, or one with another name.
  pub data Misses (st : State) (name : Bytes) (r : Reference) : Type 0 where
    no_component : is_component r ≡ false → Misses st name r
    other_name :
        (qn : QualifiedName)
        → browse_name st r.child_id ≡ some qn
        → string_equal qn.name name ≡ false
        → Misses st name r

  -- One level with one hit `r`; `st` is the server before, `st'` after what is done at the hit.
  pub record Hit (st st' : State) (name later : Bytes) (refs : List Reference) (r : Reference)
      : Type 0 where
    pub before : List Reference
    pub after : List Reference
    pub split : refs ≡ before ++ r ∷ after
    pub component : is_component r ≡ true
    pub qn : QualifiedName
    pub read : browse_name st r.child_id ≡ some qn
    pub named : string_equal qn.name name ≡ true
    pub misses_before : All (Misses st name) before
    pub misses_after : All (Misses st' later) after

  abbrev wanted : NodeHandler → Bytes
  wanted node = get_or node.target_node_bn node.ctr []

  find_agent-Misses :
      (fuel : ℕ) (v : Visit store) (r : Reference)
      → Misses v.server (wanted v.node) r
      → find_agent store fuel v r ≡ some v
  unfolding find_agent
  find_agent-Misses zero v r h = refl
  find_agent-Misses (suc fuel) v r (no_component h) = rw h refl
  find_agent-Misses (suc fuel) v r (other_name qn e h) = ground arith

  walk-Misses :
      (fuel : ℕ) (v : Visit store) (refs : List Reference)
      → All (Misses v.server (wanted v.node)) refs
      → visit_children (find_agent store fuel) v refs ≡ some v
  unfolding visit_children
  walk-Misses fuel v [] h = refl
  walk-Misses fuel v (r ∷ refs) h =
      rw (find_agent-Misses fuel v r h.0) (walk-Misses fuel v refs h.1)

  pub walk-Hit :
      (fuel : ℕ) (v next : Visit store) {later : Bytes} {refs : List Reference} {r : Reference}
      → find_agent store fuel v r ≡ some next
      → Hit v.server next.server (wanted v.node) later refs r
      → wanted next.node ≡ later
      → visit_children (find_agent store fuel) v refs ≡ some next
  unfolding visit_children
  walk-Hit fuel v next {refs} {r} e h ends =
      rw
        (
          h.split,
          visit_children-append (find_agent store fuel) v h.before (r ∷ h.after),
          walk-Misses fuel v h.before h.misses_before,
        )
        (rw e (walk-Misses fuel next h.after (rw ends h.misses_after)))
