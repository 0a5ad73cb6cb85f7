-- ===== src/Unregister/Left.antt =====
-- What `check_remaining_agents` decides, and what `find_agent` then does at the node of the agent.
use swap_it_registry_module.Prelude.{
  ◌≡◌, refl, Bool, true, false, ◌||◌, Option, some, ◌>>=◌, List, [], ◌∷◌, ◌++◌, All, if◌then◌else◌,
  arith,
}
use swap_it_registry_module.Ua.{visit_children, NodeId, Reference, is_component}
use swap_it_registry_module.Unregister.{
  NodeStore, NodeHandler, is_agent_name, check_remaining_agents, Visit, delete_agent,
}

module _ (store : NodeStore) where
  open store use {State, references, browse_name, delete_node}

  -- Whether a reference is to an agent, where its name can be read and has ten bytes.
  abbrev pub reads_agent : State → Reference → Option Bool
  reads_agent st r =
      if is_component r
      then (browse_name st r.child_id >>= λ qn. is_agent_name qn.name)
      else some false

  abbrev pub IsOther : State → Reference → Type 0
  IsOther st r = reads_agent st r ≡ some false

  abbrev pub IsAgent : State → Reference → Type 0
  IsAgent st r = reads_agent st r ≡ some true

  abbrev pub IsRead : State → Reference → Type 0
  IsRead st r = (b : Bool) × (reads_agent st r ≡ some b)

  abbrev pub flagged : NodeHandler → Bool → NodeHandler
  flagged node b = record node { existing_service_agents = b }

  check_agent :
      (st : State) (node : NodeHandler) (r : Reference) (a b : Bool)
      → reads_agent st r ≡ some b
      → check_remaining_agents store st (flagged node a) r ≡ some (flagged node (a || b))
  unfolding check_remaining_agents
  check_agent st node r a b h = ground arith

  check_others :
      (st : State) (node : NodeHandler) (a : Bool) (refs : List Reference)
      → All (IsOther st) refs
      → visit_children (check_remaining_agents store st) (flagged node a) refs
        ≡ some (flagged node a)
  unfolding visit_children
  check_others st node a [] h = refl
  check_others st node true (r ∷ refs) h =
      rw (check_agent st node r true false h.0) (check_others st node true refs h.1)
  check_others st node false (r ∷ refs) h =
      rw (check_agent st node r false false h.0) (check_others st node false refs h.1)

  check_rest :
      (st : State) (node : NodeHandler) (refs : List Reference)
      → All (IsRead st) refs
      → visit_children (check_remaining_agents store st) (flagged node true) refs
        ≡ some (flagged node true)
  unfolding visit_children
  check_rest st node [] h = refl
  check_rest st node (r ∷ refs) h =
      rw (check_agent st node r true h.0.0 h.0.1) (check_rest st node refs h.1)

  check_left :
      (st : State) (node : NodeHandler) (xs ys : List Reference) (r : Reference) (a : Bool)
      → All (IsRead st) (xs ++ r ∷ ys)
      → IsAgent st r
      → visit_children (check_remaining_agents store st) (flagged node a) (xs ++ r ∷ ys)
        ≡ some (flagged node true)
  unfolding visit_children
  check_left st node [] ys r true h e =
      rw (check_agent st node r true true e) (check_rest st node ys h.1)
  check_left st node [] ys r false h e =
      rw (check_agent st node r false true e) (check_rest st node ys h.1)
  check_left st node (x ∷ xs) ys r a h e =
      rw (check_agent st node x a h.0.0 h.0.1) (check_left st node xs ys r (a || h.0.0) h.1 e)

  -- Other agents are left: only the node of the agent is deleted.
  pub delete_agent-left :
      (v : Visit store) (child : NodeId) (xs ys : List Reference) (r : Reference)
      → let st = delete_node v.server child in
        references st v.node.service_object_node ≡ xs ++ r ∷ ys
        → All (IsRead st) (xs ++ r ∷ ys)
        → IsAgent st r
        → delete_agent store v child ≡ some (record { server = st; node = flagged v.node true })
  unfolding delete_agent
  delete_agent-left v child xs ys r e h a =
      rw (e, check_left (delete_node v.server child) v.node xs ys r false h a) refl

  -- No agent is left: the node of the service is deleted as well.
  pub delete_agent-none_left :
      (v : Visit store) (child : NodeId)
      → let st = delete_node v.server child in
        All (IsOther st) (references st v.node.service_object_node)
        → delete_agent store v child
          ≡ some (record {
            server = delete_node st v.node.service_object_node;
            node = flagged v.node false;
          })
  unfolding delete_agent
  delete_agent-none_left v child h =
      rw
        (check_others (delete_node v.server child) v.node false
          (references (delete_node v.server child) v.node.service_object_node) h)
        refl
