-- ===== src/Unregister/Kept.antt =====
-- The levels that the walk of `filter_agents` visits, before and after the deletion of a node.
use swap_it_registry_module.Prelude.{
  ◌≡◌, ◌≢◌, refl, ap, ◌∙◌, sym, Bool, true, false, not, none, some, List, [], ◌∷◌, ◌++◌, map,
  filter, filter-append, All, All-filter, All-join, subst, Bytes, Bool-cases, inl, inr, arith,
}
use swap_it_registry_module.Ua.{
  NodeId, QualifiedName, Reference, AddressSpace, node_id_equal, node_id_equal_iff,
}
use swap_it_registry_module.Ua.Levels.{Misses, Hit}
use swap_it_registry_module.Filter.Find.Path.{is_agent, agents_below}
use swap_it_registry_module.Unregister.{NodeStore}
use swap_it_registry_module.Unregister.Left.{reads_agent}

-- The reference is to another node than `n`.
abbrev pub is_kept : NodeId → NodeId → Bool
is_kept n m = not (node_id_equal m n)

is_kept-false : (n m : NodeId) → is_kept n m ≡ true → m ≢ n
is_kept-false n m h e = ground (arith, node_id_equal_iff m n)

is_kept-true : (n m : NodeId) → m ≢ n → is_kept n m ≡ true
is_kept-true n m h = ground (arith, node_id_equal_iff m n)

module _ (store : NodeStore) (unread : QualifiedName) where
  open store use {State, references, browse_name, delete_node}

  -- The store as a walk reads it; `unread` is the name it has for a node that does not exist.
  abbrev pub view : AddressSpace
  view = record {
    State = State;
    references = references;
    browse_name = λ st n. elim (browse_name st n) [ none ↦ unread | some qn ↦ qn ];
  }

  -- `UA_Server_deleteNode` with `deleteReferences`: the references to the node go, and nothing else
  -- of the other nodes that the walks read.
  pub record Deletes (st : State) (n : NodeId) : Type 0 where
    pub listed :
        (m : NodeId)
        → m ≢ n
        → references (delete_node st n) m ≡ filter (λ r. is_kept n r.child_id) (references st m)
    pub named : (m : NodeId) → m ≢ n → browse_name (delete_node st n) m ≡ browse_name st m

  module _ (st : State) (n : NodeId) (deletes : Deletes st n) where
    abbrev pub fin : State
    fin = delete_node st n

    abbrev pub kept : List Reference → List Reference
    kept = filter (λ r. is_kept n r.child_id)

    pub All-kept :
        {P Q : Reference → Type 0} (refs : List Reference)
        → ((r : Reference) → r.child_id ≢ n → P r → Q r)
        → All P refs
        → All Q (kept refs)
    All-kept refs f h =
        All-filter (λ r. is_kept n r.child_id) refs (λ r e. f r (is_kept-false n r.child_id e)) h

    Misses-kept :
        (name : Bytes) (r : Reference)
        → r.child_id ≢ n
        → Misses view st name r
        → Misses view fin name r
    Misses-kept name r other h = rw (deletes.named r.child_id other) h

    is_agent-kept : (r : Reference) → r.child_id ≢ n → is_agent view fin r ≡ is_agent view st r
    is_agent-kept r other = rw (deletes.named r.child_id other) refl

    pub reads_agent-kept :
        (r : Reference) → r.child_id ≢ n → reads_agent store fin r ≡ reads_agent store st r
    reads_agent-kept r other = rw (deletes.named r.child_id other) refl

    pub kept-split :
        (before after : List Reference) (r : Reference)
        → r.child_id ≢ n
        → kept (before ++ r ∷ after) ≡ kept before ++ r ∷ kept after
    kept-split before after r other =
        filter-append (λ x. is_kept n x.child_id) before (r ∷ after)
        ∙ rw (is_kept-true n r.child_id other) refl

    pub Hit-kept :
        {name later : Bytes} {r : Reference} (m : NodeId)
        → m ≢ n
        → r.child_id ≢ n
        → Hit view st name later (references st m) r
        → Hit view fin name later (references fin m) r
    Hit-kept {name} {later} {r} m above other h = record {
      before = kept h.before;
      after = kept h.after;
      split = deletes.listed m above ∙ ap kept h.split ∙ kept-split h.before h.after r other;
      component = h.component;
      named = rw (deletes.named r.child_id other) h.named;
      misses_before = All-kept h.before (Misses-kept name) h.misses_before;
      misses_after = All-kept h.after (Misses-kept later) h.misses_after;
    }

    agents-kept :
        (refs : List Reference)
        → map (λ r. r.child_id) (filter (is_agent view fin) (kept refs))
          ≡ filter (is_kept n) (map (λ r. r.child_id) (filter (is_agent view st) refs))
    agents-kept [] = refl
    agents-kept (r ∷ refs) =
        let rest = agents-kept refs in
        elim (Bool-cases (is_kept n r.child_id)) [
          | inl e ↦
              let same = is_agent-kept r (is_kept-false n r.child_id e) in
              elim (Bool-cases (is_agent view st r)) [
                | inl a ↦ rw (e, same, a) (rw e (ap (λ xs. r.child_id ∷ xs) rest))
                | inr a ↦ rw (e, same, a) rest
              ]
          | inr e ↦ elim (Bool-cases (is_agent view st r)) [
            | inl a ↦ rw (e, a) (rw e rest)
            | inr a ↦ rw (e, a) rest
          ]
        ]

    pub agents_below-kept :
        (m : NodeId) → m ≢ n → agents_below view fin m ≡ filter (is_kept n) (agents_below view st m)
    agents_below-kept m other = rw (deletes.listed m other) (agents-kept (references st m))

    -- The level of the node that is deleted: nothing there has its name any more.
    pub Misses-deleted :
        {name : Bytes} {r : Reference} (m : NodeId)
        → m ≢ n
        → r.child_id ≡ n
        → Hit view st name name (references st m) r
        → All (Misses view fin name) (references fin m)
    Misses-deleted {name} {r} m above gone h =
        subst (All (Misses view fin name))
          (sym (
            deletes.listed m above
            ∙ ap kept h.split
            ∙ filter-append (λ x. is_kept n x.child_id) h.before (r ∷ h.after)
            ∙ rw is_dropped refl))
          (All-join _ (kept h.before) (kept h.after)
            (All-kept h.before (Misses-kept name) h.misses_before)
            (All-kept h.after (Misses-kept name) h.misses_after))
      where
        is_dropped : is_kept n r.child_id ≡ false
        is_dropped = ground (arith, node_id_equal_iff r.child_id n)
