-- ===== src/Clear/Contexts.antt =====
-- `clear_node_context`: the contexts of the variables and methods below an agent's node are freed. The
-- server keeps the pointer, so that a node which is visited again has its context freed again.
use swap_it_registry_module.Prelude.{
  ℕ, zero, suc, ◌≡◌, refl, ◌∙◌, sym, Bool, true, false, not, ◌&&◌, ◌||◌, Option, none, some, List,
  [], ◌∷◌, ◌++◌, All, if◌then◌else◌, ◌==◌, ◌>>=◌, Bool-cases, inl, inr,
}
use swap_it_registry_module.Ua.{NodeId, node_id_equal, Reference, visit_children}
use swap_it_registry_module.Search.{has_type_definition, has_modelling_rule}
use swap_it_registry_module.NodeIterator.{NodeClass, variable, method}
use swap_it_registry_module.NodeIterator.Reached.{concat_map}

-- The server, which holds a context for some nodes.
pub record ContextServer : Type 1 where
  pub references : NodeId → List Reference
  pub node_class : NodeId → NodeClass
  pub has_context : NodeId → Bool

-- What the clearing frees, by which a second freeing is noticed: the context of a node, the client of an
-- aggregate, and the text of a URL, these two by their addresses.
pub data Freed : Type 0 where
  context : NodeId → Freed
  client url : ℕ → Freed

abbrev pub freed_equal : Freed → Freed → Bool
freed_equal (context n) (context m) = node_id_equal n m
freed_equal (client a) (client b) = a == b
freed_equal (url a) (url b) = a == b
freed_equal _ _ = false

abbrev pub is_in : Freed → List Freed → Bool
is_in n [] = false
is_in n (m ∷ ms) = freed_equal n m || is_in n ms

-- `none` where it is freed a second time.
unfoldable pub free_once : List Freed → Freed → Option (List Freed)
free_once freed n = if is_in n freed then none else some (n ∷ freed)

-- Nodes of these classes have contexts.
abbrev pub holds_context : NodeClass → Bool
holds_context variable = true
holds_context method = true
holds_context _ = false

module _ (server : ContextServer) where
  open server use {references, node_class, has_context}

  abbrev pub follows_context : Reference → Bool
  follows_context r =
      not r.is_inverse
      && not (
          node_id_equal r.reference_type_id has_modelling_rule
          || node_id_equal r.reference_type_id has_type_definition)

  -- Lines 29 to 38, with the nodes whose contexts are freed; `none` where one is freed a second time.
  unfoldable pub free_context : List Freed → NodeId → Option (List Freed)
  unfolding free_once
  free_context freed n =
      if holds_context (node_class n) && has_context n
      then free_once freed (context n)
      else some freed

  -- The recursion has no bound in the source: below `fuel` it is taken to run out of stack.
  unfoldable pub clear_node_context : ℕ → List Freed → Reference → Option (List Freed)
  unfolding free_context visit_children
  clear_node_context zero freed r = none
  clear_node_context (suc fuel) freed r =
      if follows_context r
      then (free_context freed r.child_id >>= λ freed'.
          visit_children (clear_node_context fuel) freed' (references r.child_id))
      else some freed

  -- The nodes with contexts at and below a reference, in the order in which they are visited.
  unfoldable pub contexts_below : ℕ → Reference → List Freed
  contexts_below zero r = []
  contexts_below (suc fuel) r =
      if follows_context r
      then (if holds_context (node_class r.child_id) && has_context r.child_id
          then context r.child_id ∷ []
          else [])
        ++ concat_map (contexts_below fuel) (references r.child_id)
      else []

  -- No more than `fuel` nodes lie below one another.
  unfoldable pub IsBounded : ℕ → Reference → Type 0
  IsBounded zero r = ⊥
  IsBounded (suc fuel) r = follows_context r ≡ true → All (IsBounded fuel) (references r.child_id)

  -- The freeing of some contexts, one after the other, none of them twice.
  abbrev pub free_all : List Freed → List Freed → Option (List Freed)
  free_all freed [] = some freed
  free_all freed (n ∷ nodes) = if is_in n freed then none else free_all (n ∷ freed) nodes

  pub free_all-append :
      (freed xs ys : List Freed)
      → free_all freed (xs ++ ys) ≡ (free_all freed xs >>= λ f. free_all f ys)
  free_all-append freed [] ys = refl
  free_all-append freed (x ∷ xs) ys = elim (Bool-cases (is_in x freed)) [
    | inl e ↦ rw e refl
    | inr e ↦ rw e (free_all-append (x ∷ freed) xs ys)
  ]

  free_context_lem :
      (freed : List Freed) (n : NodeId)
      → free_context freed n
        ≡ free_all freed
            (if holds_context (node_class n) && has_context n then context n ∷ [] else [])
  unfolding free_context free_once
  free_context_lem freed n = elim (Bool-cases (holds_context (node_class n) && has_context n)) [
    | inl e ↦ rw e refl
    | inr e ↦ rw e refl
  ]

  pub visit_children-free_all :
      (f : List Freed → Reference → Option (List Freed)) (nodes : Reference → List Freed)
      (P : Reference → Type 0)
      → ((freed : List Freed) (r : Reference) → P r → f freed r ≡ free_all freed (nodes r))
      → (freed : List Freed) (refs : List Reference) → All P refs
      → visit_children f freed refs ≡ free_all freed (concat_map nodes refs)
  unfolding visit_children
  visit_children-free_all f nodes P step freed [] h = refl
  visit_children-free_all f nodes P step freed (r ∷ refs) h =
      (λ i. step freed r h.0 i >>= λ next. visit_children-free_all f nodes P step next refs h.1 i)
      ∙ sym (free_all-append freed (nodes r) (concat_map nodes refs))

  -- If no more than `fuel` nodes lie below one another, the recursion comes to its end: it frees the
  -- contexts of the variables and methods that it visits, in order, and is undefined just where it comes
  -- to one of them again.
  pub clear_node_context_lem :
      (fuel : ℕ) (freed : List Freed) (r : Reference)
      → IsBounded fuel r
      → clear_node_context fuel freed r ≡ free_all freed (contexts_below fuel r)
  unfolding clear_node_context contexts_below IsBounded
  clear_node_context_lem zero freed r h = absurd h
  clear_node_context_lem (suc fuel) freed r h = elim (Bool-cases (follows_context r)) [
    | inl e ↦
        let own =
          if holds_context (node_class r.child_id) && has_context r.child_id
          then context r.child_id ∷ []
          else [] in
        rw e (
          (λ i. free_context_lem freed r.child_id i >>= λ freed'.
          visit_children-free_all (clear_node_context fuel) (contexts_below fuel) (IsBounded fuel)
            (clear_node_context_lem fuel) freed' (references r.child_id) (h e) i)
          ∙ sym (
              free_all-append freed own (concat_map (contexts_below fuel) (references r.child_id))))
    | inr e ↦ rw e refl
  ]
