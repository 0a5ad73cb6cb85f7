-- ===== src/Namespace/Browse.antt =====
-- What `get_namespace` gives for a node below the start.
use swap_it_registry_module.Prelude.{
  ℕ, ◌^◌, ◌<◌, ◌≡◌, refl, ap, ◌∙◌, true, false, not, ◌&&◌, some, List, [], ◌∷◌, ◌++◌, All, Bool,
  Bytes, string_equal, if◌then◌else◌, arith, Bool-cases, inl, inr,
}
use swap_it_registry_module.Ua.{Reference, for_each_child, AddressSpace}
use swap_it_registry_module.Namespace.{
  NamespaceidxMapping, browse_target_server, check_namespace_idx, get_namespace,
}
use swap_it_registry_module.Namespace.Laws.{Place, source-Place, target-Place}

module _ (space : AddressSpace) (st : space.State) where
  open space use {references, browse_name}

  abbrev pub names_target : NamespaceidxMapping → Reference → Bool
  names_target node r =
      not r.is_inverse && string_equal (browse_name st r.child_id).name node.target_node_name

  -- The last forward reference to a node with the name counts.
  browse-none :
      (node : NamespaceidxMapping) (refs : List Reference)
      → All (λ o. names_target node o ≡ false) refs
      → for_each_child (browse_target_server space st) node refs ≡ node
  unfolding browse_target_server
  browse-none node [] h = refl
  browse-none node (r ∷ refs) h = ground (arith, h.0, browse-none node refs h.1)

  abbrev pub at_target : NamespaceidxMapping → Reference → NamespaceidxMapping
  at_target node r = record node {
    curr_id = r.child_id;
    namespace_index = (browse_name st r.child_id).namespace_index;
  }

  browse_step :
      (node : NamespaceidxMapping) (r : Reference)
      → browse_target_server space st node r
        ≡ (if names_target node r then at_target node r else node)
  unfolding browse_target_server
  browse_step node r = ground arith

  browse-last :
      (node : NamespaceidxMapping) (before after : List Reference) (r : Reference)
      → names_target node r ≡ true
      → All (λ o. names_target node o ≡ false) after
      → for_each_child (browse_target_server space st) node (before ++ r ∷ after) ≡ at_target node r
  browse-last node [] after r h k =
      ap (λ n. for_each_child (browse_target_server space st) n after)
        (browse_step node r ∙ ap (λ b. if b then at_target node r else node) h)
      ∙ browse-none (at_target node r) after k
  browse-last node (x ∷ before) after r h k = elim (Bool-cases (names_target node x)) [
    | inl e ↦
        ap (λ n. for_each_child (browse_target_server space st) n (before ++ r ∷ after))
          (browse_step node x ∙ ap (λ b. if b then at_target node x else node) e)
        ∙ browse-last (at_target node x) before after r h k
    | inr e ↦
        ap (λ n. for_each_child (browse_target_server space st) n (before ++ r ∷ after))
          (browse_step node x ∙ ap (λ b. if b then at_target node x else node) e)
        ∙ browse-last node before after r h k
  ]

  check_idx :
      (node : NamespaceidxMapping) (before after : List Reference) (r : Reference)
      → string_equal (browse_name st node.curr_id).name node.target_node_name ≡ false
      → references st node.curr_id ≡ before ++ r ∷ after
      → names_target node r ≡ true
      → All (λ o. names_target node o ≡ false) after
      → check_namespace_idx space st node
        ≡ ((browse_name st r.child_id).namespace_index, at_target node r)
  unfolding check_namespace_idx
  check_idx node before after r other refs named last =
      rw (other, refs, browse-last node before after r named last) refl

  module _ (client : List Bytes) (name : Bytes) (node : NamespaceidxMapping)
      (before after : List Reference) (r : Reference)
      (other : string_equal (browse_name st node.curr_id).name node.target_node_name ≡ false)
      (refs : references st node.curr_id ≡ before ++ r ∷ after) (named : names_target node r ≡ true)
      (last : All (λ o. names_target node o ≡ false) after)
      (p : Place name client (browse_name st r.child_id).namespace_index)
      (server : List Bytes) where
    found :
        check_namespace_idx space st node
        ≡ ((browse_name st r.child_id).namespace_index, at_target node r)
    found = check_idx node before after r other refs named last

    -- Let the start have another name than the wanted one, and let `r` be the last node below it that
    -- has the wanted name. The index of its namespace is mapped to the place where the registry has
    -- the name of this namespace, and the mapping remembers the node.
    pub get_namespace-known :
        (j : ℕ)
        → Place name server j
        → j < 2 ^ 16
        → get_namespace space st (some server) (some client) node ≡ some (j, at_target node r)
    unfolding get_namespace
    get_namespace-known j q h =
        rw
          (
            found,
            source-Place client name (browse_name st r.child_id).namespace_index p,
            target-Place server name (browse_name st r.child_id).namespace_index j q h,
          )
          refl
