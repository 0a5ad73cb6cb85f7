-- ===== src/Search/Finds.antt =====
-- What a search finds, whatever it follows and wants.
use mathlib.Core.List.{foldl-append, append_assoc}
use swap_it_registry_module.Prelude.{
  ℕ, zero, suc, ◌≡◌, refl, sym, subst, ◌∙◌, Bool, true, false, List, [], ◌∷◌, ◌++◌, ◌⊎◌, inl, inr,
  Bool-cases,
}
use swap_it_registry_module.Ua.{NodeId, Reference, for_each_child}
use swap_it_registry_module.Search.{search}

module _ (references : NodeId → List Reference) (follows : Reference → Bool)
    (wanted : NodeId → Bool) where
  -- A wanted node at most `fuel` references away, all of which are followed, and with no wanted node
  -- on the way.
  pub data Finds : ℕ → Reference → NodeId → Type 0 where
    here :
        {fuel : ℕ} {r : Reference}
        → follows r ≡ true
        → wanted r.child_id ≡ true
        → Finds (suc fuel) r r.child_id
    below :
        {fuel : ℕ} {r s : Reference} {n : NodeId} (before after : List Reference)
        → follows r ≡ true
        → wanted r.child_id ≡ false
        → references r.child_id ≡ before ++ s ∷ after
        → Finds fuel s n
        → Finds (suc fuel) r n

  pub record FindsIn (fuel : ℕ) (refs : List Reference) (n : NodeId) : Type 0 where
    pub before : List Reference
    pub after : List Reference
    pub through : Reference
    pub split : refs ≡ before ++ through ∷ after
    pub finds : Finds fuel through n

  abbrev searches : ℕ → NodeId → List Reference → NodeId
  searches fuel = for_each_child (search references follows wanted fuel)

  later :
      (fuel : ℕ) (xs refs : List Reference) (n : NodeId)
      → FindsIn fuel refs n
      → FindsIn fuel (xs ++ refs) n
  later fuel xs refs n f = record {
    before = xs ++ f.before;
    after = f.after;
    through = f.through;
    split = rw (f.split, append_assoc) refl;
    finds = f.finds;
  }

  search-passed :
      (fuel : ℕ) (id : NodeId) (r : Reference)
      → follows r ≡ false
      → search references follows wanted (suc fuel) id r ≡ id
  unfolding search
  search-passed fuel id r e = rw e refl

  search-here :
      (fuel : ℕ) (id : NodeId) (r : Reference)
      → follows r ≡ true
      → wanted r.child_id ≡ true
      → search references follows wanted (suc fuel) id r ≡ r.child_id
  unfolding search
  search-here fuel id r e w = rw (e, w) refl

  search-below :
      (fuel : ℕ) (id : NodeId) (r : Reference)
      → follows r ≡ true
      → wanted r.child_id ≡ false
      → search references follows wanted (suc fuel) id r ≡ searches fuel id (references r.child_id)
  unfolding search
  search-below fuel id r e w = rw (e, w) refl

  abbrev Keeps : ℕ → Type 0
  Keeps fuel =
      (id : NodeId) (r : Reference)
      → (search references follows wanted fuel id r ≡ id)
        ⊎ Finds fuel r (search references follows wanted fuel id r)

  searches-Keeps :
      (fuel : ℕ)
      → Keeps fuel
      → (id : NodeId) (refs : List Reference)
      → (searches fuel id refs ≡ id) ⊎ FindsIn fuel refs (searches fuel id refs)
  searches-Keeps fuel one id [] = inl refl
  searches-Keeps fuel one id (r ∷ refs) =
      let next = search references follows wanted fuel id r in
      elim (searches-Keeps fuel one next refs) [
        | inr f ↦ inr (later fuel (r ∷ []) refs (searches fuel next refs) f)
        | inl e ↦ elim (one id r) [
          | inl k ↦ inl (e ∙ k)
          | inr f ↦ inr (record {
            before = [];
            after = refs;
            through = r;
            split = refl;
            finds = subst (Finds fuel r) (sym e) f;
          })
        ]
      ]

  search-Keeps : (fuel : ℕ) → Keeps fuel
  unfolding search
  search-Keeps zero id r = inl refl
  search-Keeps (suc fuel) id r = elim (Bool-cases (follows r)) [
    | inr e ↦ inl (search-passed fuel id r e)
    | inl e ↦ elim (Bool-cases (wanted r.child_id)) [
      | inl w ↦ inr (subst (Finds (suc fuel) r) (sym (search-here fuel id r e w)) (here e w))
      | inr w ↦ elim (searches-Keeps fuel (search-Keeps fuel) id (references r.child_id)) [
        | inl k ↦ inl (search-below fuel id r e w ∙ k)
        | inr f ↦ inr (
            subst (Finds (suc fuel) r) (sym (search-below fuel id r e w))
              (below f.before f.after e w f.split f.finds))
      ]
    ]
  ]

  -- Where there is something to be found, something is found.
  searches-Finds :
      (fuel : ℕ)
      → ((id : NodeId) (r : Reference) (n : NodeId)
          → Finds fuel r n
          → Finds fuel r (search references follows wanted fuel id r))
      → (id : NodeId) (refs : List Reference) (n : NodeId) → FindsIn fuel refs n
      → FindsIn fuel refs (searches fuel id refs)
  searches-Finds fuel one id refs n f =
      rw
        (
          f.split,
          foldl-append (search references follows wanted fuel) id f.before (f.through ∷ f.after),
        )
        (later fuel f.before (f.through ∷ f.after) (searches fuel next f.after)
          (elim (searches-Keeps fuel (search-Keeps fuel) next f.after) [
            | inl e ↦ record {
              before = [];
              after = f.after;
              through = f.through;
              split = refl;
              finds = subst (Finds fuel f.through) (sym e) found;
            }
            | inr g ↦ later fuel (f.through ∷ []) f.after (searches fuel next f.after) g
          ]))
    where
      next : NodeId
      next = search references follows wanted fuel (searches fuel id f.before) f.through

      found : Finds fuel f.through next
      found = one (searches fuel id f.before) f.through n f.finds

  search-Finds :
      (fuel : ℕ) (id : NodeId) (r : Reference) (n : NodeId)
      → Finds fuel r n
      → Finds fuel r (search references follows wanted fuel id r)
  search-Finds zero id r n f = elim f [ ]
  search-Finds (suc fuel) id r _ (here e w) =
      subst (Finds (suc fuel) r) (sym (search-here fuel id r e w)) (here e w)
  search-Finds (suc fuel) id r n (below {s} before after e w split f) =
      let g =
        searches-Finds fuel (search-Finds fuel) id (references r.child_id) n
          (record { before = before; after = after; through = s; split = split; finds = f }) in
      subst (Finds (suc fuel) r) (sym (search-below fuel id r e w))
        (below g.before g.after e w g.split g.finds)

  Finds-wanted : (fuel : ℕ) (r : Reference) (n : NodeId) → Finds fuel r n → wanted n ≡ true
  Finds-wanted zero r n f = elim f [ ]
  Finds-wanted (suc fuel) r _ (here e w) = w
  Finds-wanted (suc fuel) r n (below {s} before after e w split f) = Finds-wanted fuel s n f

  pub searches-Found :
      (fuel : ℕ) (id : NodeId) (refs : List Reference) (m : NodeId)
      → FindsIn fuel refs m
      → FindsIn fuel refs (searches fuel id refs) × (wanted (searches fuel id refs) ≡ true)
  searches-Found fuel id refs m f =
      let g = searches-Finds fuel (search-Finds fuel) id refs m f in
      (g, Finds-wanted fuel g.through (searches fuel id refs) g.finds)
