-- ===== src/Ua/Levels.antt =====
-- One level of an address space in which a walk by names looks for a node.
use swap_it_registry_module.Prelude.{
  ◌≡◌, true, false, ◌&&◌, List, ◌∷◌, ◌++◌, Bytes, All, string_equal,
}
use swap_it_registry_module.Ua.{Reference, is_component, AddressSpace}

module _ (space : AddressSpace) (st : space.State) where
  -- The reference is no component with this name.
  abbrev pub Misses : Bytes → Reference → Type 0
  Misses name r =
      (is_component r && string_equal (space.browse_name st r.child_id).name name) ≡ false

  -- `r` is the only component named `name` up to there, and none after it is named `later`.
  pub record Hit (name later : Bytes) (refs : List Reference) (r : Reference) : Type 0 where
    pub before : List Reference
    pub after : List Reference
    pub split : refs ≡ before ++ r ∷ after
    pub component : is_component r ≡ true
    pub named : string_equal (space.browse_name st r.child_id).name name ≡ true
    pub misses_before : All (Misses name) before
    pub misses_after : All (Misses later) after
