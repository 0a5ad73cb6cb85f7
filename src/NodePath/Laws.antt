-- ===== src/NodePath/Laws.antt =====
-- Taking a path apart gives back the names that it was put together from.
use mathlib.Core.List.{append_assoc, append-nil}
use swap_it_registry_module.Prelude.{
  ◌≡◌, refl, ap, sym, ◌∙◌, false, List, [], ◌∷◌, ◌++◌, All, Bytes, codes, ◌==◌, arith,
}
use swap_it_registry_module.NodePath.{module_path, node_path, token, split_path}

-- A name of a node in a path: at least one byte, and no slash.
abbrev pub IsName : Bytes → Type 0
IsName [] = ⊥
IsName (c ∷ name) = All (λ b. (b == b'/') ≡ false) (c ∷ name)

-- The names with a slash between them.
abbrev pub join : Bytes → List Bytes → Bytes
join name [] = name
join name (next ∷ names) = name ++ b'/' ∷ join next names

split-name :
    (p name s : Bytes)
    → All (λ b. (b == b'/') ≡ false) name
    → split_path p (name ++ s) ≡ split_path (p ++ name) s
unfolding split_path
split-name p [] s h = ap (λ q. split_path q s) (sym (append-nil p))
split-name p (c ∷ name) s h =
    rw h.0 (
      split-name (p ++ c ∷ []) name s h.1 ∙ ap (λ q. split_path q s) (append_assoc p (c ∷ []) name))

token-IsName : (name : Bytes) → IsName name → token name ≡ name ∷ []
unfolding token
token-IsName [] h = absurd h
token-IsName (c ∷ name) h = refl

plain-IsName : (name : Bytes) → IsName name → All (λ b. (b == b'/') ≡ false) name
plain-IsName [] h = absurd h
plain-IsName (c ∷ name) h = h

split-join :
    (name : Bytes) (names : List Bytes)
    → IsName name
    → All IsName names
    → split_path [] (join name names) ≡ name ∷ names
unfolding split_path
split-join name [] h k =
    sym (ap (split_path []) (append-nil name))
    ∙ split-name [] name [] (plain-IsName name h)
    ∙ token-IsName name h
split-join name (next ∷ names) h k =
    split-name [] name (b'/' ∷ join next names) (plain-IsName name h)
    ∙ rw (token-IsName name h) (ap (◌∷◌ name) (split-join next names k.0 k.1))

-- Let the names of the module and of the nodes below it have no slash and at least one byte. The path
-- of a mapping entry for them is taken apart into `Objects`, the module and these nodes, and no write
-- passes the end of the two buffers in which the path is built.
pub split_path-node_path :
    (buf_module entry : Bytes) (names : List Bytes)
    → IsName buf_module
    → IsName entry
    → All IsName names
    → let path = node_path buf_module (join entry names) in
      (split_path [] path.contents ≡ codes "Objects" ∷ buf_module ∷ entry ∷ names)
      × ((module_path buf_module).overflowed ≡ false)
      × (path.overflowed ≡ false)
unfolding node_path module_path
split_path-node_path buf_module entry names h k l = (
  ap (λ q. split_path [] (codes "Objects/" ++ q))
        (append_assoc buf_module (codes "/") (join entry names))
      ∙ split-join (codes "Objects") (buf_module ∷ entry ∷ names)
          (refl, (refl, (refl, (refl, (refl, (refl, (refl, _))))))) (h, (k, l)),
  ground arith,
  ground arith,
)
