-- ===== src/Ua/Visits.antt =====
-- Traversals that may have undefined behaviour, over a list in two parts.
use swap_it_registry_module.Prelude.{bind_assoc, ◌≡◌, refl, ◌∙◌, Option, ◌>>=◌, List, [], ◌∷◌, ◌++◌}
use swap_it_registry_module.Ua.{Reference, visit_children}

pub visit_children-append {ℓ} :
    {S : Type ℓ} (f : S → Reference → Option S) (s : S) (xs ys : List Reference)
    → visit_children f s (xs ++ ys) ≡ (visit_children f s xs >>= λ t. visit_children f t ys)
unfolding visit_children
visit_children-append f s [] ys = refl
visit_children-append f s (x ∷ xs) ys =
    (λ i. f s x >>= λ t. visit_children-append f t xs ys i)
    ∙ bind_assoc (f s x) (λ t. visit_children f t xs) (λ t. visit_children f t ys)
