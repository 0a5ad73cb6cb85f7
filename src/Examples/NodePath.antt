-- ===== src/Examples/NodePath.antt =====
-- The path of an entry node of a registration.
use swap_it_registry_module.Prelude.{◌≡◌, refl, false, [], ◌∷◌, codes}
use swap_it_registry_module.NodePath.{module_path, node_path, token, split_path}
use swap_it_registry_module.NodePath.Laws.{IsName, split_path-node_path}

split_path_runs : split_path [] (codes "/Objects//Drill/") ≡ codes "Objects" ∷ codes "Drill" ∷ []
unfolding split_path token
split_path_runs = refl

split_path-node_path_example :
    (split_path [] (node_path (codes "Drill") (codes "Queue/ServiceQueue")).contents
      ≡ codes "Objects" ∷ codes "Drill" ∷ codes "Queue" ∷ codes "ServiceQueue" ∷ [])
    × ((module_path (codes "Drill")).overflowed ≡ false)
    × ((node_path (codes "Drill") (codes "Queue/ServiceQueue")).overflowed ≡ false)
split_path-node_path_example =
    split_path-node_path (codes "Drill") (codes "Queue") (codes "ServiceQueue" ∷ []) drill queue
      (service_queue, _)
  where
    drill : IsName (codes "Drill")
    drill = (refl, (refl, (refl, (refl, (refl, _)))))

    queue : IsName (codes "Queue")
    queue = (refl, (refl, (refl, (refl, (refl, _)))))

    service_queue : IsName (codes "ServiceQueue")
    service_queue = (
      refl,
      (refl, (refl, (refl, (refl, (refl, (refl, (refl, (refl, (refl, (refl, (refl, _))))))))))),
    )
