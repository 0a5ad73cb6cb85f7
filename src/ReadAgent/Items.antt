-- ===== src/ReadAgent/Items.antt =====
-- The monitored items that the thread of an agent makes.
use mathlib.Core.List.{append_assoc}
use swap_it_registry_module.Prelude.{
  ℕ, zero, suc, ◌+◌, ◌≡◌, refl, ap, ap₂, ◌∙◌, List, [], ◌∷◌, ◌++◌, map, length, set, length-append,
  arith,
}
use swap_it_registry_module.Ua.{NodeId}
use swap_it_registry_module.NodeIterator.{AggregateNodeId, null_id}
use swap_it_registry_module.ReadAgent.{null_ids, fill_items, create_items}

-- A write behind a first part.
set-append_at {ℓ} :
    {A : Type ℓ} (xs ys : List A) (y z : A) (i : ℕ)
    → length xs ≡ i
    → set (xs ++ y ∷ ys) i z ≡ xs ++ z ∷ [] ++ ys
set-append_at [] ys y z zero e = refl
set-append_at [] ys y z (suc i) e = absurd (omega arith)
set-append_at (x ∷ xs) ys y z zero e = absurd (omega arith)
set-append_at (x ∷ xs) ys y z (suc i) e = ap (◌∷◌ x) (set-append_at xs ys y z i (omega arith))

length-snoc {ℓ} :
    {A : Type ℓ} (xs : List A) (z : A) (i : ℕ) → length xs ≡ i → length (xs ++ z ∷ []) ≡ i + 1
length-snoc xs z i e = omega (arith, length-append xs (z ∷ []))

-- The loop, behind parts that are filled.
fill_items_lem :
    (i : ℕ) (xs ys : List NodeId) (queue : List AggregateNodeId)
    → length xs ≡ i
    → length ys ≡ i
    → fill_items i queue (record { items = xs ++ null_ids queue; contexts = ys ++ null_ids queue })
      ≡ record {
        items = xs ++ map (λ n. n.node_id) queue;
        contexts = ys ++ map (λ n. n.node_id_on_aggregation_server) queue;
      }
unfolding fill_items
fill_items_lem i xs ys [] e e' = refl
fill_items_lem i xs ys (n ∷ queue) e e' =
    ap₂ (λ items contexts. fill_items (i + 1) queue (record { items = items; contexts = contexts }))
      (set-append_at xs (null_ids queue) null_id n.node_id i e)
      (set-append_at ys (null_ids queue) null_id n.node_id_on_aggregation_server i e')
    ∙ fill_items_lem (i + 1) (xs ++ n.node_id ∷ []) (ys ++ n.node_id_on_aggregation_server ∷ [])
        queue (length-snoc xs n.node_id i e) (length-snoc ys n.node_id_on_aggregation_server i e')
    ∙ ap₂ (λ items contexts. record { items = items; contexts = contexts })
        (append_assoc xs (n.node_id ∷ []) _)
        (append_assoc ys (n.node_id_on_aggregation_server ∷ []) _)

-- The i-th monitored item is the i-th node of the queue of subscription nodes, and its context is the
-- node of the registry beside it.
pub create_items_lem :
    (queue : List AggregateNodeId)
    → create_items queue ≡ record {
      items = map (λ n. n.node_id) queue;
      contexts = map (λ n. n.node_id_on_aggregation_server) queue;
    }
unfolding create_items
create_items_lem queue = fill_items_lem 0 [] [] queue refl refl
