-- ===== src/Namespace/Laws.antt =====
-- Where the names of the two arrays are unique, the mapping of the indices is the one by names.
use swap_it_registry_module.Prelude.{
  ℕ, ◌+◌, ◌%◌, ◌^◌, ◌<◌, ◌≡◌, refl, ap, ◌∙◌, false, some, List, [], ◌∷◌, ◌++◌, All, Bytes,
  string_equal, string_equal_self, get_elem?, length, if◌then◌else◌, arith,
}
use swap_it_registry_module.Namespace.{
  check_source_server_namespace_array, namespace_loop, check_aggregation_server_namespace_array,
  map_namespace_idx,
}

abbrev pub IsAbsent : Bytes → List Bytes → Type 0
IsAbsent name = All (λ entry. string_equal name entry ≡ false)

loop-IsAbsent :
    (i : ℕ) (entries : List Bytes) (name : Bytes) (idx : ℕ)
    → IsAbsent name entries
    → namespace_loop i entries name idx ≡ idx
unfolding namespace_loop
loop-IsAbsent i [] name idx h = refl
loop-IsAbsent i (e ∷ entries) name idx h = rw h.0 (loop-IsAbsent (i + 1) entries name idx h.1)

-- The last entry with the name counts.
loop-last :
    (i : ℕ) (before after : List Bytes) (name : Bytes) (idx : ℕ)
    → IsAbsent name after
    → i + length before < 2 ^ 16
    → namespace_loop i (before ++ name ∷ after) name idx ≡ i + length before
unfolding namespace_loop
loop-last i [] after name idx h k =
    ap (λ b. namespace_loop (i + 1) after name (if b then i % 2 ^ 16 else idx))
      (string_equal_self name)
    ∙ loop-IsAbsent (i + 1) after name (i % 2 ^ 16) h
    ∙ omega arith
loop-last i (e ∷ before) after name idx h k =
    loop-last (i + 1) before after name (if string_equal name e then i % 2 ^ 16 else idx) h
      (omega arith)
    ∙ omega arith

-- The entry of a place in an array of unique names.
pub record Place (name : Bytes) (entries : List Bytes) (i : ℕ) : Type 0 where
  pub before : List Bytes
  pub after : List Bytes
  pub split : entries ≡ before ++ name ∷ after
  pub at : i ≡ length before
  pub no_later : IsAbsent name after

place-get_elem? :
    (before after : List Bytes) (name : Bytes)
    → get_elem? (before ++ name ∷ after) (length before) ≡ some name
place-get_elem? [] after name = refl
place-get_elem? (b ∷ before) after name = place-get_elem? before after name

pub source-Place :
    (client : List Bytes) (name : Bytes) (i : ℕ)
    → Place name client i
    → check_source_server_namespace_array i (some client) ≡ some name
unfolding check_source_server_namespace_array
source-Place client name i p = rw (p.split, p.at) (place-get_elem? p.before p.after name)

pub target-Place :
    (server : List Bytes) (name : Bytes) (idx j : ℕ)
    → Place name server j
    → j < 2 ^ 16
    → check_aggregation_server_namespace_array idx (some server) name ≡ j
unfolding check_aggregation_server_namespace_array
target-Place server name idx j q h =
    rw q.split
      (loop-last 0 q.before q.after name idx q.no_later (omega (arith, q.at)) ∙ omega (arith, q.at))

map-Place :
    (server client : List Bytes) (name : Bytes) (i j : ℕ)
    → Place name client i
    → Place name server j
    → j < 2 ^ 16
    → map_namespace_idx (some server) (some client) i ≡ some j
unfolding map_namespace_idx
map-Place server client name i j p q h =
    rw (source-Place client name i p) (ap some (target-Place server name 0 j q h))

-- A namespace that both servers know, as the last entry of its name in either array, is mapped to its
-- place in the array of the target, and from there back to the index that it came from.
pub map_namespace_idx-back :
    (server client : List Bytes) (name : Bytes) (i j : ℕ)
    → Place name client i
    → Place name server j
    → i < 2 ^ 16
    → j < 2 ^ 16
    → (map_namespace_idx (some server) (some client) i ≡ some j)
      × (map_namespace_idx (some client) (some server) j ≡ some i)
map_namespace_idx-back server client name i j p q hi hj =
    (map-Place server client name i j p q hj, map-Place client server name j i q p hi)
