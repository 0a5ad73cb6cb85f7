-- ===== src/Prelude/Lists.antt =====
-- Lists measured and indexed by native numbers, under the library's names.
use Prim.Native.Nat.{ℕ, zero, suc, ◌+◌, ◌≤◌}
use mathlib.Core.Path.{◌≡◌, refl, ap}
use mathlib.Core.Logic.{◌≢◌, inl, inr}
use mathlib.Core.Bool.{Bool, true, ◌&&◌}
use mathlib.Core.List.{List, [], ◌∷◌, ◌++◌, map}
use mathlib.Core.Option.{Option, none, some}
use native.Mathlib.Omega.{arith}
use swap_it_registry_module.Prelude.Tests.{if◌then◌else◌, Bool-cases}

module _ {ℓ} {A : Type ℓ} where
  abbrev pub length : List A → ℕ
  length [] = 0
  length (x ∷ xs) = suc (length xs)

  abbrev pub get_elem? : List A → ℕ → Option A
  get_elem? [] i = none
  get_elem? (x ∷ xs) zero = some x
  get_elem? (x ∷ xs) (suc i) = get_elem? xs i

  abbrev pub get_or : List A → ℕ → A → A
  get_or [] i d = d
  get_or (x ∷ xs) zero d = x
  get_or (x ∷ xs) (suc i) d = get_or xs i d

  -- A write out of bounds changes nothing.
  abbrev pub set : List A → ℕ → A → List A
  set [] i v = []
  set (x ∷ xs) zero v = v ∷ xs
  set (x ∷ xs) (suc i) v = x ∷ set xs i v

  abbrev pub take : ℕ → List A → List A
  take zero xs = []
  take (suc n) [] = []
  take (suc n) (x ∷ xs) = x ∷ take n xs

  abbrev pub head? : List A → Option A
  head? [] = none
  head? (x ∷ xs) = some x

  abbrev pub tail : List A → List A
  tail [] = []
  tail (x ∷ xs) = xs

  abbrev pub filter : (A → Bool) → List A → List A
  filter p [] = []
  filter p (x ∷ xs) = if p x then x ∷ filter p xs else filter p xs

  abbrev pub all : (A → Bool) → List A → Bool
  all p [] = true
  all p (x ∷ xs) = p x && all p xs

  -- A predicate on each element, which computes to tuples.
  abbrev pub All {κ} : (A → Type κ) → List A → Type κ
  All P [] = Unit
  All P (x ∷ xs) = P x × All P xs

  -- No element stands twice.
  abbrev pub Distinct : List A → Type ℓ
  Distinct [] = Unit
  Distinct (x ∷ xs) = All (λ y. x ≢ y) xs × Distinct xs

module _ {ℓ} {A : Type ℓ} where
  pub length-append : (xs ys : List A) → length (xs ++ ys) ≡ length xs + length ys
  length-append [] ys = omega arith
  length-append (x ∷ xs) ys = omega (arith, length-append xs ys)

  pub length-set : (xs : List A) (i : ℕ) (v : A) → length (set xs i v) ≡ length xs
  length-set [] i v = refl
  length-set (x ∷ xs) zero v = refl
  length-set (x ∷ xs) (suc i) v = ap suc (length-set xs i v)

  pub length-take_of_le : (n : ℕ) (xs : List A) → n ≤ length xs → length (take n xs) ≡ n
  length-take_of_le zero xs h = refl
  length-take_of_le (suc n) [] h = absurd (omega arith)
  length-take_of_le (suc n) (x ∷ xs) h = ap suc (length-take_of_le n xs (omega arith))

  pub take-length-append : (xs ys : List A) → take (length xs) (xs ++ ys) ≡ xs
  take-length-append [] ys = refl
  take-length-append (x ∷ xs) ys = ap (◌∷◌ x) (take-length-append xs ys)

  pub length-map {κ} : {B : Type κ} (f : B → A) (xs : List B) → length (map f xs) ≡ length xs
  length-map f [] = refl
  length-map f (x ∷ xs) = ap suc (length-map f xs)

  pub take-map {κ} :
      {B : Type κ} (f : B → A) (n : ℕ) (xs : List B) → take n (map f xs) ≡ map f (take n xs)
  take-map f zero xs = refl
  take-map f (suc n) [] = refl
  take-map f (suc n) (x ∷ xs) = ap (◌∷◌ (f x)) (take-map f n xs)

  -- The element behind a first part, the one after it, and a write to it, under a map.
  pub get_elem?-map_at {κ} :
      {B : Type κ} (f : B → A) (xs ys : List B) (y : B)
      → get_elem? (map f (xs ++ y ∷ ys)) (length xs) ≡ some (f y)
  get_elem?-map_at f [] ys y = refl
  get_elem?-map_at f (x ∷ xs) ys y = get_elem?-map_at f xs ys y

  pub get_elem?-map_after {κ} :
      {B : Type κ} (f : B → A) (xs ys : List B) (y : B)
      → get_elem? (map f (xs ++ y ∷ ys)) (length xs + 1) ≡ get_elem? (map f ys) 0
  get_elem?-map_after f [] ys y = refl
  get_elem?-map_after f (x ∷ xs) ys y =
      let e : length (x ∷ xs) + 1 ≡ suc (length xs + 1) = omega arith in
      rw e (get_elem?-map_after f xs ys y)

  pub set-map_at {κ} :
      {B : Type κ} (f : B → A) (xs ys : List B) (y z : B)
      → set (map f (xs ++ y ∷ ys)) (length xs) (f z) ≡ map f (xs ++ z ∷ ys)
  set-map_at f [] ys y z = refl
  set-map_at f (x ∷ xs) ys y z = ap (◌∷◌ (f x)) (set-map_at f xs ys y z)

-- An element of a list, by that of the mapped list, with what holds of all.
pub filter-append {ℓ} :
    {A : Type ℓ} (p : A → Bool) (xs ys : List A) → filter p (xs ++ ys) ≡ filter p xs ++ filter p ys
filter-append p [] ys = refl
filter-append p (x ∷ xs) ys = elim (Bool-cases (p x)) [
  | inl e ↦ rw (e, filter-append p xs ys) refl
  | inr e ↦ rw (e, filter-append p xs ys) refl
]

pub filter_comm {ℓ} :
    {A : Type ℓ} (p q : A → Bool) (xs : List A) → filter p (filter q xs) ≡ filter q (filter p xs)
filter_comm p q [] = refl
filter_comm p q (x ∷ xs) = elim (Bool-cases (p x)) [
  | inl e ↦ elim (Bool-cases (q x)) [
    | inl f ↦ rw (e, f) (rw e (ap (λ ys. x ∷ ys) (filter_comm p q xs)))
    | inr f ↦ rw (e, f) (filter_comm p q xs)
  ]
  | inr e ↦ elim (Bool-cases (q x)) [
    | inl f ↦ rw (e, f) (rw e (filter_comm p q xs))
    | inr f ↦ rw (e, f) (filter_comm p q xs)
  ]
]

pub All-filter {ℓ κ μ} :
    {A : Type ℓ} {P : A → Type κ} {Q : A → Type μ} (p : A → Bool) (xs : List A)
    → ((x : A) → p x ≡ true → P x → Q x)
    → All P xs
    → All Q (filter p xs)
All-filter p [] f h = _
All-filter p (x ∷ xs) f h = elim (Bool-cases (p x)) [
  | inl e ↦ rw e (f x e h.0, All-filter p xs f h.1)
  | inr e ↦ rw e (All-filter p xs f h.1)
]

pub All-zip {ℓ κ μ ν} :
    {A : Type ℓ} {P : A → Type κ} {Q : A → Type μ} {R : A → Type ν} (xs : List A)
    → ((x : A) → P x → Q x → R x)
    → All P xs
    → All Q xs
    → All R xs
All-zip [] f h k = _
All-zip (x ∷ xs) f h k = (f x h.0 k.0, All-zip xs f h.1 k.1)

pub All-split {ℓ κ} :
    {A : Type ℓ} (P : A → Type κ) (xs ys : List A) → All P (xs ++ ys) → All P xs × All P ys
All-split P [] ys h = (_, h)
All-split P (x ∷ xs) ys h = let rest = All-split P xs ys h.1 in ((h.0, rest.0), rest.1)

pub All-join {ℓ κ} :
    {A : Type ℓ} (P : A → Type κ) (xs ys : List A) → All P xs → All P ys → All P (xs ++ ys)
All-join P [] ys h k = k
All-join P (x ∷ xs) ys h k = (h.0, All-join P xs ys h.1 k)

pub All-map_split {ℓ κ μ ν} :
    {A : Type ℓ} {B : Type κ} {P : A → Type μ} {Q : A → Type ν} (f : A → B) (xs : List A)
    (before after : List B) (y : B)
    → map f xs ≡ before ++ y ∷ after
    → All P xs
    → All Q xs
    → (x : A) × (f x ≡ y) × P x × Q x
All-map_split f [] [] after y e h k = cc
All-map_split f [] (b ∷ before) after y e h k = cc
All-map_split f (x ∷ xs) [] after y e h k = (x, cc, h.0, k.0)
All-map_split f (x ∷ xs) (b ∷ before) after y e h k =
    let tails : map f xs ≡ before ++ y ∷ after = cc in
    All-map_split f xs before after y tails h.1 k.1
