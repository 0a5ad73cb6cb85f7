-- ===== src/Examples/Matching.antt =====
-- The table of matching functions at concrete values.
use swap_it_registry_module.Prelude.{◌≡◌, ◌⊎◌, refl, true, false, codes, string_equal, some, arith}
use swap_it_registry_module.Matching.{
  string, greater, smaller, equal, greater_or_equal, smaller_or_equal, call_matching,
}
use swap_it_registry_module.Matching.Table.{IsLinear, Suits, number_operators}
use swap_it_registry_module.Examples.Shop.{whole}

whole-IsLinear : IsLinear whole
whole-IsLinear = record {
  le_lem = λ a b. ground arith;
  trichotomy = λ a b. ground arith;
  eq_symm = λ a b. ground arith;
}

-- A resource that offers 120 and a product that wants 20.
number_operators_example :
    ((whole.lt 20 120 ≡ true)
      × Suits whole smaller 120 20 true
      × Suits whole equal 120 20 false
      × Suits whole greater 120 20 false
      × Suits whole smaller_or_equal 120 20 true
      × Suits whole greater_or_equal 120 20 false)
    ⊎ ((whole.eq 20 120 ≡ true)
        × Suits whole smaller 120 20 false
        × Suits whole equal 120 20 true
        × Suits whole greater 120 20 false
        × Suits whole smaller_or_equal 120 20 true
        × Suits whole greater_or_equal 120 20 true)
    ⊎ ((whole.lt 120 20 ≡ true)
        × Suits whole smaller 120 20 false
        × Suits whole equal 120 20 false
        × Suits whole greater 120 20 true
        × Suits whole smaller_or_equal 120 20 false
        × Suits whole greater_or_equal 120 20 true)
number_operators_example = number_operators whole whole-IsLinear 120 20

table_runs : call_matching whole 7 (string (codes "a")) (string (codes "a")) ≡ some true
unfolding call_matching string_equal
table_runs = refl
