-- ===== src/Matching/Table.antt =====
-- What the table of matching functions decides: `product value OPERATOR resource value`.
use swap_it_registry_module.Prelude.{
  ℕ, ◌≤◌, ◌≡◌, ◌≢◌, ◌⊎◌, Bool, true, false, ◌||◌, some, none, arith,
}
use swap_it_registry_module.Matching.{
  Doubles, Variant, boolean, double, string, OperatorEnum, equal, greater, smaller,
  greater_or_equal, smaller_or_equal, is_true, is_false, equal_string, operator_value,
  call_matching, ValueType, boolean_type, number_type, string_type,
}

abbrev pub operator_type : OperatorEnum → ValueType
operator_type is_true = boolean_type
operator_type is_false = boolean_type
operator_type equal_string = string_type
operator_type _ = number_type

abbrev pub variant_type : {D : Type 0} → Variant D → ValueType
variant_type (boolean b) = boolean_type
variant_type (double x) = number_type
variant_type (string s) = string_type

-- What IEEE 754 says of `<`, `<=` and `==` where no operand is a NaN: `<=` is `<` or `==`, and of
-- two numbers exactly one is less, or they are equal.
pub record IsLinear (d : Doubles) : Type 0 where
  pub le_lem : (a b : d.Double) → d.le a b ≡ (d.lt a b || d.eq a b)
  pub trichotomy :
      (a b : d.Double)
      → ((d.lt a b ≡ true) × (d.eq a b ≡ false) × (d.lt b a ≡ false))
        ⊎ ((d.lt a b ≡ false) × (d.eq a b ≡ true) × (d.lt b a ≡ false))
        ⊎ ((d.lt a b ≡ false) × (d.eq a b ≡ false) × (d.lt b a ≡ true))
  pub eq_symm : (a b : d.Double) → d.eq a b ≡ d.eq b a

module _ (d : Doubles) where
  abbrev pub Suits : OperatorEnum → d.Double → d.Double → Bool → Type 0
  Suits o r p b = call_matching d (operator_value o) (double r) (double p) ≡ some b

  -- For numbers that are linearly ordered, the five operators split into the three cases of the
  -- comparison of product and resource value.
  pub number_operators :
      IsLinear d
      → (r p : d.Double)
      → ((d.lt p r ≡ true)
          × Suits smaller r p true
          × Suits equal r p false
          × Suits greater r p false
          × Suits smaller_or_equal r p true
          × Suits greater_or_equal r p false)
        ⊎ ((d.eq p r ≡ true)
            × Suits smaller r p false
            × Suits equal r p true
            × Suits greater r p false
            × Suits smaller_or_equal r p true
            × Suits greater_or_equal r p true)
        ⊎ ((d.lt r p ≡ true)
            × Suits smaller r p false
            × Suits equal r p false
            × Suits greater r p true
            × Suits smaller_or_equal r p false
            × Suits greater_or_equal r p true)
  unfolding operator_value call_matching
  number_operators h r p =
      ground (arith, h.le_lem p r, h.le_lem r p, h.trichotomy p r, h.eq_symm p r)

  -- Where both values have the operator's type, the call is defined.
  pub call_matching_defined :
      (o : OperatorEnum) (r p : Variant d.Double)
      → variant_type r ≡ operator_type o
      → variant_type p ≡ operator_type o
      → call_matching d (operator_value o) r p ≢ none
  unfolding operator_value call_matching
  call_matching_defined equal r p h k = ground arith
  call_matching_defined o r p h k = ground arith

  -- A resource value of another type than the operator's is misread, and a number outside the
  -- enumeration reads outside the table.
  pub call_matching_other_type :
      (o : OperatorEnum) (r p : Variant d.Double)
      → variant_type r ≢ operator_type o
      → call_matching d (operator_value o) r p ≡ none
  unfolding operator_value call_matching
  call_matching_other_type equal r p h = ground arith
  call_matching_other_type o r p h = ground arith

  pub call_matching_outside :
      (r p : Variant d.Double) (oper : ℕ) → 8 ≤ oper → call_matching d oper r p ≡ none
  unfolding call_matching
  call_matching_outside r p oper h = ground arith
