-- ===== src/Matching.antt =====
-- src/registry_module_capability_matching_functions.c, with `UA_operator_enum` of
-- src/registry_module_callback_functions.c: how the capability value of a resource is matched
-- against the value that a product asks for.
pub mod Table
use swap_it_registry_module.Prelude.{
  ℕ, Bool, true, false, List, [], ◌∷◌, Option, none, some, Bytes, string_equal, get_elem?, ◌>>=◌,
}

-- `UA_Double` and its comparisons, and `atof`: parameters, since there are no floats here.
pub record Doubles : Type 1 where
  pub Double : Type 0
  pub lt : Double → Double → Bool
  pub le : Double → Double → Bool
  pub eq : Double → Double → Bool
  pub atof : Bytes → Double

-- `UA_Variant`, of the three types that the callers store: `data` with the `type` it was stored at.
pub data Variant (D : Type 0) : Type 0 where
  boolean : Bool → Variant D
  double : D → Variant D
  string : Bytes → Variant D

-- `UA_operator_enum`
pub data OperatorEnum : Type 0 where
  equal greater smaller greater_or_equal smaller_or_equal is_true is_false equal_string :
      OperatorEnum

-- The type of value that an operator compares, and the type of a value.
pub data ValueType : Type 0 where
  boolean_type number_type string_type : ValueType

-- The number that C gives to the enumerator.
unfoldable pub operator_value : OperatorEnum → ℕ
operator_value equal = 0
operator_value greater = 1
operator_value smaller = 2
operator_value greater_or_equal = 3
operator_value smaller_or_equal = 4
operator_value is_true = 5
operator_value is_false = 6
operator_value equal_string = 7

-- A function of the table reads `data` at the type that it expects. `none`: the variant holds
-- another type, and the read is undefined.
module _ (d : Doubles) where
  open d use {Double, lt, le, eq}

  pub string_matching : Variant Double → Variant Double → Option Bool
  string_matching (string r) (string p) = some (string_equal r p)
  string_matching _ _ = none

  pub number_smaller : Variant Double → Variant Double → Option Bool
  number_smaller (double r) (double p) = some (lt p r)
  number_smaller _ _ = none

  pub number_smaller_or_equal : Variant Double → Variant Double → Option Bool
  number_smaller_or_equal (double r) (double p) = some (le p r)
  number_smaller_or_equal _ _ = none

  pub number_equal : Variant Double → Variant Double → Option Bool
  number_equal (double r) (double p) = some (eq r p)
  number_equal _ _ = none

  pub number_greater_or_equal : Variant Double → Variant Double → Option Bool
  number_greater_or_equal (double r) (double p) = some (le r p)
  number_greater_or_equal _ _ = none

  pub number_greater : Variant Double → Variant Double → Option Bool
  number_greater (double r) (double p) = some (lt r p)
  number_greater _ _ = none

  pub matches_true : Variant Double → Variant Double → Option Bool
  matches_true (boolean true) (boolean true) = some true
  matches_true (boolean true) (boolean false) = some false
  matches_true (boolean false) p = some false
  matches_true _ _ = none

  pub matches_false : Variant Double → Variant Double → Option Bool
  matches_false (boolean false) (boolean false) = some true
  matches_false (boolean false) (boolean true) = some false
  matches_false (boolean true) (boolean p) = some false
  matches_false _ _ = none

  unfoldable pub matching_functions : List (Variant Double → Variant Double → Option Bool)
  unfolding string_matching number_smaller number_smaller_or_equal number_equal
      number_greater_or_equal number_greater matches_true matches_false
  matching_functions =
      number_equal ∷ number_greater ∷ number_smaller ∷ number_greater_or_equal
      ∷ number_smaller_or_equal ∷ matches_true ∷ matches_false ∷ string_matching ∷ []

  -- `matching_functions[oper](resource, product, &agent_is_suitable)`; `none` also where `oper` lies
  -- outside the table.
  unfoldable pub call_matching : ℕ → Variant Double → Variant Double → Option Bool
  unfolding matching_functions
  call_matching oper resource product = do
    matching_function ← get_elem? matching_functions oper
    matching_function resource product
