-- ===== src/Examples/Shop.antt =====
-- A registry with one service, `Drill`, and two agents, each with a `Status` object and a module with
-- the capabilities `speed` (greater or equal) and `coat` (equal strings).
use swap_it_registry_module.Prelude.{
  ℕ, ◌+◌, ◌-◌, ◌*◌, List, [], ◌∷◌, map, foldl, false, Bytes, codes, ltb, leb, ◌==◌, if◌then◌else◌,
}
use swap_it_registry_module.Ua.{
  NodeId, numeric, text, guid, byte_string, node_id_numeric, qualified_name, Reference,
  has_component, AddressSpace,
}
use swap_it_registry_module.Matching.{Doubles, double, string, number_type, string_type}
use swap_it_registry_module.Filter.Capabilities.{
  NodeValue, struct_number, struct_string, other, CapabilitySpace, Capability,
}

-- Whole numbers in place of the floats.
abbrev pub whole : Doubles
whole = record {
  Double = ℕ;
  lt = ltb;
  le = leb;
  eq = ◌==◌;
  atof = foldl (λ n c. 10 * n + (c - b'0')) 0;
}

abbrev pub number_of : NodeId → ℕ
number_of n = elim n.identifier [ numeric k ↦ k | text s ↦ 0 | guid s ↦ 0 | byte_string s ↦ 0 ]

abbrev pub component : ℕ → Reference
component k = record {
  child_id = node_id_numeric 1 k;
  is_inverse = false;
  reference_type_id = has_component;
}

-- 1 AgentList, 2 PFDLServiceAgents, 3 Drill, 4 and 5 agents, 6 and 7 Status, 8 and 9 modules, 10 and
-- 11 Capabilities, 12 to 15 capability items.
abbrev pub children : ℕ → List ℕ
children k =
    if k == 85
    then 1 ∷ []
    else if k == 1
    then 2 ∷ []
    else if k == 2
    then 3 ∷ []
    else if k == 3
    then 4 ∷ 5 ∷ []
    else if k == 4
    then 6 ∷ 8 ∷ []
    else if k == 5
    then 7 ∷ 9 ∷ []
    else if k == 8
    then 10 ∷ []
    else if k == 9
    then 11 ∷ []
    else if k == 10
    then 12 ∷ 13 ∷ []
    else if k == 11
    then 14 ∷ 15 ∷ []
    else []

abbrev pub name_of : ℕ → Bytes
name_of k =
    if k == 1
    then codes "AgentList"
    else if k == 2
    then codes "PFDLServiceAgents"
    else if k == 3
    then codes "Drill"
    else if k == 4
    then codes "opc.tcp://a:1"
    else if k == 5
    then codes "opc.tcp://b:1"
    else if k == 6
    then codes "Status"
    else if k == 7
    then codes "Status"
    else if k == 8
    then codes "Module"
    else if k == 9
    then codes "Module"
    else if k == 10
    then codes "Capabilities"
    else if k == 11
    then codes "Capabilities"
    else if k == 12
    then codes "speed"
    else if k == 14
    then codes "speed"
    else codes "coat"

abbrev value_of : ℕ → NodeValue ℕ
value_of k =
    if k == 12
    then struct_number 60 3
    else if k == 14
    then struct_number 100 3
    else if k == 13
    then struct_string (codes "zinc") 7
    else if k == 15
    then struct_string (codes "zinc") 7
    else other

abbrev type_of : ℕ → ℕ
type_of k =
    if k == 12
    then 15049
    else if k == 14
    then 15049
    else if k == 13
    then 15050
    else if k == 15
    then 15050
    else 0

abbrev pub shop_nodes : AddressSpace
shop_nodes = record {
  State = Unit {0};
  references = λ st n. map component (children (number_of n));
  browse_name = λ st n. qualified_name 0 (name_of (number_of n));
}

abbrev pub shop : CapabilitySpace ℕ
shop = record {
  space = shop_nodes;
  data_type = λ st n. node_id_numeric 2 (type_of (number_of n));
  value = λ st n. value_of (number_of n);
  struct_boolean_id = 15048;
  struct_number_id = 15049;
  struct_string_id = 15050;
}

-- What the two agents offer.
abbrev pub speed : ℕ → Capability ℕ
speed v = record { name = codes "speed"; type = number_type; value = double v; oper = 3 }

abbrev pub coat : Capability ℕ
coat = record { name = codes "coat"; type = string_type; value = string (codes "zinc"); oper = 7 }

abbrev pub offers : NodeId → List (Capability ℕ)
offers n = speed (if number_of n == 4 then 60 else 100) ∷ coat ∷ []
