-- ===== src/Filter.antt =====
-- `filter_agents` of src/registry_module_callback_functions.c: the agents of a service, their
-- capabilities, and those agents whose capabilities suit the product.
pub mod Find
pub mod Capabilities
pub mod Suitable
pub mod Laws
use swap_it_registry_module.Prelude.{
  ℕ, Bool, not, List, [], ◌∷◌, Option, none, some, map, Bytes, codes, string_equal, length, head?,
  ◌==◌, if◌then◌else◌, ◌>>=◌,
}
use swap_it_registry_module.Ua.{NodeId}
use swap_it_registry_module.Matching.{Doubles}
use Find.{CapabilityFinder, find_agents}
use Capabilities.{CapabilitySpace, agent_capabilities}
use Suitable.{filter_by_capabilities}

-- An input argument of type String: a scalar, whose variant has `arrayLength` 0, or an array.
pub data StringArgument : Type 0 where
  scalar : Bytes → StringArgument
  array : List Bytes → StringArgument

abbrev pub array_elements : StringArgument → List Bytes
array_elements (scalar s) = []
array_elements (array l) = l

-- `*(UA_String*) input.data`, undefined for an array with no element.
abbrev pub first_string : StringArgument → Option Bytes
first_string (scalar s) = some s
first_string (array l) = head? l

-- The status code, with the output argument where it is set.
pub data FilterResult : Type 0 where
  bad : FilterResult
  good : List NodeId → FilterResult

module _ (d : Doubles) (space : CapabilitySpace d.Double) where
  open space use {State}

  -- `none`: the call reads memory that it may not read.
  unfoldable pub filter_agents :
      State → Bytes → StringArgument → StringArgument → Option FilterResult
  unfolding find_agents agent_capabilities filter_by_capabilities
  filter_agents st service_name names values =
      let agents = (find_agents space.space st service_name).target_node_nodeid in
      let handler = map (λ n. (n, agent_capabilities space st n)) agents in
      let suitable =
        filter_by_capabilities d handler (array_elements names) (array_elements values) in
      if not (length (array_elements names) == length (array_elements values))
      then some bad
      else first_string names >>= λ capa_node.
          if string_equal capa_node (codes "None")
          then some (good agents)
          else suitable >>= λ result_list. some (good result_list)
