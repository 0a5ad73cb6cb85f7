-- ===== src/Init.antt =====
-- src/registry_module_init.c: `initRegistryModuleServerStructure` adds the lists of agents and the three
-- methods, and `start_registry_module` gives the list of agents to two of them. The server is a
-- parameter, as is the generated code that loads the common model. An id of a new node that the server
-- refuses is an uninitialised variable, which the code goes on to read.
pub mod Way
pub mod Structure
pub mod Laws
use swap_it_registry_module.Prelude.{ℕ, Option, none, some, ◌>>=◌, List, [], ◌∷◌, Bytes, codes}
use swap_it_registry_module.Ua.{
  NodeId, text, QualifiedName, qualified_name, has_component, objects_folder, AddressSpace,
}
use swap_it_registry_module.Agents.{AgentList}
use swap_it_registry_module.Register.{NodeAdder}
use swap_it_registry_module.Search.{get_single_variable}

pub data ArgumentType : Type 0 where
  string node_id : ArgumentType

pub data ValueRank : Type 0 where
  scalar scalar_or_one_dimension any : ValueRank

-- `UA_Argument`
pub record Argument : Type 0 where
  pub name : Bytes
  pub description : Bytes
  pub data_type : ArgumentType
  pub value_rank : ValueRank

-- The functions that are called for the methods.
pub data MethodCallback : Type 0 where
  filter_agents add_agent_to_registry remove_agent_from_registry : MethodCallback

pub record Method : Type 0 where
  pub display_name : Bytes
  pub callback : MethodCallback
  pub input : List Argument
  pub output : List Argument

-- An argument of one text whose description is its name.
abbrev pub text_argument : Bytes → Argument
text_argument name = record {
  name = name;
  description = name;
  data_type = string;
  value_rank = scalar;
}

unfoldable pub filter_agent_input_arguments : List Argument
filter_agent_input_arguments =
    record {
      name = codes "service_name";
      description = codes "the Name of the service for which agents should be filtered";
      data_type = string;
      value_rank = scalar;
    }
    ∷ record {
      name = codes "Capability_Names";
      description = codes "An Array with BrowseName of the capabilities that should be matched";
      data_type = string;
      value_rank = scalar_or_one_dimension;
    }
    ∷ record {
      name = codes "Capability_Items";
      description = codes "An Array of Values with the Value of each Capability Item";
      data_type = string;
      value_rank = scalar_or_one_dimension;
    }
    ∷ []

unfoldable pub filter_agent_output_arguments : List Argument
filter_agent_output_arguments =
    record {
      name = codes "Agent_List";
      description =
          codes
            "The Resuklt of the Calback is a list of BrowseNames that includes all Agents which are suitable to execute the required Service";
      data_type = node_id;
      value_rank = any;
    }
    ∷ []

unfoldable pub remove_method_input_arguments : List Argument
remove_method_input_arguments =
    text_argument (codes "agent_url")
    ∷ text_argument (codes "agent_port")
    ∷ text_argument (codes "agent_service")
    ∷ []

unfoldable pub add_method_input_arguments : List Argument
add_method_input_arguments =
    text_argument (codes "service_name")
    ∷ text_argument (codes "address")
    ∷ text_argument (codes "port")
    ∷ text_argument (codes "moduleType")
    ∷ []

pub record InitServer : Type 1 where
  pub adder : NodeAdder
  -- `UA_Server_addMethodNode` with a requested id, the parent, the reference and the browse name; the
  -- code does not look at its status
  pub add_method_node :
      adder.space.State → NodeId → NodeId → NodeId → QualifiedName → Method → adder.space.State
  pub namespace_common_generated : adder.space.State → adder.space.State
  -- `UA_Server_setNodeContext` with the list of agents
  pub set_agent_list : adder.space.State → NodeId → adder.space.State

-- `UA_NODEID_STRING`
abbrev pub node_id_string : ℕ → Bytes → NodeId
node_id_string ns s = record { namespace_index = ns; identifier = text s }

abbrev pub agent_list_name : QualifiedName
agent_list_name = qualified_name 0 (codes "AgentList")

abbrev pub pfdl_name : QualifiedName
pfdl_name = qualified_name 0 (codes "PFDLServiceAgents")

module _ (server : InitServer) where
  open server use {adder, add_method_node, namespace_common_generated, set_agent_list}
  open adder use {space, add_object_node}
  open space use {State}

  -- The three methods below `PFDLServiceAgents`, whose ids are their names.
  abbrev pub add_method : Bytes → Method → State → NodeId → State
  add_method name m st pfdl =
      add_method_node st (node_id_string 1 name) pfdl has_component (qualified_name 1 name) m

  unfoldable pub add_methods : State → NodeId → State
  unfolding filter_agent_input_arguments filter_agent_output_arguments add_method_input_arguments
      remove_method_input_arguments
  add_methods st pfdl =
      let filtering =
        add_method (codes "Filter_Agents")
          (record {
            display_name = codes "Filter Agents";
            callback = filter_agents;
            input = filter_agent_input_arguments;
            output = filter_agent_output_arguments;
          })
          st pfdl in
      let adding =
        add_method (codes "Add_Agent_Server")
          (record {
            display_name = codes "Add Agent";
            callback = add_agent_to_registry;
            input = add_method_input_arguments;
            output = [];
          })
          filtering pfdl in
      add_method (codes "Remove_Agent_Server")
        (record {
          display_name = codes "Remove Agent";
          callback = remove_agent_from_registry;
          input = remove_method_input_arguments;
          output = [];
        })
        adding pfdl

  unfoldable pub init_registry_module_server_structure : State → Option State
  unfolding add_methods
  init_registry_module_server_structure st =
      let list = add_object_node st objects_folder has_component agent_list_name in
      list.1 >>= λ agent_list_node_id.
      let services = add_object_node list.0 agent_list_node_id has_component pfdl_name in
      services.1 >>= λ pfdl_service_id.
      let orchestrator =
        add_object_node (add_methods services.0 pfdl_service_id) agent_list_node_id has_component
          (qualified_name 0 (codes "OrchestratorServices")) in
      orchestrator.1 >>= λ orchestrator_id.
      let assignment =
        add_object_node orchestrator.0 orchestrator_id has_component
          (qualified_name 0 (codes "AssignmentAgentList")) in
      some
        (add_object_node assignment.0 orchestrator_id has_component
          (qualified_name 0 (codes "ExecutionEngineList"))).0

  -- Lines 256 to 265, with the searches as deep as the fuel.
  unfoldable pub set_contexts : ℕ → State → State
  unfolding get_single_variable
  set_contexts fuel st =
      let add_agent_node_id = get_single_variable space fuel st (codes "Add_Agent_Server") in
      let remove_agent_node_id = get_single_variable space fuel st (codes "Remove_Agent_Server") in
      set_agent_list (set_agent_list st add_agent_node_id) remove_agent_node_id

  -- From a server that is started.
  unfoldable pub start_registry_module : {C : Type 0} → ℕ → State → Option (State × AgentList C)
  unfolding init_registry_module_server_structure set_contexts
  start_registry_module fuel st = init_registry_module_server_structure st >>= λ built. some (
    set_contexts fuel (namespace_common_generated built),
    record { agents = []; agent_url = []; number_agents = 0 },
  )
