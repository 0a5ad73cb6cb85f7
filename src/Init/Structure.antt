-- ===== src/Init/Structure.antt =====
-- What the start of the registry builds: the lists and the methods, and what keeps them.
use swap_it_registry_module.Prelude.{◌≡◌, ◌∙◌, some, List, [], ◌∷◌, map, Bytes, codes}
use swap_it_registry_module.Ua.{NodeId, qualified_name}
use swap_it_registry_module.Init.{
  filter_agents, add_agent_to_registry, remove_agent_from_registry, MethodCallback, Method,
  InitServer, node_id_string,
}
use swap_it_registry_module.Init.Way.{At, Kept, Way, Way-Kept, Builds}

module _ (server : InitServer) (builds : Builds server) where
  open server.adder use {space}
  open space use {State}
  open builds use {Has, method_of, HasList}

  -- A node is the method of this name below `pfdl`: a call of it calls this function, with arguments of
  -- these names.
  pub record IsMethod (st : State) (pfdl : NodeId) (name : Bytes) (callback : MethodCallback)
      (inputs outputs : List Bytes) : Type 0 where
    pub at : At space st pfdl (node_id_string 1 name) (qualified_name 1 name)
    pub method : Method
    pub kept : method_of st (node_id_string 1 name) ≡ some method
    pub calls : method.callback ≡ callback
    pub takes : map (λ a. a.name) method.input ≡ inputs
    pub gives : map (λ a. a.name) method.output ≡ outputs

  -- The lists and the three methods are where the other parts of the program look for them.
  pub record Methods (st : State) (pfdl : NodeId) : Type 0 where
    pub filtering :
        IsMethod st pfdl
          (codes "Filter_Agents")
          filter_agents
          (codes "service_name" ∷ codes "Capability_Names" ∷ codes "Capability_Items" ∷ [])
          (codes "Agent_List" ∷ [])
    pub adding :
        IsMethod st pfdl
          (codes "Add_Agent_Server")
          add_agent_to_registry
          (codes "service_name" ∷ codes "address" ∷ codes "port" ∷ codes "moduleType" ∷ [])
          []
    pub removing :
        IsMethod st pfdl
          (codes "Remove_Agent_Server")
          remove_agent_from_registry
          (codes "agent_url" ∷ codes "agent_port" ∷ codes "agent_service" ∷ [])
          []

  pub record Structure (st : State) : Type 0 where
    pub agent_list : NodeId
    pub pfdl : NodeId
    pub orchestrator : NodeId
    pub assignment : NodeId
    pub engines : NodeId
    pub way : Way space st agent_list pfdl
    pub methods : Methods st pfdl
    pub orchestrator_at :
        At space st agent_list orchestrator (qualified_name 0 (codes "OrchestratorServices"))
    pub assignment_at :
        At space st orchestrator assignment (qualified_name 0 (codes "AssignmentAgentList"))
    pub engines_at :
        At space st orchestrator engines (qualified_name 0 (codes "ExecutionEngineList"))

  -- What a later call leaves: the components with their names, and the methods.
  abbrev pub Stays : State → State → Type 0
  Stays st st' = Kept space st st' × ((k : NodeId) → method_of st' k ≡ method_of st k)

  pub Stays-trans : (s1 s2 s3 : State) → Stays s1 s2 → Stays s2 s3 → Stays s1 s3
  Stays-trans s1 s2 s3 h k =
      ((λ n id name a. k.0 n id name (h.0 n id name a)), (λ m. k.1 m ∙ h.1 m))

  IsMethod-Kept :
      (st st' : State) (pfdl : NodeId) (name : Bytes) (callback : MethodCallback)
      (inputs outputs : List Bytes)
      → Kept space st st'
      → method_of st' (node_id_string 1 name) ≡ method_of st (node_id_string 1 name)
      → IsMethod st pfdl name callback inputs outputs
      → IsMethod st' pfdl name callback inputs outputs
  IsMethod-Kept st st' pfdl name callback inputs outputs k e m = record {
    at = k _ _ _ m.at;
    method = m.method;
    kept = e ∙ m.kept;
    calls = m.calls;
    takes = m.takes;
    gives = m.gives;
  }

  pub Methods-Stays :
      (st st' : State) (pfdl : NodeId) → Stays st st' → Methods st pfdl → Methods st' pfdl
  Methods-Stays st st' pfdl k m = record {
    filtering = IsMethod-Kept st st' pfdl _ _ _ _ k.0 (k.1 _) m.filtering;
    adding = IsMethod-Kept st st' pfdl _ _ _ _ k.0 (k.1 _) m.adding;
    removing = IsMethod-Kept st st' pfdl _ _ _ _ k.0 (k.1 _) m.removing;
  }

  pub Structure-Stays : (st st' : State) → Stays st st' → Structure st → Structure st'
  Structure-Stays st st' k s = record {
    agent_list = s.agent_list;
    pfdl = s.pfdl;
    orchestrator = s.orchestrator;
    assignment = s.assignment;
    engines = s.engines;
    way = Way-Kept space st st' s.agent_list s.pfdl k.0 s.way;
    methods = Methods-Stays st st' s.pfdl k s.methods;
    orchestrator_at = k.0 _ _ _ s.orchestrator_at;
    assignment_at = k.0 _ _ _ s.assignment_at;
    engines_at = k.0 _ _ _ s.engines_at;
  }
