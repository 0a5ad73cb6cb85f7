-- ===== src/Register/Found.antt =====
-- A registration adds its agent to what the walk of `filter_agents` finds for the service.
use swap_it_registry_module.Prelude.{
  ◌≡◌, ◌≢◌, sym, subst, ◌∙◌, List, [], ◌∷◌, All, All-zip, All-split, Bytes, some,
}
use swap_it_registry_module.Ua.{
  NodeId, Reference, QualifiedName, qualified_name, has_component, AddressSpace, objects_folder,
}
use swap_it_registry_module.Ua.Levels.{Misses, Hit}
use swap_it_registry_module.Address.{connection_url}
use swap_it_registry_module.Filter.Find.{find_agents}
use swap_it_registry_module.Filter.Find.Path.{agents_below, Route, find_agents-Route}
use swap_it_registry_module.Register.{NodeAdder, Endpoint, EntryNodes, init_registered_agent_nodes}
use swap_it_registry_module.Register.Laws.{
  SameNames, Keeps, Adds, Inserts, init_registered_agent_nodes-agents_below,
}

module _ (space : AddressSpace) where
  open space use {State, references, browse_name}

  SameNames-trans :
      (s1 s2 s3 : State) (refs : List Reference)
      → SameNames space s1 s2 refs
      → SameNames space s2 s3 refs
      → SameNames space s1 s3 refs
  SameNames-trans s1 s2 s3 refs h k = All-zip refs (λ r e f. f ∙ e) h k

  pub Keeps-trans :
      (s1 s2 s3 : State) (n : NodeId)
      → Keeps space s1 s2 n
      → Keeps space s2 s3 n
      → Keeps space s1 s3 n
  Keeps-trans s1 s2 s3 n h k = record {
    same = k.same ∙ h.same;
    names =
        SameNames-trans s1 s2 s3 (references s1 n) h.names
          (subst (SameNames space s2 s3) h.same k.names);
  }

  Misses-SameNames :
      (s1 s2 : State) (name : Bytes) (refs : List Reference)
      → SameNames space s1 s2 refs
      → All (Misses space s1 name) refs
      → All (Misses space s2 name) refs
  Misses-SameNames s1 s2 name refs h k = All-zip refs (λ r e m. rw e m) h k

  pub Hit-Keeps :
      {name later : Bytes} {r : Reference} (s1 s2 : State) (n : NodeId)
      → Keeps space s1 s2 n
      → Hit space s1 name later (references s1 n) r
      → Hit space s2 name later (references s2 n) r
  Hit-Keeps {name} {later} {r} s1 s2 n k h =
      let names =
        All-split _ h.before (r ∷ h.after) (subst (SameNames space s1 s2) h.split k.names) in
      record {
        before = h.before;
        after = h.after;
        split = k.same ∙ h.split;
        component = h.component;
        named = rw names.1.0 h.named;
        misses_before = Misses-SameNames s1 s2 name h.before names.0 h.misses_before;
        misses_after = Misses-SameNames s1 s2 later h.after names.1.1 h.misses_after;
      }

module _ (server : NodeAdder) where
  open server use {space, add_object_node, add_variable_node}

  -- A call that adds a node below another one than `m` keeps `m`.
  abbrev pub ObjectKeeps : NodeId → Type 0
  ObjectKeeps m =
      (st : space.State) (n ref : NodeId) (name : QualifiedName)
      → n ≢ m
      → Keeps space st (add_object_node st n ref name).0 m

  abbrev pub VariableKeeps : NodeId → Type 0
  VariableKeeps m =
      (st : space.State) (n ref : NodeId) (name : QualifiedName) (value : Bytes)
      → n ≢ m
      → Keeps space st (add_variable_node st n ref name value) m

  init_registered_agent_nodes-Keeps :
      (m : NodeId)
      → ObjectKeeps m
      → VariableKeeps m
      → (st : space.State) (first last : Endpoint) (parent : NodeId) (module_type_name : Bytes)
      → let result = init_registered_agent_nodes server st first last parent module_type_name in
        parent ≢ m
        → result.1.aggregate_entry_node ≢ m
        → result.1.status_entry_node ≢ m
        → Keeps space st result.0 m
  unfolding init_registered_agent_nodes
  init_registered_agent_nodes-Keeps m object variable st first last parent module_type_name h1 h2
        h3 =
      Keeps-trans space _ _ _ m
        (Keeps-trans space _ _ _ m
          (Keeps-trans space _ _ _ m
            (Keeps-trans space _ _ _ m (object _ _ _ _ h1) (object _ _ _ _ h2)) (object _ _ _ _ h2))
          (variable _ _ _ _ _ h3))
        (variable _ _ _ _ _ h3)

  -- Let a call that adds a node below another one keep, of each of the nodes on the way to the
  -- service and of the service itself, its references and the names of the nodes below it, and let
  -- the names lead the walk to the service. If the node of the agent is added there, its reference
  -- listed wherever among the others, and neither it nor the Status node is one of these, then after
  -- the registration the walk of filter_agents finds the agents that it found before, in their order,
  -- and the new agent once among them, whether or not the nodes below the agent's are added.
  pub init_registered_agent_nodes-find_agents :
      (list agents home : Reference)
      → let levels = objects_folder ∷ list.child_id ∷ agents.child_id ∷ [] in
        let parent = home.child_id in
        All ObjectKeeps (parent ∷ levels)
        → All VariableKeeps (parent ∷ levels)
        → (st st' : space.State) (first last : Endpoint) (service_name module_type_name : Bytes)
          (agent : NodeId)
        → let name = qualified_name 0 (connection_url first.ip first.port).url in
          let result = init_registered_agent_nodes server st first last parent module_type_name in
          Route space st service_name list agents home
          → add_object_node st parent has_component name ≡ (st', some agent)
          → Adds space st st' parent agent name
          → All (λ m. parent ≢ m) levels
          → All (λ m. agent ≢ m) (parent ∷ levels)
          → All (λ m. result.1.status_entry_node ≢ m) (parent ∷ levels)
          → Inserts space agent
              (find_agents space st service_name).target_node_nodeid
              (find_agents space result.0 service_name).target_node_nodeid
  init_registered_agent_nodes-find_agents list agents home object variable st st' first last
        service_name module_type_name agent route added adds above apart status_apart =
      record {
        before = below.0.before;
        after = below.0.after;
        old = find_agents-Route space st service_name list agents home route ∙ below.0.old;
        new =
            find_agents-Route space result.0 service_name list agents home (record {
              at_list =
                  Hit-Keeps space st result.0 objects_folder
                    (keeps objects_folder object.1.0 variable.1.0 above.0 apart.1.0
                      status_apart.1.0)
                    route.at_list;
              at_agents =
                  Hit-Keeps space st result.0 list.child_id
                    (keeps list.child_id object.1.1.0 variable.1.1.0 above.1.0 apart.1.1.0
                      status_apart.1.1.0)
                    route.at_agents;
              at_service =
                  Hit-Keeps space st result.0 agents.child_id
                    (keeps agents.child_id object.1.1.1.0 variable.1.1.1.0 above.1.1.0 apart.1.1.1.0
                      status_apart.1.1.1.0)
                    route.at_service;
            })
            ∙ below.0.new;
      }
    where
      result : space.State × EntryNodes
      result = init_registered_agent_nodes server st first last home.child_id module_type_name

      below :
          Inserts space agent
            (agents_below space st home.child_id)
            (agents_below space result.0 home.child_id)
          × (result.1.aggregate_entry_node ≡ agent)
      below =
          init_registered_agent_nodes-agents_below server home.child_id object.0 variable.0 st st'
            first last module_type_name agent added adds apart.0 status_apart.0

      keeps :
          (m : NodeId)
          → ObjectKeeps m
          → VariableKeeps m
          → home.child_id ≢ m
          → agent ≢ m
          → result.1.status_entry_node ≢ m
          → Keeps space st result.0 m
      keeps m o v h1 h2 h3 =
          init_registered_agent_nodes-Keeps m o v st first last home.child_id module_type_name h1
            (λ e. h2 (sym below.1 ∙ e)) h3
