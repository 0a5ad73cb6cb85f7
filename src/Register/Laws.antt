-- ===== src/Register/Laws.antt =====
-- A registration adds one agent to those that `filter_agents` finds below the service.
use mathlib.Core.List.{map-append}
use swap_it_registry_module.Prelude.{
  ◌≡◌, ◌≢◌, refl, sym, ap, ◌∙◌, true, false, Option, some, List, [], ◌∷◌, ◌++◌, map, subst, filter,
  All-split, filter-append, All, Bytes, codes,
}
use swap_it_registry_module.Ua.{
  NodeId, Reference, QualifiedName, qualified_name, qualified_name_equal, has_component,
  has_property, AddressSpace, node_id_equal, identifier_equal,
}
use swap_it_registry_module.Address.{connection_url}
use swap_it_registry_module.Filter.Find.Path.{is_agent, agents_below}
use swap_it_registry_module.Register.{NodeAdder, Endpoint, id_or_null, init_registered_agent_nodes}

abbrev pub component_to : NodeId → Reference
component_to id = record { child_id = id; is_inverse = false; reference_type_id = has_component }

module _ (space : AddressSpace) where
  open space use {State, references, browse_name}

  -- The names of the nodes below are the same in both states.
  abbrev pub SameNames : State → State → List Reference → Type 0
  SameNames st st' = All (λ r. browse_name st' r.child_id ≡ browse_name st r.child_id)

  -- A call that changes neither the references of `n` nor the names of the nodes below it, as the
  -- addition of a node elsewhere does.
  pub record Keeps (st st' : State) (n : NodeId) : Type 0 where
    pub same : references st' n ≡ references st n
    pub names : SameNames st st' (references st n)

  -- The addition of a component of `n`, whose reference the server lists somewhere among the others.
  pub record Adds (st st' : State) (n id : NodeId) (name : QualifiedName) : Type 0 where
    pub before : List Reference
    pub after : List Reference
    pub split : references st n ≡ before ++ after
    pub listed : references st' n ≡ before ++ component_to id ∷ after
    pub named : browse_name st' id ≡ name
    pub names : SameNames st st' (references st n)

  filter-SameNames :
      (st st' : State) (refs : List Reference)
      → SameNames st st' refs
      → filter (is_agent space st') refs ≡ filter (is_agent space st) refs
  filter-SameNames st st' [] h = refl
  filter-SameNames st st' (r ∷ refs) h = rw (h.0, filter-SameNames st st' refs h.1) refl

  agents-Keeps :
      (st st' : State) (n : NodeId)
      → Keeps st st' n
      → agents_below space st' n ≡ agents_below space st n
  agents-Keeps st st' n k = rw (k.same, filter-SameNames st st' (references st n) k.names) refl

  is_agent-Adds :
      (st st' : State) (n id : NodeId) (name : Bytes)
      → Adds st st' n id (qualified_name 0 name)
      → is_agent space st' (component_to id) ≡ true
  unfolding qualified_name_equal node_id_equal identifier_equal
  is_agent-Adds st st' n id name a = rw a.named refl

  -- The nodes of the agents among some references.
  abbrev pub agents_in : State → List Reference → List NodeId
  agents_in st refs = map (λ r. r.child_id) (filter (is_agent space st) refs)

  agents_in-append :
      (st : State) (xs ys : List Reference)
      → agents_in st (xs ++ ys) ≡ agents_in st xs ++ agents_in st ys
  agents_in-append st xs ys =
      rw (filter-append (is_agent space st) xs ys) (
        map-append (λ r. r.child_id) (filter (is_agent space st) xs)
          (filter (is_agent space st) ys))

  -- A node has come in among the agents, and these are the same otherwise.
  pub record Inserts (id : NodeId) (all more : List NodeId) : Type 0 where
    pub before : List NodeId
    pub after : List NodeId
    pub old : all ≡ before ++ after
    pub new : more ≡ before ++ id ∷ after

  agents-Adds :
      (st st' : State) (n id : NodeId) (name : Bytes)
      → Adds st st' n id (qualified_name 0 name)
      → Inserts id (agents_below space st n) (agents_below space st' n)
  agents-Adds st st' n id name a =
      let names = All-split _ a.before a.after (subst (SameNames st st') a.split a.names) in
      record {
        before = agents_in st a.before;
        after = agents_in st a.after;
        old = ap (agents_in st) a.split ∙ agents_in-append st a.before a.after;
        new =
            ap (agents_in st') a.listed
            ∙ agents_in-append st' a.before (component_to id ∷ a.after)
            ∙ rw
                (
                  filter-SameNames st st' a.before names.0,
                  is_agent-Adds st st' n id name a,
                  filter-SameNames st st' a.after names.1,
                )
                refl;
      }

module _ (server : NodeAdder) where
  open server use {space, add_object_node, add_variable_node}

  -- The registration adds just the node of the agent to the agents below the service.
  pub init_registered_agent_nodes-agents_below :
      (parent : NodeId)
      → ((st : space.State) (n ref : NodeId) (name : QualifiedName)
          → n ≢ parent
          → Keeps space st (add_object_node st n ref name).0 parent)
      → ((st : space.State) (n ref : NodeId) (name : QualifiedName) (value : Bytes)
          → n ≢ parent
          → Keeps space st (add_variable_node st n ref name value) parent)
      → (st st' : space.State) (first last : Endpoint) (module_type_name : Bytes) (agent : NodeId)
      → let name = qualified_name 0 (connection_url first.ip first.port).url in
        let result = init_registered_agent_nodes server st first last parent module_type_name in
        add_object_node st parent has_component name ≡ (st', some agent)
        → Adds space st st' parent agent name
        → agent ≢ parent
        → result.1.status_entry_node ≢ parent
        → Inserts space agent (agents_below space st parent) (agents_below space result.0 parent)
          × (result.1.aggregate_entry_node ≡ agent)
  unfolding init_registered_agent_nodes
  init_registered_agent_nodes-agents_below parent object variable st st' first last module_type_name
        agent added adds other other_status =
      (
        record {
          before = inserted.before;
          after = inserted.after;
          old = inserted.old;
          new = rest ∙ ap (λ e. agents_below space e.0 parent) added ∙ inserted.new;
        },
        found,
      )
    where
      url : Bytes
      url = (connection_url first.ip first.port).url

      inserted : Inserts space agent (agents_below space st parent) (agents_below space st' parent)
      inserted = agents-Adds space st st' parent agent url adds

      entry : space.State × Option NodeId
      entry = add_object_node st parent has_component (qualified_name 0 url)

      entry_id : NodeId
      entry_id = id_or_null entry.1

      found : entry_id ≡ agent
      found = ap (λ e. id_or_null e.1) added

      elsewhere : entry_id ≢ parent
      elsewhere e = other (sym found ∙ e)

      second : space.State × Option NodeId
      second = add_object_node entry.0 entry_id has_component (qualified_name 0 (codes "Status"))

      status_id : NodeId
      status_id = id_or_null second.1

      s2 : space.State
      s2 = second.0

      s3 : space.State
      s3 = (add_object_node s2 entry_id has_component (qualified_name 0 module_type_name)).0

      s4 : space.State
      s4 = add_variable_node s3 status_id has_property (qualified_name 0 (codes "Address")) last.ip

      s5 : space.State
      s5 = add_variable_node s4 status_id has_property (qualified_name 0 (codes "Port")) last.port

      rest : agents_below space s5 parent ≡ agents_below space entry.0 parent
      rest =
          agents-Keeps space s4 s5 parent (
            variable s4 status_id has_property (qualified_name 0 (codes "Port")) last.port
              other_status)
          ∙ agents-Keeps space s3 s4 parent (
              variable s3 status_id has_property (qualified_name 0 (codes "Address")) last.ip
                other_status)
          ∙ agents-Keeps space s2 s3 parent
              (object s2 entry_id has_component (qualified_name 0 module_type_name) elsewhere)
          ∙ agents-Keeps space entry.0 s2 parent
              (object entry.0 entry_id has_component (qualified_name 0 (codes "Status")) elsewhere)
