-- ===== src/Filter/Find/Path.antt =====
-- Where the walk of `find_agents_for_capabilities` ends.
use mathlib.Core.List.{foldl-append, append-nil, append_assoc}
use swap_it_registry_module.Prelude.{
  ℕ, zero, suc, ◌+◌, ◌<◌, ◌≡◌, refl, Bool, true, not, ◌&&◌, List, [], ◌∷◌, ◌++◌, map, Bytes, All,
  filter, length, codes, string_equal, get_or, arith, if◌then◌else◌, ◌∙◌, ap, length-append,
  Bool-cases, inl, inr,
}
use swap_it_registry_module.Ua.{
  Reference, NodeId, is_component, qualified_name_equal, for_each_child, objects_folder,
  AddressSpace,
}
use swap_it_registry_module.Ua.Levels.{Misses, Hit}
use swap_it_registry_module.Filter.Find.{
  CapabilityFinder, assignment, available_agents, add_agent_to_filter_list,
  find_agents_for_capabilities, find_agents, capability_finder,
}

module _ (space : AddressSpace) (st : space.State) where
  open space use {references, browse_name}

  abbrev walk : ℕ → CapabilityFinder → Reference → CapabilityFinder
  walk fuel = find_agents_for_capabilities space fuel st

  -- References that miss the name which is looked for leave the handle as it is.
  walk-Misses :
      (fuel : ℕ) (node : CapabilityFinder) (refs : List Reference)
      → All (Misses space st (get_or node.target_node_bn node.ctr [])) refs
      → for_each_child (walk fuel) node refs ≡ node
  unfolding find_agents_for_capabilities
  walk-Misses zero node [] h = refl
  walk-Misses (suc fuel) node [] h = refl
  walk-Misses zero node (r ∷ refs) h = walk-Misses zero node refs h.1
  walk-Misses (suc fuel) node (r ∷ refs) h = ground (arith, walk-Misses (suc fuel) node refs h.1)

  -- A level with one hit: the walk does there what it does at the hit.
  walk-Hit :
      (fuel : ℕ) (node next : CapabilityFinder) {later : Bytes} {refs : List Reference}
      {r : Reference}
      → walk fuel node r ≡ next
      → Hit space st (get_or node.target_node_bn node.ctr []) later refs r
      → get_or next.target_node_bn next.ctr [] ≡ later
      → for_each_child (walk fuel) node refs ≡ next
  walk-Hit fuel node next {refs} {r} e h ends =
      rw (h.split, foldl-append (walk fuel) node h.before (r ∷ h.after))
        (rw (walk-Misses fuel node h.before h.misses_before, e)
          (walk-Misses fuel next h.after (rw ends h.misses_after)))

  -- A node below the object of the service that is listed: a component other than the two that the
  -- code leaves out.
  abbrev pub is_agent : Reference → Bool
  is_agent r =
      is_component r
      && not (qualified_name_equal (browse_name st r.child_id) assignment)
      && not (qualified_name_equal (browse_name st r.child_id) available_agents)

  abbrev pub agents_below : NodeId → List NodeId
  agents_below n = map (λ r. r.child_id) (filter is_agent (references st n))

  abbrev with_agents : CapabilityFinder → List NodeId → CapabilityFinder
  with_agents node xs = record node { target_node_nodeid = xs; number_of_agents = length xs }

  add_agent :
      (node : CapabilityFinder) (xs : List NodeId) (r : Reference)
      → add_agent_to_filter_list space st (with_agents node xs) r
        ≡ with_agents node (if is_agent r then xs ++ r.child_id ∷ [] else xs)
  unfolding add_agent_to_filter_list
  add_agent node [] r = ground arith
  add_agent node (x ∷ xs) r = ground (arith, length-append xs (r.child_id ∷ []))

  add_agents :
      (node : CapabilityFinder) (xs : List NodeId) (refs : List Reference)
      → for_each_child (add_agent_to_filter_list space st) (with_agents node xs) refs
        ≡ with_agents node (xs ++ map (λ r. r.child_id) (filter is_agent refs))
  add_agents node xs [] = rw append-nil
  add_agents node xs (r ∷ refs) = elim (Bool-cases (is_agent r)) [
    | inl e ↦
        rw (add_agent node xs r, e, add_agents node (xs ++ r.child_id ∷ []) refs) (rw append_assoc)
    | inr e ↦ rw (add_agent node xs r, e) (add_agents node xs refs)
  ]

  module _ (service_name : Bytes) where
    abbrev finder : ℕ → CapabilityFinder
    finder c = record (capability_finder space service_name) { ctr = c }

    -- The walk at a hit above the object of the service, and at that object.
    walk-deeper :
        (fuel c : ℕ) (r : Reference)
        → c < 2
        → is_component r ≡ true
        → string_equal (browse_name st r.child_id).name (get_or (finder c).target_node_bn c [])
          ≡ true
        → walk (suc fuel) (finder c) r
          ≡ for_each_child (walk fuel) (finder (c + 1)) (references st r.child_id)
    unfolding find_agents_for_capabilities
    walk-deeper fuel c r h component named = ground arith

    walk-service :
        (fuel : ℕ) (r : Reference)
        → is_component r ≡ true
        → string_equal (browse_name st r.child_id).name service_name ≡ true
        → walk (suc fuel) (finder 2) r ≡ with_agents (finder 2) (agents_below r.child_id)
    unfolding find_agents_for_capabilities
    walk-service fuel r component named =
        ground (arith, add_agents (finder 2) [] (references st r.child_id))

    -- Let the names `AgentList`, `PFDLServiceAgents` and the service's name lead to one node on each
    -- level, and let no later node on these levels have the service's name. Then the walk finds just
    -- the agents below the object of the service, in order.
    pub find_agents_lem :
        (list agents service : Reference)
        → Hit space st (codes "AgentList") service_name (references st objects_folder) list
        → Hit space st (codes "PFDLServiceAgents") service_name (references st list.child_id) agents
        → Hit space st service_name service_name (references st agents.child_id) service
        → (find_agents space st service_name).target_node_nodeid ≡ agents_below service.child_id
    unfolding find_agents
    find_agents_lem list agents service h1 h2 h3 = ap (λ f. f.target_node_nodeid) at_objects
      where
        found : CapabilityFinder
        found = with_agents (finder 2) (agents_below service.child_id)

        at_services : for_each_child (walk 1) (finder 2) (references st agents.child_id) ≡ found
        at_services =
            walk-Hit 1 (finder 2) found (walk-service 0 service h3.component h3.named) h3 refl

        at_agents : for_each_child (walk 2) (finder 1) (references st list.child_id) ≡ found
        at_agents =
            walk-Hit 2 (finder 1) found
              (walk-deeper 1 1 agents (omega arith) h2.component h2.named ∙ at_services) h2 refl

        at_objects : for_each_child (walk 3) (finder 0) (references st objects_folder) ≡ found
        at_objects =
            walk-Hit 3 (finder 0) found
              (walk-deeper 2 0 list (omega arith) h1.component h1.named ∙ at_agents) h1 refl

    -- Where no node on the last level has the service's name, no agent is found.
    pub find_agents-Misses :
        (list agents : Reference)
        → Hit space st (codes "AgentList") service_name (references st objects_folder) list
        → Hit space st (codes "PFDLServiceAgents") service_name (references st list.child_id) agents
        → All (Misses space st service_name) (references st agents.child_id)
        → (find_agents space st service_name).target_node_nodeid ≡ []
    unfolding find_agents
    find_agents-Misses list agents h1 h2 h3 = ap (λ f. f.target_node_nodeid) at_objects
      where
        at_services : for_each_child (walk 1) (finder 2) (references st agents.child_id) ≡ finder 2
        at_services = walk-Misses 1 (finder 2) (references st agents.child_id) h3

        at_agents : for_each_child (walk 2) (finder 1) (references st list.child_id) ≡ finder 2
        at_agents =
            walk-Hit 2 (finder 1) (finder 2)
              (walk-deeper 1 1 agents (omega arith) h2.component h2.named ∙ at_services) h2 refl

        at_objects : for_each_child (walk 3) (finder 0) (references st objects_folder) ≡ finder 2
        at_objects =
            walk-Hit 3 (finder 0) (finder 2)
              (walk-deeper 2 0 list (omega arith) h1.component h1.named ∙ at_agents) h1 refl

module _ (space : AddressSpace) (st : space.State) where
  open space use {references}

  -- The way of the walk from the Objects folder to a service, one hit on each level.
  pub record Route (service_name : Bytes) (list agents service : Reference) : Type 0 where
    pub at_list : Hit space st (codes "AgentList") service_name (references st objects_folder) list
    pub at_agents :
        Hit space st (codes "PFDLServiceAgents") service_name (references st list.child_id) agents
    pub at_service : Hit space st service_name service_name (references st agents.child_id) service

  pub find_agents-Route :
      (service_name : Bytes) (list agents service : Reference)
      → Route service_name list agents service
      → (find_agents space st service_name).target_node_nodeid
        ≡ agents_below space st service.child_id
  find_agents-Route service_name list agents service route =
      find_agents_lem space st service_name list agents service route.at_list route.at_agents
        route.at_service
