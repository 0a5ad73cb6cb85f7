-- ===== src/Aggregation/Laws.antt =====
-- What the start of the aggregates of one configuration leaves.
use mathlib.Core.List.{append-nil}
use mathlib.Core.Option
use swap_it_registry_module.Prelude.{
  ℕ, ◌≡◌, refl, sym, ap, ap₂, subst, ◌∙◌, Option, none, some, List, [], ◌∷◌, map, All, Bytes, codes,
  Gives, bind-Gives,
}
use swap_it_registry_module.Ua.{NodeId, QualifiedName, qualified_name, has_property, objects_folder}
use swap_it_registry_module.Address.{connection_url}
use swap_it_registry_module.Values.{DataTypes}
use swap_it_registry_module.Register.{id_or_null}
use swap_it_registry_module.NodeIterator.{Passed, Agent}
use swap_it_registry_module.NodeIterator.Reached.{Attached, Readable, Keeps, Adds, Accepts}
use swap_it_registry_module.NodeIterator.Queues.{Kept, Kept-trans}
use swap_it_registry_module.Config.{Aggregate}
use swap_it_registry_module.ReadAgent.{
  read_registered_agent_ns, read_from, aggregate_client_connection,
}
use swap_it_registry_module.ReadAgent.Items.{create_items_lem}
use swap_it_registry_module.ReadAgent.Laws.{
  Entry, mapping_entry, queued_entries, read_mappings-Gives,
}
use swap_it_registry_module.Registration.{RegistryServer, adder}
use swap_it_registry_module.Aggregation.{
  organizes, add_aggregate_nodes, first_or, Started, nodes_entry_of, start_thread, init_aggregate,
  init_aggregates, init_aggregation_server_ns,
}

-- A server that adds the nodes of an aggregate below those that it has, and has the folder of objects.
pub record AcceptsNames {d : DataTypes} {p : Passed} (registry : RegistryServer d p)
    (Has : registry.nodes.space.State → NodeId → Type 0)
    (attached : registry.nodes.space.State → NodeId → Attached) : Type 0 where
  pub folder : (st : registry.nodes.space.State) → Has st objects_folder
  pub add_object :
      (st : registry.nodes.space.State) (parent ref : NodeId) (name : QualifiedName)
      → Has st parent
      → Adds Has attached st (registry.add_object st parent ref name)
  pub add_variable :
      (st : registry.nodes.space.State) (parent ref : NodeId) (name : QualifiedName) (value : Bytes)
      → Keeps Has attached st (registry.add_variable st parent ref name value)

module _ (d : DataTypes) (p : Passed) (registry : RegistryServer d p)
    (connect : Bytes → Option (Agent d p)) (depth fuel : ℕ) (accepts : Accepts d p registry.nodes)
    (names : AcceptsNames registry accepts.Has accepts.attached) where
  open registry.nodes.space use {State}
  open accepts use {Has, attached}

  -- The id of an added node, with what holds of it.
  added-Has :
      (st : State) (added : State × Option NodeId)
      → Adds Has attached st added
      → Has added.0 (id_or_null added.1) × Kept accepts st added.0
  added-Has st (st', o) (id, e, h) = (subst (λ x. Has st' (id_or_null x)) (sym e) h.0, h.1)

  add_aggregate_nodes-Has :
      (st : State) (a : Aggregate)
      → let added = add_aggregate_nodes (adder registry) st a in
        Has added.0 added.1.nodes_entry_node × Kept accepts st added.0
  unfolding add_aggregate_nodes
  add_aggregate_nodes-Has st a =
      let k1 = added-Has st _ (names.add_object st objects_folder organizes _ (names.folder st)) in
      let k2 =
        added-Has _ _
          (names.add_object _ _ has_property (qualified_name 0 (codes "Status")) k1.0) in
      let k3 =
        added-Has _ _
          (names.add_object _ _ has_property (qualified_name 0 (codes "Nodes")) (k2.1 _ k1.0).0) in
      let v1 = names.add_variable _ _ has_property (qualified_name 0 (codes "Address")) a.ip in
      let v2 = names.add_variable _ _ has_property (qualified_name 0 (codes "Port")) a.port in
      (
        (v2 _ (v1 _ k3.0).0).0,
        Kept-trans accepts st _ _ k1.1 (
            Kept-trans accepts _ _ _ k2.1
              (Kept-trans accepts _ _ _ k3.1 (Kept-trans accepts _ _ _ v1 v2))),
      )

  -- The agent of an aggregate cannot be reached, or it can, and the mapping entries lead to nodes of it.
  pub data Situation (a : Aggregate) : Type 0 where
    unreachable : connect (connection_url a.ip a.port).url ≡ none → Situation a
    reachable :
        (agent : Agent d p) (entries : List (Entry d p agent depth fuel))
        → Readable d p agent
        → map (mapping_entry d p agent depth fuel) entries ≡ a.mapping_entrys
        → connect (connection_url a.ip a.port).url ≡ some agent
        → Situation a

  -- The nodes that are to be monitored, if a thread is to be started at all.
  abbrev pub expected : (a : Aggregate) → Situation a → Option (List NodeId)
  expected a (unreachable e) = none
  expected a (reachable agent entries readable es e) =
      some (queued_entries d p agent depth fuel entries)

  abbrev pub all_expected :
      (configs : List Aggregate) → All Situation configs → List (Option (List NodeId))
  all_expected [] h = []
  all_expected (a ∷ configs) h = expected a h.0 ∷ all_expected configs h.1

  -- The nodes that the thread of a started aggregate monitors.
  abbrev pub monitored : Started d p registry connect depth fuel → Option (List NodeId)
  monitored s = Option.map (λ t. t.1.items) s.thread

  abbrev Rounds :
      State → Option (List NodeId) → State × Started d p registry connect depth fuel → Type 0
  Rounds st items result =
      Kept accepts st result.0
      × Has result.0 (nodes_entry_of result.1.aggregate)
      × (monitored result.1 ≡ items)

  abbrev HasFirst : State → Option NodeId → Type 0
  HasFirst st none = Unit
  HasFirst st (some n) = Has st n

  first_or-Has :
      (first : Option NodeId) (own : NodeId) (st st' : State)
      → HasFirst st first
      → Kept accepts st st'
      → Has st' own
      → Has st' (first_or first own)
  first_or-Has none own st st' h k has = has
  first_or-Has (some first) own st st' h k has = (k first h).0

  init_aggregate-Gives :
      (first : Option NodeId) (st : State) (a : Aggregate) (situation : Situation a)
      → HasFirst st first
      → Gives
          (Rounds st (expected a situation))
          (init_aggregate d p registry connect depth fuel first st a)
  unfolding init_aggregate read_registered_agent_ns read_from start_thread
      aggregate_client_connection
  init_aggregate-Gives first st a (unreachable e) h =
      let k = add_aggregate_nodes-Has st a in rw e (_, refl, (k.1, k.0, refl))
  init_aggregate-Gives first st a (reachable agent entries readable es e) h =
      let added = add_aggregate_nodes (adder registry) st a in
      let k = add_aggregate_nodes-Has st a in
      let parent = first_or first added.1.nodes_entry_node in
      let (after, e2, (q, calls)) =
        read_mappings-Gives d p agent registry.nodes readable accepts depth fuel parent
          (record { server = added.0; subscription_nodes = [] }) entries
          (first_or-Has first _ st added.0 h k.1 k.0) in
      rw (e, ← es, e2)
        (
          _,
          refl,
          (
            Kept-trans accepts st added.0 after.server k.1 q.keeps,
            (q.keeps _ k.0).0,
            ap some (
                ap (λ m. m.items) (create_items_lem after.subscription_nodes)
                ∙ ap (map λ n. n.node_id) (q.queue ∙ append-nil q.new)
                ∙ q.remote),
          ),
        )

  init_aggregates-Gives :
      (first : Option NodeId) (st : State) (configs : List Aggregate)
      (situations : All Situation configs)
      → HasFirst st first
      → Gives
          (λ result.
            Kept accepts st result.0 × (map monitored result.1 ≡ all_expected configs situations))
          (init_aggregates d p registry connect depth fuel first st configs)
  unfolding init_aggregates
  init_aggregates-Gives first st [] situations h = (_, refl, (λ n has. (has, refl), refl))
  init_aggregates-Gives first st (a ∷ configs) situations h =
      bind-Gives (init_aggregate-Gives first st a situations.0 h) λ started k.
        let (rest, e, l) =
          init_aggregates-Gives (some (first_or first (nodes_entry_of started.1.aggregate)))
            started.0 configs situations.1
            (first_or-Has first (nodes_entry_of started.1.aggregate) st started.0 h k.0 k.1) in
        rw e (_, refl, (Kept-trans accepts st started.0 rest.0 k.0 l.0, ap₂ ◌∷◌ k.2 l.1))

  -- Let the server accept what is added below a node that it has, and let each aggregate of the
  -- configuration either have an agent that cannot be reached, or a readable one that is reached and on
  -- which its mapping entries lead to nodes with no more than `fuel` objects below one another. Then the
  -- start goes through all aggregates and keeps the server's nodes. It starts a thread for just those
  -- aggregates whose agent is reached, and each of these monitors just the variables below the agent's
  -- entry nodes whose mode is a subscription, whatever happened with the aggregates before.
  pub init_aggregation_server_ns-Gives :
      (st : State) (configs : List Aggregate) (situations : All Situation configs)
      → Gives
          (λ result.
            Kept accepts st result.0 × (map monitored result.1 ≡ all_expected configs situations))
          (init_aggregation_server_ns d p registry connect depth fuel st configs)
  unfolding init_aggregation_server_ns
  init_aggregation_server_ns-Gives st configs situations =
      init_aggregates-Gives none st configs situations _
