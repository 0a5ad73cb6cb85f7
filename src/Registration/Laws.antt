-- ===== src/Registration/Laws.antt =====
-- What a registration leaves: where the parser takes the configuration apart as it is meant to, and where
-- it refuses it.
use swap_it_registry_module.Prelude.{
  ℕ, ◌≡◌, ap, ap₂, ◌∙◌, starts_with, Option, none, some, ◌++◌, Bytes, codes,
}
use swap_it_registry_module.Address.{json_string, connection_url}
use swap_it_registry_module.Address.Bounds.{create_server_address_lem}
use swap_it_registry_module.Agents.{AgentList, append_agent}
use swap_it_registry_module.Values.{DataTypes}
use swap_it_registry_module.Register.{Endpoint, EntryNodes, init_registered_agent_nodes}
use swap_it_registry_module.NodeIterator.{Passed, Agent}
use swap_it_registry_module.ReadAgent.{connect_registered_agent}
use swap_it_registry_module.ReadAgent.Laws.{connect_registered_agent-unreachable}
use swap_it_registry_module.Config.{Cj5, ServerConfig, Outcome, synchronization_of}
use swap_it_registry_module.Config.Service.{ServiceNode, no_service, provide_service}
use swap_it_registry_module.Config.Tokens.{Describes}
use swap_it_registry_module.Config.Laws.{loaded, load_document-Describes}
use swap_it_registry_module.Registration.{
  RegistryServer, adder, no_config, start, Loading, Connection, Registered, connected, go_on,
  append_result, load_parsed, load_register_agent_config, add_agent_to_registry,
}
use swap_it_registry_module.Registration.Written.{document_of, config_of, registered_entries}

module _ (c : Cj5) (d : DataTypes) (p : Passed) (registry : RegistryServer d p)
    (connect : Bytes → Option (Agent d p)) (depth fuel : ℕ) (st : registry.nodes.space.State)
    (service_name address port module_type : Bytes) (asc : AgentList (ServerConfig c.Number)) where
  abbrev pub json : Bytes
  json = (json_string service_name address port module_type).contents

  abbrev pub at : Endpoint
  at = record { ip = address; port = port }

  -- The server and the service's object, then the server and the ids of the agent's nodes.
  abbrev pub provided : registry.nodes.space.State × ServiceNode
  provided = provide_service (adder registry) registry.write_text depth st no_service service_name

  abbrev pub added : registry.nodes.space.State × EntryNodes
  added =
      init_registered_agent_nodes (adder registry) provided.0 at at
        provided.1.service_object_node_id module_type

  -- The connection that is made then.
  abbrev pub connection_of : Option (Connection c d p registry connect depth fuel)
  connection_of =
      connect_registered_agent d p registry.nodes depth fuel connect at added.1.nodes_entry_node
        (registered_entries module_type) added.0

  -- The result of the method, for the outcome of the loading.
  abbrev result :
      Outcome (
        Loading c d p registry connect depth fuel
        × Option (Connection c d p registry connect depth fuel))
      → Bytes
      → Option (Registered c d p registry connect depth fuel)
  result o url = append_result c d p registry connect depth fuel o asc url

  loads :
      (r : c.Result) (interval timeout : c.Number)
      (o : Option (Connection c d p registry connect depth fuel))
      → c.parse json ≡ some r
      → Describes c r (document_of interval timeout service_name address port module_type)
      → connection_of ≡ o
      → add_agent_to_registry c d p registry connect depth fuel st service_name address port
          module_type asc
        ≡ result
            (connected c d p registry connect depth fuel
              (loaded c r
                (adder registry)
                registry.write_text
                depth
                (document_of interval timeout service_name address port module_type)
                (start c d p registry connect depth fuel st))
              added.1
              o)
            (address ++ (codes ":" ++ port))
  unfolding add_agent_to_registry load_parsed load_register_agent_config synchronization_of
      starts_with
  loads r interval timeout o e described e' =
      let doc = document_of interval timeout service_name address port module_type in
      let s = start c d p registry connect depth fuel st in
      ap₂ result
        (ap (λ parsed. load_parsed c d p registry connect depth fuel parsed s) e
          ∙ ap (go_on c d p registry connect depth fuel) (
              load_document-Describes c r (adder registry) registry.write_text depth doc s
                described)
          ∙ ap
              (connected c d p registry connect depth fuel
                (loaded c r (adder registry) registry.write_text depth doc s) added.1)
              e')
        (create_server_address_lem address port).0

  -- Let the parser find in the configuration what was written into it, and let the connection come to its
  -- end. Then the agent is appended with its address and with a configuration of one aggregate, which has
  -- its texts, three entry nodes below its module that are subscribed to, and the ids of the nodes that
  -- are added below the object of the service. That object is found or added first. Unsecure connections
  -- are not allowed, though the text that is written for them is `allowed`.
  pub add_agent_to_registry_lem :
      (r : c.Result) (interval timeout : c.Number)
      (connection : Connection c d p registry connect depth fuel)
      → c.parse json ≡ some r
      → Describes c r (document_of interval timeout service_name address port module_type)
      → connection_of ≡ some connection
      → add_agent_to_registry c d p registry connect depth fuel st service_name address port
          module_type asc
        ≡ some (
          append_agent asc
              (config_of interval timeout service_name address port module_type added.1)
              (address ++ (codes ":" ++ port)),
          connection.0.copied.server,
          some connection,
        )
  unfolding append_result connected synchronization_of starts_with
  add_agent_to_registry_lem r interval timeout connection e described e' =
      loads r interval timeout (some connection) e described e'

  -- If the parser finds in the configuration what was written into it, but the registry cannot reach the
  -- agent, then the registration runs into a null pointer.
  pub add_agent_to_registry-unreachable :
      (r : c.Result) (interval timeout : c.Number)
      → c.parse json ≡ some r
      → Describes c r (document_of interval timeout service_name address port module_type)
      → connect (connection_url address port).url ≡ none
      → add_agent_to_registry c d p registry connect depth fuel st service_name address port
          module_type asc
        ≡ none
  unfolding append_result connected
  add_agent_to_registry-unreachable r interval timeout e described h =
      loads r interval timeout none e described
        (connect_registered_agent-unreachable d p registry.nodes depth fuel connect at
          added.1.nodes_entry_node (registered_entries module_type) added.0 h).1

  -- If the parser refuses the configuration, the agent is appended all the same, with a configuration
  -- of zeros, and no node is added.
  pub add_agent_to_registry-unparsed :
      c.parse json ≡ none
      → add_agent_to_registry c d p registry connect depth fuel st service_name address port
          module_type asc
        ≡ some (append_agent asc no_config (address ++ (codes ":" ++ port)), st, none)
  unfolding add_agent_to_registry load_parsed load_register_agent_config
  add_agent_to_registry-unparsed e =
      ap₂ result
        (ap
          (λ parsed.
            load_parsed c d p registry connect depth fuel parsed
              (start c d p registry connect depth fuel st))
          e)
        (create_server_address_lem address port).0
