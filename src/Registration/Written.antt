-- ===== src/Registration/Written.antt =====
-- What the configuration that `add_agent_server` writes says, and what is made of it.
use swap_it_registry_module.Prelude.{false, some, List, [], ◌∷◌, Bytes, codes}
use swap_it_registry_module.Register.{EntryNodes}
use swap_it_registry_module.NodePath.{node_path}
use swap_it_registry_module.Config.{MappingEntry, ServerConfig, subscription}
use swap_it_registry_module.Config.Tokens.{Document}

-- What the configuration that `add_agent_server` writes says.
abbrev pub document_of :
    {Number : Type 0} → Number → Number → Bytes → Bytes → Bytes → Bytes → Document Number
document_of interval timeout service_name address port module_type = record {
  service_name = service_name;
  address = address;
  port = port;
  module_type = module_type;
  mapping =
      (codes "Capabilities", codes "subscription")
      ∷ (codes "State", codes "subscription")
      ∷ (codes "Queue/ServiceQueue", codes "subscription")
      ∷ [];
  subscription_interval = interval;
  unsecure = codes "allowed";
  timeout = timeout;
}

-- An entry node below the module that is kept up to date by a subscription.
abbrev pub subscribed : Bytes → Bytes → MappingEntry
subscribed module_type name = record {
  node_path = some (node_path module_type name).contents;
  synchronization = some subscription;
}

-- The configuration of an agent that is registered with these texts.
abbrev pub config_of :
    {Number : Type 0}
    → Number
    → Number
    → Bytes
    → Bytes
    → Bytes
    → Bytes
    → EntryNodes
    → ServerConfig Number
config_of interval timeout service_name address port module_type entry_nodes = record {
  aggregate_config =
      record {
        name = service_name;
        ip = address;
        port = port;
        mapping_entrys =
            subscribed module_type (codes "Capabilities")
            ∷ subscribed module_type (codes "State")
            ∷ subscribed module_type (codes "Queue/ServiceQueue")
            ∷ [];
        entry_nodes = some entry_nodes;
      }
      ∷ [];
  subscription_interval = some interval;
  unsecure_allowed = false;
  aggregate_timeout = some timeout;
}

-- The three mapping entries of a registration.
abbrev pub registered_entries : Bytes → List MappingEntry
registered_entries module_type =
    subscribed module_type (codes "Capabilities")
    ∷ subscribed module_type (codes "State")
    ∷ subscribed module_type (codes "Queue/ServiceQueue")
    ∷ []
