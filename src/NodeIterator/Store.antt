-- ===== src/NodeIterator/Store.antt =====
-- The values of the registry's server, as the synchronisation writes them and a client reads them.
use swap_it_registry_module.Ua.{NodeId}
use swap_it_registry_module.Values.{DataTypes, Content}
use swap_it_registry_module.Sync.{ServerValues}
use swap_it_registry_module.NodeIterator.{Passed, NodeServer}

module _ {d : DataTypes} {p : Passed} (server : NodeServer d p)
    (read_value : server.space.State → NodeId → Content d p.Plain) where
  abbrev pub store : ServerValues (Content d p.Plain)
  store = record {
    State = server.space.State;
    write_value = server.write_value;
    read_value = read_value;
  }
