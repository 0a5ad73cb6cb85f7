-- ===== src/Examples/Address.antt =====
-- The texts for an agent at `localhost:4080`.
use swap_it_registry_module.Prelude.{
  ◌+◌, ◌<◌, ◌≡◌, ◌↔◌, true, false, ◌++◌, Bytes, codes, length, arith,
}
use swap_it_registry_module.Buffer.{Buffer}
use swap_it_registry_module.Address.{
  create_server_address, scheme, complete_url, connection_url, json_string, key_address, key_port,
  key_module_type, quotation_mark, first_part, last_part,
}
use swap_it_registry_module.Address.Bounds.{
  complete_url_lem, complete_url-create_server_address, connection_url_bounds, json_string_lem,
}

abbrev host : Bytes
host = codes "localhost"

abbrev port : Bytes
port = codes "4080"

complete_url_lem_example :
    ((complete_url (codes "localhost:4080")).contents ≡ scheme ++ codes "localhost:4080")
    × ((complete_url (codes "localhost:4080")).overflowed ≡ true)
complete_url_lem_example = complete_url_lem (codes "localhost:4080")

connection_url_bounds_example :
    (((connection_url host port).address.overflowed ≡ false)
      × ((connection_url host port).port.overflowed ≡ false))
    ↔ ((length host < 256) × (length port < 128))
connection_url_bounds_example = connection_url_bounds host port

abbrev json : Buffer
json = json_string (codes "Drill") host port (codes "DrillModule")

json_string_lem_example :
    (json.contents
      ≡ first_part
        ++ codes "Drill"
        ++ quotation_mark
        ++ key_address
        ++ host
        ++ quotation_mark
        ++ key_port
        ++ port
        ++ quotation_mark
        ++ key_module_type
        ++ codes "DrillModule"
        ++ quotation_mark
        ++ last_part)
    × (json.overflowed ≡ false)
    × (length json.contents + 1 ≡ json.capacity)
json_string_lem_example = json_string_lem (codes "Drill") host port (codes "DrillModule")

complete_url-create_server_address_example :
    (complete_url (create_server_address (codes "localhost") (codes "4840")).contents).contents
    ≡ (connection_url (codes "localhost") (codes "4840")).url
complete_url-create_server_address_example =
    complete_url-create_server_address (codes "localhost") (codes "4840") (omega arith)
      (omega arith)
