-- ===== src/Address.antt =====
-- The texts that the module builds from the address of an agent: `create_server_address` and the
-- connection URL of src/registry_module_register_agent.c, the URL that
-- `remove_agent_from_registry` searches, and the configuration that `add_agent_server` writes.
pub mod Bounds
use swap_it_registry_module.Prelude.{ℕ, ◌+◌, List, [], ◌∷◌, ◌++◌, foldl, Bytes, codes, length, take}
use swap_it_registry_module.Buffer.{Buffer, calloc, memcpy, strcpy, strcat, terminate}

unfoldable pub create_server_address : Bytes → Bytes → Buffer
create_server_address address port =
    let size = 2 + length address + length port in
    let agent_url = memcpy (calloc (size + 1)) address in
    terminate (strcat (strcat agent_url (codes ":")) port) size

abbrev pub scheme : Bytes
scheme = codes "opc.tcp://"

-- `complete_url` of `remove_agent_from_registry`; `strcat` is given the bytes of `temp`.
unfoldable pub complete_url : Bytes → Buffer
complete_url temp =
    let size = length scheme + 1 + length temp in
    terminate (strcat (memcpy (calloc size) scheme) temp) size

-- `memcpy` of a text into a local array of fixed size, and the terminator behind it
abbrev pub local_text : ℕ → Bytes → Buffer
local_text n text = terminate (memcpy (calloc n) text) (length text)

-- `snprintf(connectionURL, 512, "%s%s%s%s", "opc.tcp://", address, ":", port)`
abbrev pub print_url : Bytes → Bytes → Bytes
print_url address port = take 511 (scheme ++ (address ++ (codes ":" ++ port)))

-- The arrays `port` and `address`, and the URL, of `initRegisteredAgentNodes`. The same lines stand in
-- `readRegisteredAgentNS`, `aggregate_client_connection` and `methodCallback`.
pub record ConnectionUrl : Type 0 where
  pub port : Buffer
  pub address : Buffer
  pub url : Bytes

unfoldable pub connection_url : Bytes → Bytes → ConnectionUrl
connection_url ip port_text =
    let port = local_text 128 port_text in
    let address = local_text 256 ip in
    record { port = port; address = address; url = print_url address.contents port.contents }

-- The parts of the configuration.
unfoldable pub key_address : Bytes
key_address = codes "address:\""

unfoldable pub key_port : Bytes
key_port = codes "port:\""

unfoldable pub key_module_type : Bytes
key_module_type = codes "moduleType:\""

unfoldable pub quotation_mark : Bytes
quotation_mark = codes "\","

unfoldable pub first_part : Bytes
first_part = codes "{ aggregates: \n [{service_name:\""

unfoldable pub last_part : Bytes
last_part =
    codes "mapping: [\n{entryNode: \"Capabilities\" ,synchronization: \"subscription\"}\n"
    ++ (codes
          ",{entryNode: \"State\", synchronization: \"subscription\"}\n ,{entryNode: \"Queue/ServiceQueue\", synchronization: \"subscription\"}\n]}],\n"
        ++ codes " defaults:{subscription_interval: 500,unsecure: \"allowed\",timeout: 2000}}")

-- One `strcat` after the other.
abbrev pub for_each_part : Buffer → List Bytes → Buffer
for_each_part = foldl strcat

-- `curr_size` of `add_agent_server`
abbrev pub curr_size : Bytes → Bytes → Bytes → Bytes → ℕ
curr_size service_name address port module_type =
    1
    + length quotation_mark
    + length first_part
    + length service_name
    + length quotation_mark
    + length address
    + length key_address
    + length quotation_mark
    + length port
    + length key_port
    + length quotation_mark
    + length module_type
    + length key_module_type
    + length last_part

-- The texts that are appended to `first_part`.
abbrev pub appended : Bytes → Bytes → Bytes → Bytes → List Bytes
appended service_name address port module_type =
    service_name ∷ quotation_mark ∷ key_address ∷ address ∷ quotation_mark ∷ key_port ∷ port
    ∷ quotation_mark ∷ key_module_type ∷ module_type ∷ quotation_mark ∷ last_part ∷ []

-- `json_string` of `add_agent_server`
unfoldable pub json_string : Bytes → Bytes → Bytes → Bytes → Buffer
json_string service_name address port module_type =
    for_each_part (strcpy (calloc (curr_size service_name address port module_type)) first_part)
      (appended service_name address port module_type)
