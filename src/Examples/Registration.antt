-- ===== src/Examples/Registration.antt =====
-- The witnesses of Registration: a parser that knows one configuration, and the server of Register.
use swap_it_registry_module.Prelude.{
  ℕ, zero, suc, ◌+◌, ◌-◌, ◌≡◌, All, Distinct, refl, arith, Option, none, some, ◌>>=◌, List, [], ◌∷◌,
  ◌++◌, map, Bytes, codes, length, get_elem?, string_equal, starts_with, if◌then◌else◌,
}
use swap_it_registry_module.Ua.{node_id_numeric}
use swap_it_registry_module.Address.{json_string, first_part, quotation_mark}
use swap_it_registry_module.Agents.{AgentList, append_agent}
use swap_it_registry_module.Config.{Cj5, Token, TokenType, object, array, string, ServerConfig}
use swap_it_registry_module.Config.Load.{prints}
use swap_it_registry_module.Config.Tokens.{Describes}
use swap_it_registry_module.NodePath.{node_path}
use swap_it_registry_module.Register.{EntryNodes, init_registered_agent_nodes}
use swap_it_registry_module.NodeIterator.{Agent}
use swap_it_registry_module.NodeIterator.Reached.{variables_below, calls_below}
use swap_it_registry_module.NodeIterator.Queues.{Kept}
use swap_it_registry_module.NodeIterator.Calls.{Calls}
use swap_it_registry_module.Config.Service.{provide_service}
use swap_it_registry_module.Registration.{
  RegistryServer, Connection, Registered, no_config, add_agent_to_registry,
}
use swap_it_registry_module.Registration.Written.{document_of, config_of}
use swap_it_registry_module.Registration.Laws.{
  added, add_agent_to_registry-unreachable, add_agent_to_registry-unparsed,
}
use swap_it_registry_module.Registration.Monitored.{add_agent_to_registry-monitors}
use swap_it_registry_module.Examples.Mill.{
  types, passed, mill, mill-Readable, registry, registry_accepts, Has, Numbered, numbered, add,
  capabilities_entry, state_entry, queue_entry,
}

-- A token, its text, and the size that it has, for a list of its children.
abbrev pub Piece : Type 0
Piece = Token × Bytes

abbrev text_token : Bytes → Piece
text_token t = (record { type = string; start = 0; last = length t - 1; size = length t }, t)

abbrev list_token : TokenType → ℕ → Piece
list_token type size = (record { type = type; start = 0; last = 100; size = size }, [])

abbrev member : Bytes → Bytes → List Piece
member key value = text_token key ∷ text_token value ∷ []

abbrev entry : Bytes → List Piece
entry name =
    list_token object 2
    ∷ (member (codes "entryNode") name ++ member (codes "synchronization") (codes "subscription"))

abbrev pub drill_tokens : List Piece
drill_tokens =
    list_token object 2
    ∷ text_token (codes "aggregates")
    ∷ list_token array 1
    ∷ list_token object 5
    ∷ (member (codes "service_name") (codes "Drill")
        ++ (member (codes "address") (codes "a")
            ++ (member (codes "port") (codes "1")
                ++ (member (codes "moduleType") (codes "Mill")
                    ++ (text_token (codes "mapping")
                        ∷ list_token array 3
                        ∷ (entry (codes "Capabilities")
                            ++ (entry (codes "State")
                                ++ (entry (codes "Queue/ServiceQueue")
                                    ++ (text_token (codes "defaults")
                                        ∷ list_token object 3
                                        ∷ (member (codes "subscription_interval") (codes "500")
                                            ++ (member (codes "unsecure") (codes "allowed")
                                                ++ member (codes "timeout")
                                                    (codes "2000"))))))))))))

-- The value behind the first key of this name that follows a place, or else the place.
abbrev find_from : ℕ → ℕ → List Piece → Bytes → ℕ
find_from place i [] key = place
find_from place i (p ∷ pieces) key =
    let later = find_from place (i + 1) pieces key in if string_equal p.1 key then i + 1 else later

abbrev drop : ℕ → List Piece → List Piece
drop n [] = []
drop zero (p ∷ pieces) = p ∷ pieces
drop (suc n) (p ∷ pieces) = drop n pieces

abbrev text_at : List Piece → ℕ → Option Bytes
text_at pieces idx = get_elem? pieces idx >>= λ p. some p.1

-- The parser knows the configurations that begin like that of an agent `Drill`.
abbrev pub parser : Cj5
parser = record {
  Result = List Piece;
  Number = Bytes;
  parse = λ json.
      if starts_with json (codes "{ aggregates: \n [{service_name:\"Drill\"")
      then some drill_tokens
      else none;
  tokens = map (λ p. p.0);
  find = λ pieces idx key. find_from idx (idx + 1) (drop (idx + 1) pieces) key;
  get_str = text_at;
  get_int = text_at;
}

abbrev pub no_agents : AgentList (ServerConfig Bytes)
no_agents = record { agents = []; agent_url = []; number_agents = 0 }

pub drill_tokens-Describes : Describes parser drill_tokens (
    document_of (codes "500") (codes "2000") (codes "Drill") (codes "a") (codes "1") (codes "Mill"))
unfolding string_equal prints
drill_tokens-Describes = record {
  printable = refl;
  one = record { token = _; at = refl; sized = refl };
  service = record { token = _; at = refl; fits = omega arith; reads = refl };
  address = record { token = _; at = refl; fits = omega arith; reads = refl };
  port = record { token = _; at = refl; fits = omega arith; reads = refl };
  module_type = record { token = _; at = refl; fits = omega arith; reads = refl };
  size = record { token = _; at = refl; sized = refl };
  entries = (
    record { token = _; at = refl; fits = omega arith; reads = refl },
    record { token = _; at = refl; fits = omega arith; reads = refl },
    (
      record { token = _; at = refl; fits = omega arith; reads = refl },
      record { token = _; at = refl; fits = omega arith; reads = refl },
      (
        record { token = _; at = refl; fits = omega arith; reads = refl },
        record { token = _; at = refl; fits = omega arith; reads = refl },
        _,
      ),
    ),
  );
  interval = record { token = _; at = refl; reads = refl };
  unsecure = record { token = _; at = refl; fits = omega arith; reads = refl };
  timeout = record { token = _; at = refl; reads = refl };
}

abbrev pub home : RegistryServer types passed
home = record {
  nodes = registry;
  add_object = λ st n ref name. add st;
  add_variable = λ st n ref name value. (add st).0;
  write_text = λ st n value. st;
}

abbrev pub registers :
    (connect : Bytes → Option (Agent types passed))
    → Bytes
    → Option (Registered parser types passed home connect 2 3)
registers connect service_name =
    add_agent_to_registry parser types passed home connect 2 3 (numbered 10) service_name
      (codes "a") (codes "1") (codes "Mill") no_agents

abbrev pub new : Numbered × EntryNodes
new =
    added parser types passed home (λ url. some mill) 2 3 (numbered 10) (codes "Drill") (codes "a")
      (codes "1") (codes "Mill") no_agents

add_agent_to_registry-monitors_example :
    (connection : Connection parser types passed home (λ url. some mill) 2 3) × (registers
        (λ url. some mill)
        (codes "Drill")
      ≡ some (
        append_agent no_agents
            (config_of
              (codes "500")
              (codes "2000")
              (codes "Drill")
              (codes "a")
              (codes "1")
              (codes "Mill")
              new.1)
            (codes "a:1"),
        connection.0.copied.server,
        some connection,
      ))
    × Kept registry_accepts new.0 connection.0.copied.server
    × (connection.1.items ≡ node_id_numeric 1 3 ∷ node_id_numeric 1 5 ∷ node_id_numeric 1 3 ∷ [])
    × All (Has connection.0.copied.server) connection.1.contexts
    × Distinct connection.1.contexts
    × Calls registry_accepts
        ((node_id_numeric 1 6, node_id_numeric 1 2, none) ∷ [])
        (record { server = new.0; subscription_nodes = [] })
        connection.0.copied
unfolding json_string starts_with first_part quotation_mark variables_below calls_below
    capabilities_entry state_entry queue_entry node_path init_registered_agent_nodes provide_service
add_agent_to_registry-monitors_example =
    add_agent_to_registry-monitors parser types passed home (λ url. some mill) 2 3 (numbered 10)
      (codes "Drill") (codes "a") (codes "1") (codes "Mill") no_agents mill drill_tokens
      (codes "500") (codes "2000") (capabilities_entry ∷ state_entry ∷ queue_entry ∷ [])
      registry_accepts mill-Readable refl drill_tokens-Describes refl refl (13, refl, omega arith)

add_agent_to_registry-unreachable_example : registers (λ url. none) (codes "Drill") ≡ none
unfolding json_string starts_with first_part quotation_mark
add_agent_to_registry-unreachable_example =
    add_agent_to_registry-unreachable parser types passed home (λ url. none) 2 3 (numbered 10)
      (codes "Drill") (codes "a") (codes "1") (codes "Mill") no_agents drill_tokens (codes "500")
      (codes "2000") refl drill_tokens-Describes refl

add_agent_to_registry-unparsed_example :
    registers (λ url. some mill) (codes "Dr\"ill")
    ≡ some (append_agent no_agents no_config (codes "a:1"), numbered 10, none)
unfolding json_string starts_with first_part
add_agent_to_registry-unparsed_example =
    add_agent_to_registry-unparsed parser types passed home (λ url. some mill) 2 3 (numbered 10)
      (codes "Dr\"ill") (codes "a") (codes "1") (codes "Mill") no_agents refl
