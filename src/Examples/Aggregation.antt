-- ===== src/Examples/Aggregation.antt =====
-- The witness of Aggregation: three aggregates, of which the agent of the second cannot be reached.
use swap_it_registry_module.Prelude.{
  ◌≡◌, refl, ◌⊎◌, inl, inr, Option, none, some, List, [], ◌∷◌, map, Bytes, codes, string_equal,
  Gives, if◌then◌else◌, arith,
}
use swap_it_registry_module.Ua.{NodeId, node_id_numeric, objects_folder}
use swap_it_registry_module.Address.{connection_url}
use swap_it_registry_module.NodeIterator.{Agent}
use swap_it_registry_module.NodeIterator.Reached.{Adds, Accepts, Keeps, variables_below}
use swap_it_registry_module.Config.{Aggregate, MappingEntry}
use swap_it_registry_module.ReadAgent.Laws.{mapping_entry}
use swap_it_registry_module.Aggregation.{init_aggregation_server_ns}
use swap_it_registry_module.Aggregation.Laws.{
  AcceptsNames, unreachable, reachable, monitored, init_aggregation_server_ns-Gives,
}
use swap_it_registry_module.Examples.Mill.{
  types, passed, mill, mill-Readable, registry, Has, attached, registry_accepts, Numbered, numbered,
  add, number-eq, state_entry, queue_entry,
}
use swap_it_registry_module.Examples.Registration.{home}

abbrev connect : Bytes → Option (Agent types passed)
connect url = if string_equal url (codes "opc.tcp://b:2") then none else some mill

abbrev aggregate : Bytes → Bytes → List MappingEntry → Aggregate
aggregate ip port entries = record {
  name = ip;
  ip = ip;
  port = port;
  mapping_entrys = entries;
  entry_nodes = none;
}

-- The folder of objects is there from the start.
abbrev HasOrFolder : Numbered → NodeId → Type 0
HasOrFolder st n = (n ≡ objects_folder) ⊎ Has st n

add-HasOrFolder : (st : Numbered) → Adds HasOrFolder attached st (add st)
add-HasOrFolder st =
    (node_id_numeric 1 st.next, refl, (inr (st.next, refl, omega arith), keeps, lacks))
  where
    keeps : Keeps HasOrFolder attached st (add st).0
    keeps n (inl e) = (inl e, refl)
    keeps n (inr h) = (inr (h.0, h.1, omega (arith, h.2)), refl)

    lacks : ¬ (HasOrFolder st (node_id_numeric 1 st.next))
    lacks (inl e) = ground arith
    lacks (inr h) = omega (arith, number-eq st.next h.0 h.1, h.2)

abbrev accepts : Accepts types passed registry
accepts = record {
  Has = HasOrFolder;
  attached = attached;
  add_object = λ st parent ref name type text h. add-HasOrFolder st;
  add_method = λ st parent ref name text input output h. add-HasOrFolder st;
  add_variable = λ st parent ref name attributes h. add-HasOrFolder st;
  write = λ st n v m h. (h, refl);
  set_callback = λ st n c m h. h;
  set_context = λ st n c m h. h;
  context-set = registry_accepts.context-set;
  context-set_ne = registry_accepts.context-set_ne;
  callback-set = registry_accepts.callback-set;
  callback-set_ne = registry_accepts.callback-set_ne;
}

home_accepts : AcceptsNames home HasOrFolder attached
home_accepts = record {
  folder = λ st. inl refl;
  add_object = λ st parent ref name h. add-HasOrFolder st;
  add_variable = λ st parent ref name value n h. (add-HasOrFolder st).2.1 n h;
}

abbrev state_only : Aggregate
state_only =
    aggregate (codes "a") (codes "1") (mapping_entry types passed mill 2 3 state_entry ∷ [])

abbrev queue_only : Aggregate
queue_only =
    aggregate (codes "a") (codes "1") (mapping_entry types passed mill 2 3 queue_entry ∷ [])

init_aggregation_server_ns-Gives_example :
    Gives
      (λ result.
        Keeps HasOrFolder attached (numbered 10) result.0
        × (map (monitored types passed home connect 2 3 accepts home_accepts) result.1
            ≡ some (node_id_numeric 1 5 ∷ node_id_numeric 1 3 ∷ [])
              ∷ none
              ∷ some (node_id_numeric 1 3 ∷ [])
              ∷ []))
      (init_aggregation_server_ns types passed home connect 2 3
        (numbered 10)
        (state_only ∷ aggregate (codes "b") (codes "2") [] ∷ queue_only ∷ []))
unfolding connection_url string_equal variables_below state_entry queue_entry
init_aggregation_server_ns-Gives_example =
    init_aggregation_server_ns-Gives types passed home connect 2 3 accepts home_accepts
      (numbered 10) (state_only ∷ aggregate (codes "b") (codes "2") [] ∷ queue_only ∷ [])
      (
        reachable mill (state_entry ∷ []) mill-Readable refl refl,
        (unreachable refl, (reachable mill (queue_entry ∷ []) mill-Readable refl refl, _)),
      )
