-- ===== src/Examples/Register.antt =====
-- The witness of Register: a server that remembers the names of the nodes below one service, and the
-- number of the other nodes that were added.
use swap_it_registry_module.Prelude.{
  ℕ, ◌+◌, ◌≡◌, ◌≢◌, refl, Option, some, List, [], ◌∷◌, ◌++◌, All, Bytes, true, false, codes, length,
  get_or, Bool-cases, inl, inr, if◌then◌else◌, arith, map, ◌==◌, string_equal,
}
use swap_it_registry_module.Ua.{
  NodeId, node_id_numeric, node_id_equal, node_id_equal_iff, identifier_equal, QualifiedName,
  qualified_name, Reference, AddressSpace, objects_folder,
}
use swap_it_registry_module.Address.{connection_url}
use swap_it_registry_module.Ua.Levels.{Hit}
use swap_it_registry_module.Filter.Find.{find_agents}
use swap_it_registry_module.Filter.Find.Path.{Route}
use swap_it_registry_module.Register.{NodeAdder, Endpoint, init_registered_agent_nodes}
use swap_it_registry_module.Register.Laws.{component_to, Keeps, Inserts}
use swap_it_registry_module.Register.Found.{init_registered_agent_nodes-find_agents}
use swap_it_registry_module.Examples.Shop.{number_of, children, name_of}

abbrev service : NodeId
service = node_id_numeric 3 3

abbrev Nodes : Type 0
Nodes = List QualifiedName × ℕ

abbrev numbered : ℕ → List QualifiedName → List Reference
numbered k [] = []
numbered k (name ∷ names) = component_to (node_id_numeric 1 k) ∷ numbered (k + 1) names

-- The nodes on the way to the service.
abbrev far : ℕ → Reference
far k = component_to (node_id_numeric 3 k)

abbrev nodes : AddressSpace
nodes = record {
  State = Nodes;
  references =
      λ st n. if node_id_equal n service then numbered 0 st.0 else map far (children (number_of n));
  browse_name = λ st n.
      if n.namespace_index == 3
      then qualified_name 0 (name_of (number_of n))
      else get_or st.0 (number_of n) (qualified_name 0 []);
}

abbrev add : Nodes → NodeId → QualifiedName → Nodes × Option NodeId
add st n name =
    if node_id_equal n service
    then ((st.0 ++ name ∷ [], st.1), some (node_id_numeric 1 (length st.0)))
    else ((st.0, st.1 + 1), some (node_id_numeric 2 (100 + st.1)))

abbrev pub server : NodeAdder
server = record {
  space = nodes;
  add_object_node = λ st n ref name. add st n name;
  add_variable_node = λ st n ref name value. (add st n name).0;
}

same_names :
    (st : Nodes) (k : ℕ) (refs : List Reference)
    → All (λ r. nodes.browse_name (st.0, k) r.child_id ≡ nodes.browse_name st r.child_id) refs
same_names st k [] = _
same_names st k (r ∷ refs) = (refl, same_names st k refs)

add-Keeps :
    (st : Nodes) (n : NodeId) (name : QualifiedName)
    → n ≢ service
    → Keeps nodes st (add st n name).0 service
add-Keeps st n name h = elim (Bool-cases (node_id_equal n service)) [
  | inl e ↦ absurd (h ((node_id_equal_iff n service).0 e))
  | inr e ↦
      rw e (record { same = refl; names = same_names st (st.1 + 1) (nodes.references st service) })
]

abbrev pub before : Nodes
before = (qualified_name 0 (codes "opc.tcp://b:1") ∷ [], 0)

abbrev endpoint : Endpoint
endpoint = record { ip = codes "a"; port = codes "1" }

far_names :
    (st st' : Nodes) (ks : List ℕ)
    → All (λ r. nodes.browse_name st' r.child_id ≡ nodes.browse_name st r.child_id) (map far ks)
far_names st st' [] = _
far_names st st' (k ∷ ks) = (refl, far_names st st' ks)

-- The nodes other than the service never change.
far-Keeps : (st st' : Nodes) (m : NodeId) → node_id_equal m service ≡ false → Keeps nodes st st' m
far-Keeps st st' m e = record {
  same = rw e refl;
  names = rw e (far_names st st' (children (number_of m)));
}

far-Hit :
    (st : Nodes) (name : Bytes) (n : NodeId) (k : ℕ)
    → node_id_equal n service ≡ false
    → children (number_of n) ≡ k ∷ []
    → string_equal (name_of k) name ≡ true
    → Hit nodes st name (codes "Drill") (nodes.references st n) (far k)
unfolding node_id_equal identifier_equal
far-Hit st name n k other e h = record {
  before = [];
  after = [];
  split = rw (other, e) refl;
  component = refl;
  named = h;
  misses_before = tt;
  misses_after = tt;
}

abbrev level : ℕ → NodeId
level k = node_id_numeric 3 k

levels_apart :
    (node_id_equal objects_folder service ≡ false)
    × (node_id_equal (level 1) service ≡ false)
    × (node_id_equal (level 2) service ≡ false)
unfolding node_id_equal identifier_equal
levels_apart = (refl, refl, refl)

far-Route : Route nodes before (codes "Drill") (far 1) (far 2) (far 3)
unfolding string_equal
far-Route = record {
  at_list = far-Hit before (codes "AgentList") objects_folder 1 levels_apart.0 refl refl;
  at_agents = far-Hit before (codes "PFDLServiceAgents") (level 1) 2 levels_apart.1 refl refl;
  at_service = far-Hit before (codes "Drill") (level 2) 3 levels_apart.2 refl refl;
}

apart : (n m : NodeId) → node_id_equal n m ≡ false → n ≢ m
apart n m h e = ground (arith, node_id_equal_iff n m)

init_registered_agent_nodes-find_agents_example :
    let result =
      init_registered_agent_nodes server before endpoint endpoint service (codes "Drill") in
    Inserts nodes
      (node_id_numeric 1 1)
      (find_agents nodes before (codes "Drill")).target_node_nodeid
      (find_agents nodes result.0 (codes "Drill")).target_node_nodeid
unfolding node_id_equal identifier_equal connection_url init_registered_agent_nodes
init_registered_agent_nodes-find_agents_example =
    init_registered_agent_nodes-find_agents server (far 1) (far 2) (far 3)
      (
        (λ st n ref name. add-Keeps st n name),
        (
          (λ st n ref name h. far-Keeps st (add st n name).0 objects_folder levels_apart.0),
          (
            (λ st n ref name h. far-Keeps st (add st n name).0 (level 1) levels_apart.1),
            ((λ st n ref name h. far-Keeps st (add st n name).0 (level 2) levels_apart.2), tt),
          ),
        ),
      )
      (
        (λ st n ref name value. add-Keeps st n name),
        (
          (λ st n ref name value h. far-Keeps st (add st n name).0 objects_folder levels_apart.0),
          (
            (λ st n ref name value h. far-Keeps st (add st n name).0 (level 1) levels_apart.1),
            (
              (λ st n ref name value h. far-Keeps st (add st n name).0 (level 2) levels_apart.2),
              tt,
            ),
          ),
        ),
      )
      before (before.0 ++ qualified_name 0 (codes "opc.tcp://a:1") ∷ [], 0) endpoint endpoint
      (codes "Drill") (codes "Drill") (node_id_numeric 1 1) far-Route refl
      (record {
        before = nodes.references before service;
        after = [];
        split = refl;
        listed = refl;
        named = refl;
        names = (refl, _);
      })
      (
        apart service objects_folder refl,
        (apart service (level 1) refl, (apart service (level 2) refl, tt)),
      )
      (
        apart (node_id_numeric 1 1) service refl,
        (
          apart (node_id_numeric 1 1) objects_folder refl,
          (
            apart (node_id_numeric 1 1) (level 1) refl,
            (apart (node_id_numeric 1 1) (level 2) refl, tt),
          ),
        ),
      )
      (
        apart (node_id_numeric 2 100) service refl,
        (
          apart (node_id_numeric 2 100) objects_folder refl,
          (
            apart (node_id_numeric 2 100) (level 1) refl,
            (apart (node_id_numeric 2 100) (level 2) refl, tt),
          ),
        ),
      )
