-- ===== src/Examples/Init.antt =====
-- The witness of Init: a server that remembers which node lies below which, and whose ids hold the names.
use mathlib.Core.List.{append_assoc}
use swap_it_registry_module.Prelude.{
  ℕ, ◌≡◌, refl, ap, sym, ◌∙◌, Bool, true, false, Option, none, some, arith, List, [], ◌∷◌, ◌++◌,
  codes, if◌then◌else◌, Gives,
}
use swap_it_registry_module.Ua.{
  NodeId, Identifier, numeric, text, guid, byte_string, node_id_equal, node_id_equal_iff,
  QualifiedName, qualified_name, Reference, AddressSpace,
}
use swap_it_registry_module.Examples.Numbered.{if_equal, if_other}
use swap_it_registry_module.Register.Laws.{component_to}
use swap_it_registry_module.Search.{has_name}
use swap_it_registry_module.Init.{InitServer, Method, start_registry_module}
use swap_it_registry_module.Init.Way.{At, Kept, Builds}
use swap_it_registry_module.Init.Structure.{Structure}
use swap_it_registry_module.Init.Laws.{start_registry_module-Structure}

abbrev Links : Type 0
Links = List (NodeId × NodeId)

abbrev below : Links → NodeId → List Reference
below [] n = []
below (l ∷ links) n = (if node_id_equal l.0 n then component_to l.1 ∷ [] else []) ++ below links n

abbrev name_in : Identifier → ℕ → QualifiedName
name_in (numeric k) ns = qualified_name ns []
name_in (text s) ns = qualified_name ns s
name_in (guid []) ns = qualified_name ns []
name_in (guid (k ∷ s)) ns = qualified_name k s
name_in (byte_string s) ns = qualified_name ns []

-- The links, the methods of nodes, and the nodes whose context is the list of agents.
record Built : Type 0 where
  links : Links
  methods : NodeId → Option Method
  lists : NodeId → Bool

abbrev links_space : AddressSpace
links_space = record {
  State = Built;
  references = λ st. below st.links;
  browse_name = λ st n. name_in n.identifier n.namespace_index;
}

abbrev link : Built → NodeId → NodeId → Built
link st n id = record st { links = st.links ++ (n, id) ∷ [] }

abbrev id_of : QualifiedName → NodeId
id_of name = record { namespace_index = 7; identifier = guid (name.namespace_index ∷ name.name) }

abbrev builder : InitServer
builder = record {
  adder = record {
    space = links_space;
    add_object_node = λ st n ref name. (link st n (id_of name), some (id_of name));
    add_variable_node = λ st n ref name value. st;
  };
  add_method_node = λ st id n ref name m. record (link st n id) {
    methods = λ k. if node_id_equal id k then some m else st.methods k;
  };
  namespace_common_generated = λ st. st;
  set_agent_list =
      λ st n. record st { lists = λ k. if node_id_equal n k then true else st.lists k };
}

below-append : (xs ys : Links) (n : NodeId) → below (xs ++ ys) n ≡ below xs n ++ below ys n
below-append [] ys n = refl
below-append (x ∷ xs) ys n =
    ap (◌++◌ (if node_id_equal x.0 n then component_to x.1 ∷ [] else [])) (below-append xs ys n)
    ∙ sym (
        append_assoc (if node_id_equal x.0 n then component_to x.1 ∷ [] else []) (below xs n)
          (below ys n))

link-Kept :
    (st st' : Built) (n id : NodeId)
    → st'.links ≡ st.links ++ (n, id) ∷ []
    → Kept links_space st st'
link-Kept st st' n id e k m name a = record {
  before = a.before;
  after = a.after ++ below ((n, id) ∷ []) k;
  listed =
      ap (λ links. below links k) e
      ∙ below-append st.links ((n, id) ∷ []) k
      ∙ ap (λ refs. refs ++ below ((n, id) ∷ []) k) a.listed
      ∙ append_assoc a.before (component_to m ∷ a.after) (below ((n, id) ∷ []) k);
  named = a.named;
}

link-At :
    (st st' : Built) (n id : NodeId) (name : QualifiedName)
    → st'.links ≡ st.links ++ (n, id) ∷ []
    → name_in id.identifier id.namespace_index ≡ name
    → At links_space st' n id name
link-At st st' n id name e named = record {
  before = below st.links n;
  after = [];
  listed =
      ap (λ links. below links n) e
      ∙ below-append st.links ((n, id) ∷ []) n
      ∙ ap (λ b. below st.links n ++ ((if b then component_to id ∷ [] else []) ++ []))
          ((node_id_equal_iff n n).1 refl);
  named = named;
}

if_either : (n k : NodeId) (b : Bool) → b ≡ true → (if node_id_equal n k then true else b) ≡ true
if_either n k b h = ground arith

builder-Builds : Builds builder
unfolding node_id_equal
builder-Builds = record {
  Has = λ st n. Unit;
  method_of = λ st n. st.methods n;
  HasList = λ st n. st.lists n ≡ true;
  folder = λ st. _;
  add_object = λ st n name h. (
    id_of name,
    refl,
    (
      link-At st (link st n (id_of name)) n (id_of name) name refl refl,
      refl,
      _,
      link-Kept st (link st n (id_of name)) n (id_of name) refl,
      λ m k. _,
      λ m. refl,
    ),
  );
  add_method = λ st n name m h.
      let id : NodeId = record { namespace_index = 1; identifier = text name } in
      (
        link-At st _ n id (qualified_name 1 name) refl refl,
        link-Kept st _ n id refl,
        λ m k. _,
        if_equal id (some m) (st.methods id),
        λ k other. if_other id k (some m) (st.methods k) other,
      );
  common = λ st. ((λ n id name a. a), (λ k. refl));
  set_list = λ st n. (
    (λ k id name a. record {
      before = a.before;
      after = a.after;
      listed = a.listed;
      named = a.named;
    }),
    (λ k. refl),
    (λ k. refl),
    if_equal n true (st.lists n),
    (λ k h. if_either n k (st.lists k) h),
  );
}

abbrev nothing : Built
nothing = record { links = []; methods = λ n. none; lists = λ n. false }

start_registry_module-Structure_example :
    Gives
      (λ result.
        (result.1 ≡ record { agents = []; agent_url = []; number_agents = 0 })
        × Structure builder builder-Builds result.0
        × (n : NodeId) × (m : NodeId) × builder-Builds.HasList result.0 n
        × builder-Builds.HasList result.0 m
        × (has_name links_space result.0 (codes "Add_Agent_Server") n ≡ true)
        × (has_name links_space result.0 (codes "Remove_Agent_Server") m ≡ true))
      (start_registry_module builder {C = Unit {0}} 3 nothing)
start_registry_module-Structure_example =
    start_registry_module-Structure builder builder-Builds 0 nothing
