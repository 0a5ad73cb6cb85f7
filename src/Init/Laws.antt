-- ===== src/Init/Laws.antt =====
-- What the start of the registry leaves.
use swap_it_registry_module.Prelude.{
  ℕ, suc, ◌≡◌, ◌≢◌, ◌↔◌, refl, ap, ◌∙◌, true, false, [], Bytes, codes, string_equal,
  string_equal_iff, Gives, bind-Gives, arith,
}
use swap_it_registry_module.Ua.{
  NodeId, Identifier, text, node_id_equal, identifier_equal, QualifiedName, qualified_name,
  objects_folder,
}
use swap_it_registry_module.Search.{has_name}
use swap_it_registry_module.Search.Laws.{get_single_variable-found}
use swap_it_registry_module.Init.{
  filter_agent_input_arguments, filter_agent_output_arguments, add_method_input_arguments,
  remove_method_input_arguments, InitServer, agent_list_name, pfdl_name, node_id_string,
  add_methods, init_registry_module_server_structure, set_contexts, start_registry_module,
}
use swap_it_registry_module.Init.Way.{
  At, Kept, IsOrdinary, Way, Way-Kept, method-HasVariable, Builds,
}
use swap_it_registry_module.Init.Structure.{
  Stays, Stays-trans, Methods, Methods-Stays, Structure, Structure-Stays,
}

module _ (server : InitServer) (builds : Builds server) where
  open server.adder use {space}
  open space use {State}
  open builds use {Has, method_of, HasList}

  apart : (a b : Bytes) → string_equal a b ≡ false → node_id_string 1 a ≢ node_id_string 1 b
  apart a b e h = absurd_equal (string_equal_iff a b) (text-eq a b h) e
    where
      text_of : Identifier → Bytes
      text_of (text s) = s
      text_of _ = []

      text-eq : (a b : Bytes) → node_id_string 1 a ≡ node_id_string 1 b → a ≡ b
      text-eq a b h = ap (λ n. text_of n.identifier) h

      absurd_equal : (string_equal a b ≡ true) ↔ (a ≡ b) → a ≡ b → string_equal a b ≡ false → ⊥
      absurd_equal i e f = ground arith

  -- The three methods, one after the other.
  add_methods-Methods :
      (st : State) (pfdl : NodeId)
      → Has st pfdl
      → let st' = add_methods server st pfdl in
        Methods server builds st' pfdl × Kept space st st' × ((k : NodeId) → Has st k → Has st' k)
  unfolding add_methods filter_agent_input_arguments filter_agent_output_arguments
      add_method_input_arguments remove_method_input_arguments string_equal
  add_methods-Methods st pfdl has =
      let one = builds.add_method st pfdl (codes "Filter_Agents") _ has in
      let two = builds.add_method _ pfdl (codes "Add_Agent_Server") _ (one.2 pfdl has) in
      let three =
        builds.add_method _ pfdl (codes "Remove_Agent_Server") _ (two.2 pfdl (one.2 pfdl has)) in
      (
        record {
          filtering = record {
            at = three.1 _ _ _ (two.1 _ _ _ one.0);
            method = _;
            kept =
                three.4 _ (apart (codes "Remove_Agent_Server") (codes "Filter_Agents") refl)
                ∙ two.4 _ (apart (codes "Add_Agent_Server") (codes "Filter_Agents") refl)
                ∙ one.3;
            calls = refl;
            takes = refl;
            gives = refl;
          };
          adding = record {
            at = three.1 _ _ _ two.0;
            method = _;
            kept =
                three.4 _ (apart (codes "Remove_Agent_Server") (codes "Add_Agent_Server") refl)
                ∙ two.3;
            calls = refl;
            takes = refl;
            gives = refl;
          };
          removing = record {
            at = three.0;
            method = _;
            kept = three.3;
            calls = refl;
            takes = refl;
            gives = refl;
          };
        },
        (λ n id name a. three.1 n id name (two.1 n id name (one.1 n id name a))),
        (λ k h. three.2 k (two.2 k (one.2 k h))),
      )

  init-Structure :
      (st : State)
      → Gives (Structure server builds) (init_registry_module_server_structure server st)
  unfolding init_registry_module_server_structure
  init-Structure st =
      bind-Gives (builds.add_object st objects_folder agent_list_name (builds.folder st))
        λ agent_list one. bind-Gives (builds.add_object _ agent_list pfdl_name one.2) λ pfdl two.
          let way : Way space _ agent_list pfdl = record {
            list_at = two.3 _ _ _ one.0;
            pfdl_at = two.0;
            ordinary_list = one.1;
            ordinary_pfdl = two.1;
          } in
          let methods = add_methods-Methods _ pfdl two.2 in
          bind-Gives
            (builds.add_object _ agent_list _ (methods.2 agent_list (two.4 agent_list one.2)))
            λ orchestrator three.
              let four = builds.add_object _ orchestrator _ three.2 in
              let five = builds.add_object _ orchestrator _ (four.2.4 orchestrator three.2) in
              let later : Stays server builds _ _ =
                Stays-trans server builds _ _ _ (three.3, three.5)
                  (Stays-trans server builds _ _ _ (four.2.3, four.2.5) (five.2.3, five.2.5)) in
              (
                _,
                refl,
                record {
                  agent_list = agent_list;
                  pfdl = pfdl;
                  orchestrator = orchestrator;
                  assignment = four.0;
                  engines = five.0;
                  way =
                      Way-Kept space _ _ agent_list pfdl
                        (λ n id name a. later.0 n id name (methods.1 n id name a)) way;
                  methods = Methods-Stays server builds _ _ pfdl later methods.0;
                  orchestrator_at = five.2.3 _ _ _ (four.2.3 _ _ _ three.0);
                  assignment_at = five.2.3 _ _ _ four.2.0;
                  engines_at = five.2.0;
                },
              )

  -- The registry starts, with no agent. In the state that it leaves the lists are in place, and the three
  -- methods with the functions that they call and the names of their arguments, and the list of agents is
  -- the context of two nodes that have the names of the methods which add and remove an agent, provided
  -- that the searches for them go at least three references deep.
  pub start_registry_module-Structure :
      {C : Type 0} (fuel : ℕ) (st : State)
      → Gives
          (λ result.
            (result.1 ≡ record { agents = []; agent_url = []; number_agents = 0 })
            × Structure server builds result.0
            × (n : NodeId) × (m : NodeId) × HasList result.0 n
            × HasList result.0 m
            × (has_name space result.0 (codes "Add_Agent_Server") n ≡ true)
            × (has_name space result.0 (codes "Remove_Agent_Server") m ≡ true))
          (start_registry_module server {C = C} (suc (suc (suc fuel))) st)
  unfolding start_registry_module set_contexts node_id_equal identifier_equal string_equal
  start_registry_module-Structure fuel st = bind-Gives (init-Structure st) λ built s.
      let common = server.namespace_common_generated built in
      let s' = Structure-Stays server builds built common (builds.common built) s in
      let found =
        λ (name : Bytes) (id : NodeId) (at : At space common s'.pfdl id (qualified_name 1 name))
            (o : IsOrdinary space id) (e : string_equal agent_list_name.name name ≡ false)
            (e' : string_equal pfdl_name.name name ≡ false).
          get_single_variable-found space common (suc (suc (suc fuel))) name id
            (method-HasVariable space fuel common s'.agent_list s'.pfdl id name s'.way at o e e') in
      let first = builds.set_list common _ in
      let second = builds.set_list _ _ in
      let named = λ (name : Bytes) (k : NodeId) (h : has_name space common name k ≡ true).
        ap (λ (qn : QualifiedName). string_equal qn.name name) (second.2 k ∙ first.2 k) ∙ h in
      (
        _,
        refl,
        (
          refl,
          Structure-Stays server builds _ _ (second.0, second.1)
              (Structure-Stays server builds common _ (first.0, first.1) s'),
          _,
          _,
          second.4 _ first.3,
          second.3,
          named (codes "Add_Agent_Server") _
              (found (codes "Add_Agent_Server") (node_id_string 1 (codes "Add_Agent_Server"))
                s'.methods.adding.at refl refl refl).1,
          named (codes "Remove_Agent_Server") _
              (found (codes "Remove_Agent_Server") (node_id_string 1 (codes "Remove_Agent_Server"))
                s'.methods.removing.at refl refl refl).1,
        ),
      )
