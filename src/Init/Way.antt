-- ===== src/Init/Way.antt =====
-- The way to the methods, and what a server is taken to do with the nodes that are added.
use swap_it_registry_module.Prelude.{
  ℕ, suc, ◌≡◌, ◌≢◌, refl, Option, some, false, ◌||◌, List, ◌∷◌, ◌++◌, Bytes, string_equal,
  string_equal_self, Gives,
}
use swap_it_registry_module.Ua.{
  NodeId, node_id_equal, identifier_equal, QualifiedName, qualified_name, Reference, has_component,
  objects_folder, AddressSpace,
}
use swap_it_registry_module.Register.Laws.{component_to}
use swap_it_registry_module.Search.{server_object, aliases}
use swap_it_registry_module.Search.Finds.{here, below}
use swap_it_registry_module.Search.Laws.{HasVariable}
use swap_it_registry_module.Init.{Method, InitServer, agent_list_name, pfdl_name, node_id_string}

module _ (space : AddressSpace) where
  open space use {State, references, browse_name}

  -- A node has a component, whose name this is.
  pub record At (st : State) (n id : NodeId) (name : QualifiedName) : Type 0 where
    pub before : List Reference
    pub after : List Reference
    pub listed : references st n ≡ before ++ component_to id ∷ after
    pub named : browse_name st id ≡ name

  -- Components and their names stay.
  abbrev pub Kept : State → State → Type 0
  Kept st st' = (n id : NodeId) (name : QualifiedName) → At st n id name → At st' n id name

  abbrev pub IsOrdinary : NodeId → Type 0
  IsOrdinary id = (node_id_equal id server_object || node_id_equal id aliases) ≡ false

  -- A way from the Objects folder over two objects to a third node.
  pub record Way (st : State) (agent_list pfdl : NodeId) : Type 0 where
    pub list_at : At st objects_folder agent_list agent_list_name
    pub pfdl_at : At st agent_list pfdl pfdl_name
    pub ordinary_list : IsOrdinary agent_list
    pub ordinary_pfdl : IsOrdinary pfdl

  pub Way-Kept :
      (st st' : State) (agent_list pfdl : NodeId)
      → Kept st st'
      → Way st agent_list pfdl
      → Way st' agent_list pfdl
  Way-Kept st st' agent_list pfdl k w = record {
    list_at = k objects_folder agent_list agent_list_name w.list_at;
    pfdl_at = k agent_list pfdl pfdl_name w.pfdl_at;
    ordinary_list = w.ordinary_list;
    ordinary_pfdl = w.ordinary_pfdl;
  }

  -- The search for a method goes this way.
  pub method-HasVariable :
      (fuel : ℕ) (st : State) (agent_list pfdl id : NodeId) (name : Bytes)
      → Way st agent_list pfdl
      → At st pfdl id (qualified_name 1 name)
      → IsOrdinary id
      → string_equal agent_list_name.name name ≡ false
      → string_equal pfdl_name.name name ≡ false
      → HasVariable space st (suc (suc (suc fuel))) name objects_folder id
  unfolding node_id_equal identifier_equal
  method-HasVariable fuel st agent_list pfdl id name w m ordinary other other' = record {
    before = w.list_at.before;
    after = w.list_at.after;
    through = component_to agent_list;
    split = w.list_at.listed;
    finds =
        below w.pfdl_at.before w.pfdl_at.after (rw w.ordinary_list refl) (rw w.list_at.named other)
          w.pfdl_at.listed
          (below m.before m.after (rw w.ordinary_pfdl refl) (rw w.pfdl_at.named other') m.listed
            (here (rw ordinary refl) (rw m.named (string_equal_self name))));
  }

-- The server adds what is added below a node that it has, with the method that it is given, and the common
-- model takes nothing away. A node keeps the method that it has, and whether the list of agents is its
-- context, until another is set for it.
pub record Builds (server : InitServer) : Type 1 where
  pub Has : server.adder.space.State → NodeId → Type 0
  pub method_of : server.adder.space.State → NodeId → Option Method
  pub HasList : server.adder.space.State → NodeId → Type 0
  pub folder : (st : server.adder.space.State) → Has st objects_folder
  pub add_object :
      (st : server.adder.space.State) (n : NodeId) (name : QualifiedName)
      → Has st n
      → let added = server.adder.add_object_node st n has_component name in
        Gives
          (λ id.
            At server.adder.space added.0 n id name
            × IsOrdinary server.adder.space id
            × Has added.0 id
            × Kept server.adder.space st added.0
            × ((m : NodeId) → Has st m → Has added.0 m)
            × ((m : NodeId) → method_of added.0 m ≡ method_of st m))
          added.1
  pub add_method :
      (st : server.adder.space.State) (n : NodeId) (name : Bytes) (m : Method)
      → Has st n
      → let id = node_id_string 1 name in
        let st' = server.add_method_node st id n has_component (qualified_name 1 name) m in
        At server.adder.space st' n id (qualified_name 1 name)
        × Kept server.adder.space st st'
        × ((k : NodeId) → Has st k → Has st' k)
        × (method_of st' id ≡ some m)
        × ((k : NodeId) → id ≢ k → method_of st' k ≡ method_of st k)
  pub common :
      (st : server.adder.space.State)
      → Kept server.adder.space st (server.namespace_common_generated st)
        × ((k : NodeId) → method_of (server.namespace_common_generated st) k ≡ method_of st k)
  pub set_list :
      (st : server.adder.space.State) (n : NodeId)
      → let st' = server.set_agent_list st n in
        Kept server.adder.space st st'
        × ((k : NodeId) → method_of st' k ≡ method_of st k)
        × ((k : NodeId)
            → server.adder.space.browse_name st' k ≡ server.adder.space.browse_name st k)
        × HasList st' n
        × ((k : NodeId) → HasList st k → HasList st' k)
