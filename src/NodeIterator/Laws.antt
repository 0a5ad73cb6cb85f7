-- ===== src/NodeIterator/Laws.antt =====
-- What a copy leaves: that it comes to an end, and the queue of the subscription nodes.
use swap_it_registry_module.Prelude.{
  ℕ, zero, suc, ◌≡◌, refl, subst, ◌∙◌, Bool, true, false, Option, some, List, [], ◌∷◌, All, Gives,
  bind-Gives, if◌then◌else◌,
}
use swap_it_registry_module.Ua.{NodeId, Reference, visit_children}
use swap_it_registry_module.Values.{DataTypes}
use swap_it_registry_module.Config.{Synchronization}
use swap_it_registry_module.NodeIterator.{
  NodeClass, object, variable, method, Passed, Agent, NodeServer, Handle, Copied,
}
use swap_it_registry_module.NodeIterator.Copy.{copy_node, node_iter}
use swap_it_registry_module.NodeIterator.Reached.{
  concat_map, variables_at, variables_below, calls_at, calls_below, Remote, IsWithin, Readable,
  Accepts,
}
use swap_it_registry_module.NodeIterator.Calls.{Copies, Copies-self, Copies-trans, Copies-after}
use swap_it_registry_module.NodeIterator.Steps.{
  copy_object-Gives, copy_method-Gives, copy_variable-Gives,
}

module _ (d : DataTypes) (p : Passed) (agent : Agent d p) (server : NodeServer d p)
    (readable : Readable d p agent) (accepts : Accepts d p server) where
  open server.space use {State}
  open accepts use {Has}

  -- A traversal whose callback copies is a copy.
  pub visit_children-Gives :
      (mode : Synchronization) (parent : NodeId)
      (f : Copied State → Reference → Option (Copied State)) (P : Reference → Type 0)
      (variables : Reference → List NodeId) (calls : Reference → List Remote)
      → ((s : Copied State) (r : Reference)
          → P r
          → Has s.server parent
          → Gives (Copies accepts mode (variables r) (calls r) s) (f s r))
      → (s : Copied State) (refs : List Reference) → All P refs
      → Has s.server parent
      → Gives
          (Copies accepts mode (concat_map variables refs) (concat_map calls refs) s)
          (visit_children f s refs)
  unfolding visit_children
  visit_children-Gives mode parent f P variables calls step s [] all has =
      (s, refl, Copies-self accepts mode s)
  visit_children-Gives mode parent f P variables calls step s (r ∷ refs) all has =
      bind-Gives (step s r all.0 has) λ s1 h.
        let (s2, e, k) =
          visit_children-Gives mode parent f P variables calls step s1 refs all.1
            (h.queues.keeps parent has).0 in
        (
          s2,
          e,
          Copies-trans accepts mode (variables r) (concat_map variables refs) (calls r)
              (concat_map calls refs) s s1 s2 h k,
        )

  copy_node-Gives :
      (depth : ℕ) (mode : Synchronization) (below : Handle → Copied State → Option (Copied State))
      (variables : List NodeId) (calls : List Remote) (c : NodeClass) (r : Reference)
      → (c ≡ object
          → (h : Handle) (s : Copied State) → h.synchronization ≡ some mode
          → h.remote_parent_object ≡ r.child_id
          → Has s.server h.parent
          → Gives (Copies accepts mode variables calls s) (below h s))
      → (h : Handle) (s : Copied State) → h.synchronization ≡ some mode
      → Has s.server h.parent
      → Gives
          (Copies accepts mode
            (variables_at c variables r.child_id)
            (calls_at mode c calls h.remote_parent_object r.child_id)
            s)
          (copy_node d p agent server depth below c h s r)
  unfolding copy_node
  copy_node-Gives depth mode below variables calls object r step h s e has =
      bind-Gives (copy_object-Gives d p agent server readable accepts depth h s r has) λ copy new.
        let (s2, e2, k) = step refl copy.0 copy.1 (new.2 ∙ e) new.3 new.0 in
        (s2, e2, Copies-after accepts mode variables calls s copy.1 s2 new.1 new.4 k)
  copy_node-Gives depth mode below variables calls method r step h s e has =
      copy_method-Gives d p agent server readable accepts mode h s r has
  copy_node-Gives depth mode below variables calls variable r step h s e has =
      copy_variable-Gives d p agent server readable accepts mode h s r e has
  copy_node-Gives depth mode below variables calls _ r step h s e has =
      (s, refl, Copies-self accepts mode s)

  -- A reference that is passed by.
  if-Gives :
      (mode : Synchronization) (s : Copied State) (b : Bool) (variables : List NodeId)
      (calls : List Remote) (o : Option (Copied State))
      → (b ≡ false → Gives (Copies accepts mode variables calls s) o)
      → Gives
          (Copies accepts mode (if b then [] else variables) (if b then [] else calls) s)
          (if b then some s else o)
  if-Gives mode s true variables calls o step = (s, refl, Copies-self accepts mode s)
  if-Gives mode s false variables calls o step = step refl

  -- Let the agent be readable, let no more than `fuel` of its objects lie below one another, let the
  -- server accept what is added below a node that it has, and let it have the parent. Then the
  -- copying comes to an end, the server keeps the nodes that it had, and the queue has got each of
  -- the agent's variables at or below the reference just once for each way to it, the last one first
  -- and each beside a node of its own that the server has now and had not before, if the mapping
  -- entry asks for a subscription; for the other two modes, the queue is as before. New nodes have
  -- contexts that lead back to the agent's methods there, each with the object above it, and, in
  -- those two modes, to its variables, whose nodes have the callbacks of the mode, in the order of
  -- the agent; and the nodes of before keep theirs.
  pub node_iter-Gives :
      (depth fuel : ℕ) (mode : Synchronization) (h : Handle) (s : Copied State) (r : Reference)
      → IsWithin d p agent fuel r
      → h.synchronization ≡ some mode
      → Has s.server h.parent
      → Gives
          (Copies accepts mode
            (variables_below d p agent fuel r)
            (calls_below d p agent mode fuel h.remote_parent_object r)
            s)
          (node_iter d p agent server depth fuel h s r)
  unfolding node_iter variables_below calls_below IsWithin
  node_iter-Gives depth zero mode h s r within e has = absurd within
  node_iter-Gives depth (suc fuel) mode h s r within e has =
      let below : Handle → Copied State → Option (Copied State) = λ h' s'.
        visit_children (node_iter d p agent server depth fuel h') s'
          (agent.references r.child_id) in
      let variables = concat_map (variables_below d p agent fuel) (agent.references r.child_id) in
      let calls =
        concat_map (calls_below d p agent mode fuel r.child_id) (agent.references r.child_id) in
      let class = agent.node_class r.child_id in
      if-Gives mode s r.is_inverse (variables_at class variables r.child_id)
        (calls_at mode class calls h.remote_parent_object r.child_id)
        (copy_node d p agent server depth below class h s r)
        λ i.
          copy_node-Gives depth mode below variables calls class r
            (λ o h' s' e' parent has'.
              visit_children-Gives mode h'.parent (node_iter d p agent server depth fuel h')
                (IsWithin d p agent fuel) (variables_below d p agent fuel)
                (calls_below d p agent mode fuel r.child_id)
                (λ s'' r' within' has''.
                  subst
                    (λ x.
                      Gives
                        (Copies accepts mode (variables_below d p agent fuel r')
                          (calls_below d p agent mode fuel x r') s'')
                        (node_iter d p agent server depth fuel h' s'' r'))
                    parent (node_iter-Gives depth fuel mode h' s'' r' within' e' has''))
                s' (agent.references r.child_id) (within i o) has')
            h s e has
