-- ===== src/NodeIterator/Steps.antt =====
-- What is done for one node: that it succeeds, which nodes the server has then, and what is queued.
use swap_it_registry_module.Prelude.{
  none, ℕ, ◌≡◌, refl, sym, ap, subst, ◌∙◌, true, false, some, [], ◌∷◌, Gives, bind-Gives,
}
use swap_it_registry_module.Ua.{NodeId, Reference}
use swap_it_registry_module.Values.{DataTypes}
use swap_it_registry_module.Config.{
  Synchronization, subscription, callback_read, callback_read_write,
}
use swap_it_registry_module.NodeIterator.{
  Passed, Agent, NodeServer, Handle, Copied, NodeContext, ValueCallback,
}
use swap_it_registry_module.NodeIterator.Copy.{
  copy_object, copy_method, synchronize, copy_value, copy_variable, variable_context,
}
use swap_it_registry_module.NodeIterator.Reached.{Readable, Accepts, called}
use swap_it_registry_module.NodeIterator.Queues.{
  Kept, Kept-trans, queued, Queues, Queues-self, Queues-after,
}
use swap_it_registry_module.NodeIterator.Calls.{Calls, Copies, Copies-self}
use swap_it_registry_module.NodeIterator.Indices.{map_idx-lt, local_object_type-Gives}

module _ (d : DataTypes) (p : Passed) (agent : Agent d p) (server : NodeServer d p)
    (readable : Readable d p agent) (accepts : Accepts d p server) where
  open server.space use {State}
  open accepts use {Has}

  copy_value-Gives :
      (h : Handle) (st : State) (r : Reference)
      → Has st h.parent
      → Gives
          (λ copy. Has copy.1 copy.0 × Kept accepts st copy.1 × (¬ (Has st copy.0)))
          (copy_value d p agent server h st r)
  unfolding copy_value
  copy_value-Gives h st r has =
      bind-Gives
        (map_idx-lt d p agent server readable accepts st _ (readable.data_types r.child_id))
        λ i _.
          bind-Gives
            (map_idx-lt d p agent server readable accepts st _ (readable.browse_names r.child_id))
            λ j _.
              bind-Gives (accepts.add_variable st h.parent r.reference_type_id _ _ has) λ id new.
                bind-Gives (readable.values r.child_id _) λ content _. (
                  _,
                  refl,
                  (
                    (accepts.write _ id content id new.0).0,
                    Kept-trans accepts _ _ _ new.1 (accepts.write _ id content),
                    new.2,
                  ),
                )

  pub copy_object-Gives :
      (depth : ℕ) (h : Handle) (s : Copied State) (r : Reference)
      → Has s.server h.parent
      → Gives
          (λ copy.
            Has copy.1.server copy.0.parent
            × Kept accepts s.server copy.1.server
            × (copy.0.synchronization ≡ h.synchronization)
            × (copy.0.remote_parent_object ≡ r.child_id)
            × (copy.1.subscription_nodes ≡ s.subscription_nodes))
          (copy_object d p agent server depth h s r)
  unfolding copy_object
  copy_object-Gives depth h s r has =
      bind-Gives
        (local_object_type-Gives d p agent server readable accepts depth s.server r.child_id)
        λ type _.
          bind-Gives (accepts.add_object s.server h.parent r.reference_type_id _ type _ has)
            λ id new. (_, refl, (new.0, new.1, refl, refl, refl))

  -- The context of a node that was not there.
  set_context-Kept :
      (before st : State) (id : NodeId) (c : NodeContext)
      → Kept accepts before st
      → (¬ (Has before id))
      → Kept accepts before (server.set_node_context st id c)
  set_context-Kept before st id c h lacks n k =
      let (has, e) = h n k in
      (
        accepts.set_context st id c n has,
        accepts.context-set_ne st id c n (λ same. lacks (subst (Has before) (sym same) k)) ∙ e,
      )

  -- The callback of a node that was not there.
  set_callback-Kept :
      (before st : State) (id : NodeId) (c : ValueCallback)
      → Kept accepts before st
      → (¬ (Has before id))
      → Kept accepts before (server.set_value_callback st id c)
  set_callback-Kept before st id c h lacks n k =
      let (has, e) = h n k in
      (
        accepts.set_callback st id c n has,
        accepts.callback-set_ne st id c n (λ same. lacks (subst (Has before) (sym same) k)) ∙ e,
      )

  pub copy_method-Gives :
      (mode : Synchronization) (h : Handle) (s : Copied State) (r : Reference)
      → Has s.server h.parent
      → Gives
          (Copies accepts mode [] ((r.child_id, h.remote_parent_object, none) ∷ []) s)
          (copy_method d p agent server h s r)
  unfolding copy_method
  copy_method-Gives mode h s r has =
      bind-Gives (accepts.add_method s.server h.parent r.reference_type_id _ _ _ _ has) λ id new.
        let c : NodeContext = record {
          remote_node_id = r.child_id;
          remote_parent_object_node_id = h.remote_parent_object;
          local_node_id = id;
        } in
        (
          _,
          refl,
          record {
            queues =
                Queues-after accepts (queued mode []) s _ _
                  (set_context-Kept s.server _ id c new.1 new.2) refl
                  (Copies-self accepts mode _).queues;
            calls = record {
              contexts = (c, none) ∷ [];
              lead = refl;
              set = (
                (
                  accepts.set_context _ id c id new.0,
                  ap (λ a. a.context) (accepts.context-set _ id c),
                  _,
                ),
                _,
              );
              fresh = (new.2, _);
            };
          },
        )

  -- A context and a callback for a node that was not there.
  callback_set :
      (before s : Copied State) (c : NodeContext) (callback : ValueCallback)
      → Kept accepts before.server s.server
      → s.subscription_nodes ≡ before.subscription_nodes
      → Has s.server c.local_node_id
      → (¬ (Has before.server c.local_node_id))
      → let set = server.set_node_context s.server c.local_node_id c in
        let after : Copied State = record s {
          server = server.set_value_callback set c.local_node_id callback;
        } in
        Queues accepts [] before after
        × Calls accepts
            ((c.remote_node_id, c.remote_parent_object_node_id, some callback) ∷ [])
            before
            after
  callback_set before s c callback h e has lacks =
      let id = c.local_node_id in
      let set = server.set_node_context s.server id c in
      let kept = set_context-Kept before.server s.server id c h lacks in
      let set_now = accepts.callback-set set id callback in
      (
        Queues-after accepts [] before _ _
            (set_callback-Kept before.server set id callback kept lacks) e (Queues-self accepts _),
        record {
          contexts = (c, some callback) ∷ [];
          lead = refl;
          set = (
            (
              accepts.set_callback set id callback id (accepts.set_context s.server id c id has),
              ap (λ a. a.context) set_now ∙ ap (λ a. a.context) (accepts.context-set s.server id c),
              ap (λ a. a.callback) set_now,
            ),
            _,
          );
          fresh = (lacks, _);
        },
      )

  -- With the state before the variable was added.
  synchronize-Gives :
      (mode : Synchronization) (before s : Copied State) (child_id new_node : NodeId)
      → Kept accepts before.server s.server
      → s.subscription_nodes ≡ before.subscription_nodes
      → Has s.server new_node
      → (¬ (Has before.server new_node))
      → Gives
          (Copies accepts mode (child_id ∷ []) (called mode child_id) before)
          (synchronize d p agent server (some mode) s child_id new_node)
  unfolding synchronize
  synchronize-Gives subscription before s child_id new_node h e has lacks = (
    _,
    refl,
    record {
      queues = record {
        keeps = h;
        new = _ ∷ [];
        queue =
            ap (◌∷◌ (record { node_id = child_id; node_id_on_aggregation_server = new_node })) e;
        remote = refl;
        local = (has, _);
        fresh = (lacks, _);
        distinct = _;
      };
      calls = record { contexts = []; lead = refl; set = _; fresh = _ };
    },
  )
  synchronize-Gives callback_read before s child_id new_node h e has lacks =
      let (queues, calls) =
        callback_set before s (variable_context d p agent server child_id new_node)
          (record { on_write = false }) h e has lacks in
      (_, refl, record { queues = queues; calls = calls })
  synchronize-Gives callback_read_write before s child_id new_node h e has lacks =
      let (queues, calls) =
        callback_set before s (variable_context d p agent server child_id new_node)
          (record { on_write = true }) h e has lacks in
      (_, refl, record { queues = queues; calls = calls })

  pub copy_variable-Gives :
      (mode : Synchronization) (h : Handle) (s : Copied State) (r : Reference)
      → h.synchronization ≡ some mode
      → Has s.server h.parent
      → Gives
          (Copies accepts mode (r.child_id ∷ []) (called mode r.child_id) s)
          (copy_variable d p agent server h s r)
  unfolding copy_variable
  copy_variable-Gives mode h s r e has = bind-Gives (copy_value-Gives h s.server r has) λ copy new.
      subst
        (λ o.
          Gives (Copies accepts mode (r.child_id ∷ []) (called mode r.child_id) s)
            (synchronize d p agent server o (record s { server = copy.1 }) r.child_id copy.0))
        (sym e)
        (synchronize-Gives mode s (record s { server = copy.1 }) r.child_id copy.0 new.1 refl new.0
          new.2)
