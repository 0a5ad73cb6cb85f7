-- ===== src/NodeIterator/Calls.antt =====
-- What a copy leaves: the contexts of the new nodes, and the queue of the subscription nodes.
use mathlib.Core.List.{map-append}
use swap_it_registry_module.Prelude.{
  Option, none, sym, ap, ap₂, subst, ◌∙◌, refl, map, ◌≡◌, some, List, [], ◌∷◌, ◌++◌, All,
}
use swap_it_registry_module.Ua.{NodeId}
use swap_it_registry_module.Values.{DataTypes}
use swap_it_registry_module.Config.{Synchronization}
use swap_it_registry_module.NodeIterator.{Passed, NodeContext, ValueCallback, Copied, NodeServer}
use swap_it_registry_module.NodeIterator.Reached.{Attached, Accepts, Remote}
use swap_it_registry_module.NodeIterator.Queues.{
  queued, queued-append, queued-nil, Kept, All-append, Queues, Queues-self, Queues-after,
  Queues-trans,
}

module _ {d : DataTypes} {p : Passed} {server : NodeServer d p} (accepts : Accepts d p server) where
  open server.space use {State}
  open accepts use {Has, attached}

  -- A context, and the callback that its node has at least.
  abbrev pub Setting : Type 0
  Setting = NodeContext × Option ValueCallback

  abbrev pub HasCallback : Option ValueCallback → Attached → Type 0
  HasCallback none a = Unit
  HasCallback (some callback) a = a.callback ≡ some callback

  abbrev pub IsAttached : State → Setting → Type 0
  IsAttached st (c, callback) =
      Has st c.local_node_id
      × ((attached st c.local_node_id).context ≡ some c)
      × HasCallback callback (attached st c.local_node_id)

  -- The contexts of new nodes lead back to these methods and variables, these with their callbacks.
  pub record Calls (remotes : List Remote) (s after : Copied State) : Type 0 where
    pub contexts : List Setting
    pub lead :
        map (λ c. (c.0.remote_node_id, c.0.remote_parent_object_node_id, c.1)) contexts ≡ remotes
    pub set : All (IsAttached after.server) contexts
    pub fresh : All (λ c. ¬ (Has s.server c.0.local_node_id)) contexts

  contexts-Kept :
      (st st' : State)
      → Kept accepts st st'
      → (contexts : List Setting) → All (IsAttached st) contexts
      → All (IsAttached st') contexts
  contexts-Kept st st' k [] h = _
  contexts-Kept st st' k (c ∷ contexts) h =
      let (has, e) = k c.0.local_node_id h.0.0 in
      (
        (has, ap (λ a. a.context) e ∙ h.0.1, subst (HasCallback c.1) (sym e) h.0.2),
        contexts-Kept st st' k contexts h.1,
      )

  contexts-fresh :
      (st st' : State)
      → Kept accepts st st'
      → (contexts : List Setting) → All (λ c. ¬ (Has st' c.0.local_node_id)) contexts
      → All (λ c. ¬ (Has st c.0.local_node_id)) contexts
  contexts-fresh st st' k [] h = _
  contexts-fresh st st' k (c ∷ contexts) h =
      (λ has. h.0 (k c.0.local_node_id has).0, contexts-fresh st st' k contexts h.1)

  pub Calls-self : (s : Copied State) → Calls [] s s
  Calls-self s = record { contexts = []; lead = refl; set = _; fresh = _ }

  pub Calls-after :
      (remotes : List Remote) (s s1 s2 : Copied State)
      → Kept accepts s.server s1.server
      → Calls remotes s1 s2
      → Calls remotes s s2
  Calls-after remotes s s1 s2 h k = record {
    contexts = k.contexts;
    lead = k.lead;
    set = k.set;
    fresh = contexts-fresh s.server s1.server h k.contexts k.fresh;
  }

  pub Calls-trans :
      (xs ys : List Remote) (s s1 s2 : Copied State)
      → Kept accepts s.server s1.server
      → Kept accepts s1.server s2.server
      → Calls xs s s1
      → Calls ys s1 s2
      → Calls (xs ++ ys) s s2
  Calls-trans xs ys s s1 s2 keeps keeps' h k = record {
    contexts = h.contexts ++ k.contexts;
    lead = map-append _ h.contexts k.contexts ∙ ap₂ ◌++◌ h.lead k.lead;
    set =
        All-append accepts _ h.contexts k.contexts
          (contexts-Kept s1.server s2.server keeps' h.contexts h.set) k.set;
    fresh =
        All-append accepts _ h.contexts k.contexts h.fresh
          (contexts-fresh s.server s1.server keeps k.contexts k.fresh);
  }

  -- What a copy with these variables, and with these to lead back to, has done.
  pub record Copies (mode : Synchronization) (variables : List NodeId) (remotes : List Remote)
      (s after : Copied State) : Type 0 where
    pub queues : Queues accepts (queued mode variables) s after
    pub calls : Calls remotes s after

  pub Copies-trans :
      (mode : Synchronization) (xs ys : List NodeId) (cs ds : List Remote) (s s1 s2 : Copied State)
      → Copies mode xs cs s s1
      → Copies mode ys ds s1 s2
      → Copies mode (xs ++ ys) (cs ++ ds) s s2
  Copies-trans mode xs ys cs ds s s1 s2 h k = record {
    queues =
        subst (λ ids. Queues accepts ids s s2) (sym (queued-append mode xs ys))
          (Queues-trans accepts (queued mode xs) (queued mode ys) s s1 s2 h.queues k.queues);
    calls = Calls-trans cs ds s s1 s2 h.queues.keeps k.queues.keeps h.calls k.calls;
  }

  pub Copies-after :
      (mode : Synchronization) (xs : List NodeId) (cs : List Remote) (s s1 s2 : Copied State)
      → Kept accepts s.server s1.server
      → s1.subscription_nodes ≡ s.subscription_nodes
      → Copies mode xs cs s1 s2
      → Copies mode xs cs s s2
  Copies-after mode xs cs s s1 s2 h e k = record {
    queues = Queues-after accepts (queued mode xs) s s1 s2 h e k.queues;
    calls = Calls-after cs s s1 s2 h k.calls;
  }

  pub Copies-self : (mode : Synchronization) (s : Copied State) → Copies mode [] [] s s
  Copies-self mode s = record {
    queues = subst (λ ids. Queues accepts ids s s) (sym (queued-nil mode)) (Queues-self accepts s);
    calls = Calls-self s;
  }
