-- ===== src/NodeIterator/Queues.antt =====
-- What a copy leaves in the queue of the subscription nodes.
use mathlib.Core.List.{append_assoc, reverse-append, map-append}
use swap_it_registry_module.Prelude.{
  sym, ap, ap₂, subst, ◌∙◌, refl, map, ◌≡◌, List, [], ◌∷◌, ◌++◌, ◌≢◌, All, Distinct, reverse,
}
use swap_it_registry_module.Ua.{NodeId}
use swap_it_registry_module.Values.{DataTypes}
use swap_it_registry_module.Config.{
  Synchronization, subscription, callback_read, callback_read_write,
}
use swap_it_registry_module.NodeIterator.{Passed, Copied, AggregateNodeId, NodeServer}
use swap_it_registry_module.NodeIterator.Reached.{Keeps, Accepts}

-- What is put into the queue of the subscription nodes, in each of the modes.
abbrev pub queued : Synchronization → List NodeId → List NodeId
queued subscription xs = reverse xs
queued callback_read xs = []
queued callback_read_write xs = []

pub queued-append :
    (mode : Synchronization) (xs ys : List NodeId)
    → queued mode (xs ++ ys) ≡ queued mode ys ++ queued mode xs
queued-append subscription xs ys = reverse-append xs ys
queued-append callback_read xs ys = refl
queued-append callback_read_write xs ys = refl

pub queued-nil : (mode : Synchronization) → queued mode [] ≡ []
queued-nil subscription = refl
queued-nil callback_read = refl
queued-nil callback_read_write = refl

-- The nodes of the registry in a queue.
abbrev pub local_ids : List AggregateNodeId → List NodeId
local_ids = map (λ n. n.node_id_on_aggregation_server)

module _ {d : DataTypes} {p : Passed} {server : NodeServer d p} (accepts : Accepts d p server) where
  open server.space use {State}
  open accepts use {Has, attached}

  -- The server has its nodes with their contexts and callbacks.
  abbrev pub Kept : State → State → Type 0
  Kept = Keeps Has attached

  pub Kept-trans : (st st' st2 : State) → Kept st st' → Kept st' st2 → Kept st st2
  Kept-trans st st' st2 h k n has =
      let (has', e) = h n has in let (has2, e2) = k n has' in (has2, e2 ∙ e)

  pub All-append :
      {A : Type 0} (P : A → Type 0) (xs ys : List A) → All P xs → All P ys → All P (xs ++ ys)
  All-append P [] ys h k = k
  All-append P (x ∷ xs) ys h k = (h.0, All-append P xs ys h.1 k)

  All-Keeps :
      (st st' : State)
      → Kept st st'
      → (queue : List AggregateNodeId) → All (λ n. Has st n.node_id_on_aggregation_server) queue
      → All (λ n. Has st' n.node_id_on_aggregation_server) queue
  All-Keeps st st' k [] h = _
  All-Keeps st st' k (n ∷ queue) h =
      ((k n.node_id_on_aggregation_server h.0).0, All-Keeps st st' k queue h.1)

  -- Nodes that a state has not, apart from nodes that it has.
  differs :
      (st : State) (x : NodeId) (ys : List AggregateNodeId)
      → (¬ (Has st x))
      → All (λ n. Has st n.node_id_on_aggregation_server) ys
      → All (λ y. x ≢ y) (local_ids ys)
  differs st x [] lacks h = _
  differs st x (y ∷ ys) lacks h =
      (λ e. lacks (subst (Has st) (sym e) h.0), differs st x ys lacks h.1)

  Distinct-new :
      (st : State) (xs ys : List AggregateNodeId)
      → All (λ n. ¬ (Has st n.node_id_on_aggregation_server)) xs
      → All (λ n. Has st n.node_id_on_aggregation_server) ys
      → Distinct (local_ids xs)
      → Distinct (local_ids ys)
      → Distinct (local_ids (xs ++ ys))
  Distinct-new st [] ys lacks h d e = e
  Distinct-new st (x ∷ xs) ys lacks h d e = (
    subst (All λ y. x.node_id_on_aggregation_server ≢ y)
        (sym (map-append (λ n. n.node_id_on_aggregation_server) xs ys))
        (All-append _ (local_ids xs) (local_ids ys) d.0
          (differs st x.node_id_on_aggregation_server ys lacks.0 h)),
    Distinct-new st xs ys lacks.1 h d.1 e,
  )

  All-fresh :
      (st st' : State)
      → Kept st st'
      → (queue : List AggregateNodeId)
      → All (λ n. ¬ (Has st' n.node_id_on_aggregation_server)) queue
      → All (λ n. ¬ (Has st n.node_id_on_aggregation_server)) queue
  All-fresh st st' k [] h = _
  All-fresh st st' k (n ∷ queue) h =
      (λ has. h.0 (k n.node_id_on_aggregation_server has).0, All-fresh st st' k queue h.1)

  -- The server keeps its nodes, and these nodes of the agent have come into the queue, each beside a node
  -- of its own that the server has now, and had not before.
  pub record Queues (ids : List NodeId) (s after : Copied State) : Type 0 where
    pub keeps : Kept s.server after.server
    pub new : List AggregateNodeId
    pub queue : after.subscription_nodes ≡ new ++ s.subscription_nodes
    pub remote : map (λ n. n.node_id) new ≡ ids
    pub local : All (λ n. Has after.server n.node_id_on_aggregation_server) new
    pub fresh : All (λ n. ¬ (Has s.server n.node_id_on_aggregation_server)) new
    pub distinct : Distinct (local_ids new)

  pub Queues-self : (s : Copied State) → Queues [] s s
  Queues-self s = record {
    keeps = λ n has. (has, refl);
    new = [];
    queue = refl;
    remote = refl;
    local = _;
    fresh = _;
    distinct = _;
  }

  -- What is done before, and leaves the queue.
  pub Queues-after :
      (ids : List NodeId) (s s1 s2 : Copied State)
      → Kept s.server s1.server
      → s1.subscription_nodes ≡ s.subscription_nodes
      → Queues ids s1 s2
      → Queues ids s s2
  Queues-after ids s s1 s2 h e k = record {
    keeps = Kept-trans s.server s1.server s2.server h k.keeps;
    new = k.new;
    queue = k.queue ∙ ap (◌++◌ k.new) e;
    remote = k.remote;
    local = k.local;
    fresh = All-fresh s.server s1.server h k.new k.fresh;
    distinct = k.distinct;
  }

  pub Queues-trans :
      (xs ys : List NodeId) (s s1 s2 : Copied State)
      → Queues xs s s1
      → Queues ys s1 s2
      → Queues (ys ++ xs) s s2
  Queues-trans xs ys s s1 s2 h k = record {
    keeps = Kept-trans s.server s1.server s2.server h.keeps k.keeps;
    new = k.new ++ h.new;
    queue = k.queue ∙ ap (◌++◌ k.new) h.queue ∙ sym (append_assoc k.new h.new s.subscription_nodes);
    remote = map-append (λ n. n.node_id) k.new h.new ∙ ap₂ ◌++◌ k.remote h.remote;
    local = All-append _ k.new h.new k.local (All-Keeps s1.server s2.server k.keeps h.new h.local);
    fresh = All-append _ k.new h.new (All-fresh s.server s1.server h.keeps k.new k.fresh) h.fresh;
    distinct = Distinct-new s1.server k.new h.new k.fresh h.local k.distinct h.distinct;
  }
