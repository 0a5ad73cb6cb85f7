-- ===== src/Config/Laws.antt =====
-- What is loaded from a well-formed document.
use mathlib.Core.List.{append_assoc, append-nil}
use swap_it_registry_module.Prelude.{
  ℕ, ◌+◌, ◌≡◌, refl, ap, ◌∙◌, none, some, List, [], ◌∷◌, ◌++◌, map, Bytes, codes, length,
  starts_with,
}
use swap_it_registry_module.Ua.{NodeId}
use swap_it_registry_module.NodePath.{node_path}
use swap_it_registry_module.Register.{NodeAdder}
use swap_it_registry_module.Config.{
  Cj5, MappingEntry, synchronization_of, Aggregate, done, ◌>>=◌, modify_last,
}
use swap_it_registry_module.Config.Service.{ServiceNode, provide_service}
use swap_it_registry_module.Config.Tokens.{
  Document, Text, Describes, Entries, end_of, in_object, in_defaults, with_str-Text, with_int-Whole,
  with_size-Size,
}
use swap_it_registry_module.Config.Load.{
  Load, load_mapping, load_mappings, load_aggregate, load_aggregates, load_defaults, load_document,
}

pub modify_last-append {ℓ} :
    {A : Type ℓ} (f : A → A) (xs : List A) (a : A) → modify_last f (xs ++ a ∷ []) ≡ xs ++ f a ∷ []
modify_last-append f [] a = refl
modify_last-append f (x ∷ []) a = refl
modify_last-append f (x ∷ y ∷ xs) a = ap (◌∷◌ x) (modify_last-append f (y ∷ xs) a)

module _ (c : Cj5) (r : c.Result) where
  open c use {Number, find}

  module _ (server : NodeAdder)
      (write_value : server.space.State → NodeId → Bytes → server.space.State) (fuel : ℕ) where
    abbrev pub entry_of : Bytes → Bytes × Bytes → MappingEntry
    entry_of buf_module e = record {
      node_path = some (node_path buf_module e.0).contents;
      synchronization = synchronization_of e.1;
    }

    abbrev with_entries : Bytes → Aggregate → List (Bytes × Bytes) → Aggregate
    with_entries buf_module a es = record a {
      mapping_entrys = a.mapping_entrys ++ map (entry_of buf_module) es;
    }

    abbrev State : Type 0
    State = Load c server write_value fuel

    -- A state whose last aggregate is `a`, with the index at `idx`.
    abbrev at : State → List Aggregate → Aggregate → ℕ → State
    at s before a idx = record s {
      idx = idx;
      asc = record s.asc { aggregate_config = before ++ a ∷ [] };
    }

    load_mapping-Text :
        (buf_module : Bytes) (s : State) (before : List Aggregate) (a : Aggregate) (idx : ℕ)
        (e : Bytes × Bytes)
        → Text c r 256 (find r (idx + 1) (codes "entryNode")) e.0
        → Text c r 128 (find r (idx + 1) (codes "synchronization")) e.1
        → load_mapping c server write_value fuel r buf_module (at s before a idx)
          ≡ done (
              at s before
                (with_entries buf_module a (e ∷ []))
                (find r (idx + 1) (codes "synchronization")))
    unfolding load_mapping
    load_mapping-Text buf_module s before a idx e t u =
        with_str-Text c r 256 (find r (idx + 1) (codes "entryNode")) e.0 _ _ t
        ∙ with_str-Text c r 128 (find r (idx + 1) (codes "synchronization")) e.1 _ _ u
        ∙ simp modify_last-append

    load_mappings-Entries :
        (buf_module : Bytes) (s : State) (before : List Aggregate) (a : Aggregate) (idx : ℕ)
        (es : List (Bytes × Bytes))
        → Entries c r idx es
        → load_mappings c server write_value fuel r buf_module (length es) (at s before a idx)
          ≡ done (at s before (with_entries buf_module a es) (end_of c r idx es))
    unfolding load_mappings
    load_mappings-Entries buf_module s before a idx [] h = simp append-nil
    load_mappings-Entries buf_module s before a idx (e ∷ es) h =
        rw (load_mapping-Text buf_module s before a idx e h.0 h.1) (
          load_mappings-Entries buf_module s before (with_entries buf_module a (e ∷ []))
            (find r (idx + 1) (codes "synchronization")) es h.2
          ∙ simp append_assoc)

    -- The aggregate of a document.
    abbrev pub aggregate_of : Document Number → Aggregate
    aggregate_of doc = record {
      name = doc.service_name;
      ip = doc.address;
      port = doc.port;
      mapping_entrys = map (entry_of doc.module_type) doc.mapping;
      entry_nodes = none;
    }

    abbrev provided : State → Bytes → server.space.State × ServiceNode
    provided s = provide_service server write_value fuel s.state s.s_node

    -- The state after the aggregate, and after the whole document.
    abbrev aggregate_loaded : Document Number → State → State
    aggregate_loaded doc s = record {
      idx = end_of c r (in_object c r "mapping") doc.mapping;
      asc = record s.asc { aggregate_config = s.asc.aggregate_config ++ aggregate_of doc ∷ [] };
      state = (provided s doc.service_name).0;
      s_node = (provided s doc.service_name).1;
      buf_module = some doc.module_type;
    }

    abbrev pub loaded : Document Number → State → State
    loaded doc s = record (aggregate_loaded doc s) {
      idx = in_defaults c r "timeout";
      asc = record {
        aggregate_config = s.asc.aggregate_config ++ aggregate_of doc ∷ [];
        subscription_interval = some doc.subscription_interval;
        unsecure_allowed = starts_with doc.unsecure (codes "unse");
        aggregate_timeout = some doc.timeout;
      };
    }

    load_aggregate-Describes :
        (doc : Document Number) (s : State)
        → Describes c r doc
        → load_aggregate c server write_value fuel r
            (record s { idx = find r 0 (codes "aggregates") })
          ≡ done (aggregate_loaded doc s)
    unfolding load_aggregate
    load_aggregate-Describes doc s d =
        with_str-Text c r 256 (in_object c r "service_name") doc.service_name _ _ d.service
        ∙ with_str-Text c r 256 (in_object c r "address") doc.address _ _ d.address
        ∙ with_str-Text c r 256 (in_object c r "port") doc.port _ _ d.port
        ∙ with_str-Text c r 256 (in_object c r "moduleType") doc.module_type _ _ d.module_type
        ∙ with_size-Size c r (in_object c r "mapping") (length doc.mapping) _ d.size
        ∙ simp modify_last-append (
            load_mappings-Entries doc.module_type (aggregate_loaded doc s) s.asc.aggregate_config
              (record (aggregate_of doc) { mapping_entrys = [] }) (in_object c r "mapping")
              doc.mapping d.entries)

    load_defaults-Describes :
        (doc : Document Number) (s : State)
        → Describes c r doc
        → load_defaults c server write_value fuel r (aggregate_loaded doc s) ≡ done (loaded doc s)
    unfolding load_defaults
    load_defaults-Describes doc s d =
        with_int-Whole c r (in_defaults c r "subscription_interval") doc.subscription_interval _ _
          d.interval
        ∙ with_str-Text c r 64 (in_defaults c r "unsecure") doc.unsecure _ _ d.unsecure
        ∙ with_int-Whole c r (in_defaults c r "timeout") doc.timeout _ _ d.timeout

    pub load_document-Describes :
        (doc : Document Number) (s : State)
        → Describes c r doc
        → load_document c server write_value fuel r s ≡ done (loaded doc s)
    unfolding load_document load_aggregates
    load_document-Describes doc s d = rw d.printable (
        ap (λ o. o >>= load_defaults c server write_value fuel r)
          (with_size-Size c r (find r 0 (codes "aggregates")) 1 _ d.one
            ∙ ap (λ o. o >>= load_aggregates c server write_value fuel r 0)
                (load_aggregate-Describes doc s d))
        ∙ load_defaults-Describes doc s d)
