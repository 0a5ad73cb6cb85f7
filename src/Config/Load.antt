-- ===== src/Config/Load.antt =====
-- `loadRegisterAgentConfig`: the loops over the aggregates and over their mapping entries, and the
-- defaults. The index into the tokens is part of the state: a search that finds nothing leaves it, and
-- each round starts one token after the place where the last one stopped.
use swap_it_registry_module.Prelude.{
  ℕ, zero, suc, ◌+◌, ◌-◌, Bool, all, if◌then◌else◌, Option, some, List, [], ◌∷◌, ◌++◌, Bytes, codes,
  starts_with, ltb,
}
use swap_it_registry_module.Ua.{NodeId}
use swap_it_registry_module.NodePath.{node_path}
use swap_it_registry_module.Register.{NodeAdder}
use swap_it_registry_module.Config.{
  Cj5, Token, MappingEntry, new_entry, synchronization_of, Aggregate, ServerConfig, Outcome, done,
  undefined, ◌>>=◌, no_aggregate, modify_last, with_str, with_int, with_size,
}
use swap_it_registry_module.Config.Service.{ServiceNode, provide_service}

-- What the function works on. `buf_module` is not initialised before the first aggregate.
pub record Loading (Number State : Type 0) : Type 0 where
  pub idx : ℕ
  pub asc : ServerConfig Number
  pub state : State
  pub s_node : ServiceNode
  pub buf_module : Option Bytes

-- Lines 133 to 141: each token is printed from an array of 1024 bytes, with a terminator behind it.
unfoldable pub prints : List Token → Bool
prints = all (λ t. ltb (t.last + 1 - t.start) 1024)

module _ (c : Cj5) (server : NodeAdder)
    (write_value : server.space.State → NodeId → Bytes → server.space.State) (fuel : ℕ) where
  open c use {Result, Number, tokens, find}

  abbrev pub Load : Type 0
  Load = Loading Number server.space.State

  -- The index is moved to the value of a key, from where it is.
  abbrev pub seek : Result → Bytes → Load → Load
  seek r key s = record s { idx = find r s.idx key }

  abbrev pub modify_aggregate : (Aggregate → Aggregate) → Load → Load
  modify_aggregate f s = record s {
    asc = record s.asc { aggregate_config = modify_last f s.asc.aggregate_config };
  }

  -- A write to `mappingEntrys[j]`, the last entry of the last aggregate.
  abbrev pub modify_entry : (MappingEntry → MappingEntry) → Load → Load
  modify_entry f =
      modify_aggregate λ a. record a { mapping_entrys = modify_last f a.mapping_entrys }

  -- One round of the loop over the mapping entries.
  unfoldable pub load_mapping : Result → Bytes → Load → Outcome Load
  load_mapping r buf_module s =
      let object = s.idx + 1 in
      let s1 = seek r (codes "entryNode") (
        modify_aggregate (λ a. record a { mapping_entrys = a.mapping_entrys ++ new_entry ∷ [] })
          (record s { idx = object })) in
      with_str c r 256 s1.idx s1 λ entry.
        let path = (node_path buf_module entry).contents in
        let s2 =
          seek r (codes "synchronization")
            (modify_entry (λ e. record e { node_path = some path }) (record s1 { idx = object })) in
        with_str c r 128 s2.idx s2 λ buf_sync.
          done (modify_entry (λ e. record e { synchronization = synchronization_of buf_sync }) s2)

  unfoldable pub load_mappings : Result → Bytes → ℕ → Load → Outcome Load
  unfolding load_mapping
  load_mappings r buf_module zero s = done s
  load_mappings r buf_module (suc left) s =
      load_mapping r buf_module s >>= load_mappings r buf_module left

  -- One round of the loop over the aggregates.
  unfoldable pub load_aggregate : Result → Load → Outcome Load
  unfolding load_mappings provide_service
  load_aggregate r s0 =
      let object = s0.idx + 1 in
      let s = record s0 {
        idx = object;
        asc = record s0.asc { aggregate_config = s0.asc.aggregate_config ++ no_aggregate ∷ [] };
      } in
      let s1 = seek r (codes "service_name") s in
      with_str c r 256 s1.idx s1 λ name.
        let provided = provide_service server write_value fuel s1.state s1.s_node name in
        let s2 = seek r (codes "address") (
          modify_aggregate (λ a. record a { name = name })
            (record s1 { idx = object; state = provided.0; s_node = provided.1 })) in
        with_str c r 256 s2.idx s2 λ address.
          let s3 =
            seek r (codes "port")
              (modify_aggregate (λ a. record a { ip = address }) (record s2 { idx = object })) in
          with_str c r 256 s3.idx s3 λ port.
            let s4 =
              seek r (codes "moduleType")
                (modify_aggregate (λ a. record a { port = port }) (record s3 { idx = object })) in
            with_str c r 256 s4.idx s4 λ buf_module.
              let s5 =
                seek r (codes "mapping")
                  (record s4 { idx = object; buf_module = some buf_module }) in
              with_size c r s5.idx λ size. load_mappings r buf_module size s5

  unfoldable pub load_aggregates : Result → ℕ → Load → Outcome Load
  unfolding load_aggregate
  load_aggregates r zero s = done s
  load_aggregates r (suc left) s = load_aggregate r s >>= load_aggregates r left

  -- Lines 279 to 313. `memcmp` reads four of the five letters of "unsec".
  unfoldable pub load_defaults : Result → Load → Outcome Load
  load_defaults r s =
      let object = find r 0 (codes "defaults") in
      let s1 = seek r (codes "subscription_interval") (record s { idx = object }) in
      with_int c r s1.idx s1 λ interval.
        let s2 = seek r (codes "unsecure") (record s1 {
          idx = object;
          asc = record s1.asc { subscription_interval = some interval };
        }) in
        with_str c r 64 s2.idx s2 λ buf_unsecure.
          let s3 = seek r (codes "timeout") (record s2 {
            idx = object;
            asc = record s2.asc { unsecure_allowed = starts_with buf_unsecure (codes "unse") };
          }) in
          with_int c r s3.idx s3
            λ timeout. done (record s3 { asc = record s3.asc { aggregate_timeout = some timeout } })

  -- The parsed document: its tokens are printed, then come the aggregates and the defaults.
  unfoldable pub load_document : Result → Load → Outcome Load
  unfolding load_aggregates load_defaults prints
  load_document r s =
      let s1 = seek r (codes "aggregates") (record s { idx = 0 }) in
      if prints (tokens r)
      then with_size c r s1.idx (λ size. load_aggregates r size s1) >>= load_defaults r
      else undefined
