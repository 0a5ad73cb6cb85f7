-- ===== src/Config/Tokens.antt =====
-- What the tokens of a parsed document say: texts that fit into their buffers, sizes and numbers.
use Prim.Native.String.{String}
use swap_it_registry_module.Prelude.{
  ℕ, ◌+◌, ◌<◌, ◌≡◌, true, some, List, [], ◌∷◌, Bytes, codes, length, get_elem?, arith,
}
use swap_it_registry_module.Config.{Cj5, Token, Outcome, with_str, with_int, with_size}
use swap_it_registry_module.Config.Load.{prints}

-- What a configuration says.
pub record Document (Number : Type 0) : Type 0 where
  pub service_name : Bytes
  pub address : Bytes
  pub port : Bytes
  pub module_type : Bytes
  -- the names of the entry nodes, each with its mode of synchronisation
  pub mapping : List (Bytes × Bytes)
  pub subscription_interval : Number
  pub unsecure : Bytes
  pub timeout : Number

module _ (c : Cj5) (r : c.Result) where
  open c use {Number, tokens, find, get_str, get_int}

  -- The token at an index is a text that fits into a buffer.
  pub record Text (room idx : ℕ) (text : Bytes) : Type 0 where
    pub token : Token
    pub at : get_elem? (tokens r) idx ≡ some token
    pub fits : token.size < room
    pub reads : get_str r idx ≡ some text

  pub record Size (idx size : ℕ) : Type 0 where
    pub token : Token
    pub at : get_elem? (tokens r) idx ≡ some token
    pub sized : token.size ≡ size

  pub record Whole (idx : ℕ) (n : Number) : Type 0 where
    pub token : Token
    pub at : get_elem? (tokens r) idx ≡ some token
    pub reads : get_int r idx ≡ some n

  -- The place after the mapping entries, each of which ends with the key `synchronization`.
  abbrev pub end_of : ℕ → List (Bytes × Bytes) → ℕ
  end_of idx [] = idx
  end_of idx (e ∷ es) = end_of (find r (idx + 1) (codes "synchronization")) es

  abbrev pub Entries : ℕ → List (Bytes × Bytes) → Type 0
  Entries idx [] = Unit
  Entries idx (e ∷ es) =
      Text 256 (find r (idx + 1) (codes "entryNode")) e.0
      × Text 128 (find r (idx + 1) (codes "synchronization")) e.1
      × Entries (find r (idx + 1) (codes "synchronization")) es

  -- The values of keys of the one object below `aggregates`, and of the object `defaults`.
  abbrev pub in_object : String → ℕ
  in_object key = find r (find r 0 (codes "aggregates") + 1) (codes key)

  abbrev pub in_defaults : String → ℕ
  in_defaults key = find r (find r 0 (codes "defaults")) (codes key)

  pub with_str-Text {ℓ} :
      {S : Type ℓ} (room idx : ℕ) (text : Bytes) (s : S) (k : Bytes → Outcome S)
      → Text room idx text
      → with_str c r room idx s k ≡ k text
  unfolding with_str
  with_str-Text room idx text s k t = ground arith

  pub with_int-Whole {ℓ} :
      {S : Type ℓ} (idx : ℕ) (n : Number) (s : S) (k : Number → Outcome S)
      → Whole idx n
      → with_int c r idx s k ≡ k n
  unfolding with_int
  with_int-Whole idx n s k t = ground arith

  pub with_size-Size {ℓ} :
      {S : Type ℓ} (idx size : ℕ) (k : ℕ → Outcome S) → Size idx size → with_size c r idx k ≡ k size
  unfolding with_size
  with_size-Size idx size k t = ground arith

  -- The document says what `doc` says, in texts that fit into their buffers, for one agent; and each
  -- token is short enough to be printed.
  pub record Describes (doc : Document Number) : Type 0 where
    pub printable : prints (tokens r) ≡ true
    pub one : Size (find r 0 (codes "aggregates")) 1
    pub service : Text 256 (in_object "service_name") doc.service_name
    pub address : Text 256 (in_object "address") doc.address
    pub port : Text 256 (in_object "port") doc.port
    pub module_type : Text 256 (in_object "moduleType") doc.module_type
    pub size : Size (in_object "mapping") (length doc.mapping)
    pub entries : Entries (in_object "mapping") doc.mapping
    pub interval : Whole (in_defaults "subscription_interval") doc.subscription_interval
    pub unsecure : Text 64 (in_defaults "unsecure") doc.unsecure
    pub timeout : Whole (in_defaults "timeout") doc.timeout
