-- ===== src/Config.antt =====
-- src/registry_module_config_parse.c: the configuration of an agent, which the parser cj5 takes apart.
-- The parser is a copy of another project's library and a parameter here; so is the server.
pub mod Service
pub mod Load
pub mod Tokens
pub mod Laws
use swap_it_registry_module.Prelude.{
  ℕ, ◌+◌, Bool, Option, none, some, List, [], ◌∷◌, Bytes, codes, starts_with, ltb, get_elem?,
  if◌then◌else◌,
}
use swap_it_registry_module.Register.{EntryNodes}

pub data TokenType : Type 0 where
  object array number string boolean null : TokenType

-- `cj5_token`: `start` and `last` are the places of its first and last byte, `size` is the number of
-- children of an object or array, else the length of the token.
pub record Token : Type 0 where
  pub type : TokenType
  pub start : ℕ
  pub last : ℕ
  pub size : ℕ

pub record Cj5 : Type 1 where
  pub Result : Type 0
  pub Number : Type 0
  -- `cj5_parse` with room for 256 tokens; `none` where it reports an error
  pub parse : Bytes → Option Result
  pub tokens : Result → List Token
  -- `cj5_find`: the index after it, which stays where the key is not found
  pub find : Result → ℕ → Bytes → ℕ
  -- `cj5_get_str` and `cj5_get_int`; `none` where they report an error
  pub get_str : Result → ℕ → Option Bytes
  pub get_int : Result → ℕ → Option Number

-- `UA_AggregateSynchronization`, but for the value that no text stands for
pub data Synchronization : Type 0 where
  subscription callback_read callback_read_write : Synchronization

-- The chain of `memcmp` on `buf_sync`. `none`: the member is not written.
unfoldable pub synchronization_of : Bytes → Option Synchronization
synchronization_of buf_sync =
    if starts_with buf_sync (codes "subs")
    then some subscription
    else if starts_with buf_sync (codes "on-demand-read-write")
    then some callback_read_write
    else if starts_with buf_sync (codes "on-demand-read")
    then some callback_read
    else none

-- `UA_AggregateMappingConfig`; `none` for a member that is not yet written
pub record MappingEntry : Type 0 where
  pub node_path : Option Bytes
  pub synchronization : Option Synchronization

-- The members of `UA_AggregateConfig` that the configuration and the registration fill; `none` for the
-- ids of nodes that are still zero
pub record Aggregate : Type 0 where
  pub name : Bytes
  pub ip : Bytes
  pub port : Bytes
  pub mapping_entrys : List MappingEntry
  pub entry_nodes : Option EntryNodes

-- `UA_AggregationServerConfig`; `none` for a number that is still zero
pub record ServerConfig (Number : Type 0) : Type 0 where
  pub aggregate_config : List Aggregate
  pub subscription_interval : Option Number
  pub unsecure_allowed : Bool
  pub aggregate_timeout : Option Number

-- How a step of the function ends: it goes on, it returns `UA_STATUSCODE_BADCONFIGURATIONERROR` with
-- what it has changed so far, or its behaviour is undefined.
pub data Outcome {ℓ} (S : Type ℓ) : Type ℓ where
  done : S → Outcome S
  bad_configuration : S → Outcome S
  undefined : Outcome S

infixl 5 ◌>>=◌
abbrev pub ◌>>=◌ {ℓ} : {S : Type ℓ} → Outcome S → (S → Outcome S) → Outcome S
done s >>= f = f s
bad_configuration s >>= f = bad_configuration s
undefined >>= f = undefined

-- The element that `realloc` adds to the mapping entries.
abbrev pub new_entry : MappingEntry
new_entry = record { node_path = none; synchronization = none }

-- `memset(..., 0, sizeof(UA_AggregateConfig))`
abbrev pub no_aggregate : Aggregate
no_aggregate = record { name = []; ip = []; port = []; mapping_entrys = []; entry_nodes = none }

-- A write to `aggregateConfig[aggregateConfigSize-1]`.
abbrev pub modify_last {ℓ} : {A : Type ℓ} → (A → A) → List A → List A
modify_last f [] = []
modify_last f (a ∷ []) = f a ∷ []
modify_last f (a ∷ b ∷ rest) = a ∷ modify_last f (b ∷ rest)

module _ (c : Cj5) where
  open c use {Result, Number, tokens, get_str, get_int}

  -- `cj5_get_str(&r, idx, buf, NULL)` into a buffer of `room` bytes, which has to hold one byte more
  -- than the token, and the test of its result.
  unfoldable pub with_str {ℓ} : {S : Type ℓ} → Result → ℕ → ℕ → S → (Bytes → Outcome S) → Outcome S
  with_str r room idx s k = elim (get_elem? (tokens r) idx) [
    | none ↦ undefined
    | some token ↦
        if ltb token.size room
        then elim (get_str r idx) [ none ↦ bad_configuration s | some buf ↦ k buf ]
        else undefined
  ]

  unfoldable pub with_int {ℓ} : {S : Type ℓ} → Result → ℕ → S → (Number → Outcome S) → Outcome S
  with_int r idx s k = elim (get_elem? (tokens r) idx) [
    | none ↦ undefined
    | some token ↦ elim (get_int r idx) [ none ↦ bad_configuration s | some n ↦ k n ]
  ]

  -- `tokens[idx].size`
  unfoldable pub with_size {ℓ} : {S : Type ℓ} → Result → ℕ → (ℕ → Outcome S) → Outcome S
  with_size r idx k = elim (get_elem? (tokens r) idx) [
    | none ↦ undefined
    | some token ↦ k token.size
  ]
