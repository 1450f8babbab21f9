-- ===== src/Core/Engine.antt =====
-- src/core/kv_engine.h: `KVEngine`, which keeps the shards, a TTL index of its own and the eviction
-- manager. The engine has no lock: a call is one step, as the single-threaded server makes it;
-- Threads takes the calls apart. A call takes the readings of the clock that it makes, in order.
-- What a call of the shards throws skips the rest.
pub mod Expiry
pub mod History
pub mod Meaning
pub mod Evictions
pub mod Room
pub mod Threads
pub mod Replies
use kvmemo.Base.{
  ℕ, ◌+◌, Str, str, List, [], ◌∷◌, Option, none, some, Outcome, returns, throws, add64,
  if◌then◌else◌,
}
use kvmemo.Core.Manager as Shards
use kvmemo.Core.Manager.{ShardManager}
use kvmemo.Core.Ttl
use kvmemo.Core.Ttl.{TtlIndex, upsert, collect_expired}
use kvmemo.Eviction.Manager as Eviction
use kvmemo.Eviction.Manager.{EvictionManager, collect}
use kvmemo.Eviction.Policy.{EvictionPolicy}

pub record Engine (P : Type 0) : Type 0 where
  pub shard_manager : ShardManager
  pub ttl_index : TtlIndex
  pub eviction_manager : EvictionManager P

-- A call of the shards, and what follows if it returns.
abbrev pub then_do :
    {P A B : Type 0}
    → Outcome A × ShardManager
    → Engine P
    → (A → Engine P → Outcome B × Engine P)
    → Outcome B × Engine P
then_do (throws x, m) e k = (throws x, record e { shard_manager = m })
then_do (returns a, m) e k = k a (record e { shard_manager = m })

unfoldable pub ping : {P : Type 0} → Engine P → Str
ping e = str "PONG"

unfoldable pub get_all_keys : {P : Type 0} → (ℕ → ℕ → ℕ) → Engine P → List (Str × Str)
get_all_keys clock e = Shards.get_all_keys clock e.shard_manager

module _ (hash : Str → ℕ) {P : Type 0} (policy : EvictionPolicy P) where
  -- `now` is read by the entry and `now'` by the engine, if there is a TTL.
  unfoldable pub set : ℕ → ℕ → Str → Str → Option ℕ → Engine P → Outcome (Unit {0}) × Engine P
  set now now' key value (some ttl_ms) e =
      then_do (Shards.set_with_ttl hash now key value ttl_ms e.shard_manager) e λ _ e'. (
        returns tt,
        record e' {
          ttl_index = upsert key (add64 now' ttl_ms) e'.ttl_index;
          eviction_manager = Eviction.write policy key e'.eviction_manager;
        },
      )
  set now now' key value none e =
      then_do (Shards.set_key hash now key value e.shard_manager) e λ _ e'. (
        returns tt,
        record e' {
          ttl_index = Ttl.remove key e'.ttl_index;
          eviction_manager = Eviction.write policy key e'.eviction_manager;
        },
      )

  -- `OnRead`, if there is a value
  abbrev pub note_read : Str → Option Str → Engine P → Engine P
  note_read key none e = e
  note_read key (some v) e = record e {
    eviction_manager = Eviction.read policy key e.eviction_manager;
  }

  unfoldable pub get : ℕ → Str → Engine P → Outcome (Option Str) × Engine P
  get now key e =
      then_do (Shards.get hash now key e.shard_manager) e
        λ value e'. (returns value, note_read key value e')

  unfoldable pub delete : Str → Engine P → Outcome (Unit {0}) × Engine P
  delete key e = then_do (Shards.delete hash key e.shard_manager) e λ _ e'. (
    returns tt,
    record e' {
      ttl_index = Ttl.remove key e'.ttl_index;
      eviction_manager = Eviction.delete policy key e'.eviction_manager;
    },
  )

  -- the loop of `ProcessExpired`
  unfoldable pub expire_each : List Str → Engine P → Outcome (Unit {0}) × Engine P
  expire_each [] e = (returns tt, e)
  expire_each (key ∷ keys) e = then_do (Shards.delete hash key e.shard_manager) e λ _ e'.
      expire_each keys
        (record e' { eviction_manager = Eviction.delete policy key e'.eviction_manager })

  unfoldable pub process_expired : ℕ → Engine P → Outcome (Unit {0}) × Engine P
  unfolding expire_each
  process_expired now e =
      let (expired_keys, index) = collect_expired now e.ttl_index in
      expire_each expired_keys (record e { ttl_index = index })

  -- the loop of `ProcessEvictions`
  unfoldable pub evict_each : List Str → Engine P → Outcome (Unit {0}) × Engine P
  evict_each [] e = (returns tt, e)
  evict_each (key ∷ keys) e =
      then_do (Shards.delete hash key e.shard_manager) e
        λ _ e'. evict_each keys (record e' { ttl_index = Ttl.remove key e'.ttl_index })

  -- the loop over the victims, if there are any
  abbrev pub evict_victims :
      Engine P → Outcome (List Str) × EvictionManager P → Outcome (Unit {0}) × Engine P
  evict_victims e (throws x, m) = (throws x, record e { eviction_manager = m })
  evict_victims e (returns victims, m) = evict_each victims (record e { eviction_manager = m })

  -- `none` if the fuel of the loop that collects the victims runs out.
  unfoldable pub process_evictions : ℕ → Engine P → Option (Outcome (Unit {0}) × Engine P)
  process_evictions fuel e = elim (collect policy fuel e.eviction_manager []) [
    | none ↦ none
    | some r ↦ some (evict_victims e r)
  ]
