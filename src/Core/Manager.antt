-- ===== src/Core/Manager.antt =====
-- src/core/shard_manager.h: `ShardManager`, which routes a key to one of its shards by the hash of
-- the key. `std::hash` is the parameter `hash`.
pub mod Routing
pub mod Replies
pub mod Room
pub mod Store
pub mod Listing
use kvmemo.Base.{
  ℕ, suc, ◌%◌, Str, List, [], ◌∷◌, ◌++◌, Option, none, some, get_elem?, set, replicate, length,
  ◌==◌, Outcome, returns, throws, invalid_argument, out_of_range, if◌then◌else◌,
}
use kvmemo.Core.Shard
use kvmemo.Core.Shard.{Shard}

pub record ShardManager : Type 0 where
  pub shard_count : ℕ
  pub shards : List Shard

-- Every shard is built with the same capacity; the first constructor to throw ends it.
unfoldable pub new : ℕ → ℕ → Outcome ShardManager
new shard_count shard_capacity =
    if shard_count == 0 then throws invalid_argument else elim (Shard.new shard_capacity) [
      | throws x ↦ throws x
      | returns s ↦ returns (record { shard_count = shard_count; shards = replicate shard_count s })
    ]

-- The readings of the clock: `clock i j` is the `j`-th one that shard `i` makes.
unfoldable pub list_from : (ℕ → ℕ → ℕ) → List Shard → List (Str × Str)
list_from clock [] = []
list_from clock (s ∷ shards) =
    Shard.get_all_keys (clock 0) s ++ list_from (λ i. clock (suc i)) shards

unfoldable pub get_all_keys : (ℕ → ℕ → ℕ) → ShardManager → List (Str × Str)
unfolding list_from
get_all_keys clock m = list_from clock m.shards

unfoldable pub cleanup_each : ℕ → List Shard → List Shard
cleanup_each now [] = []
cleanup_each now (s ∷ shards) = Shard.cleanup_expired now s ∷ cleanup_each now shards

unfoldable pub cleanup_expired : ℕ → ShardManager → ShardManager
unfolding cleanup_each
cleanup_expired now m = record m { shards = cleanup_each now m.shards }

module _ (hash : Str → ℕ) where
  -- the index in `GetShard`
  unfoldable pub index_of : Str → ShardManager → ℕ
  index_of key m = hash key % m.shard_count

  -- `*shards_[index]`: an index out of range is undefined behaviour, and is `out_of_range` here.
  unfoldable pub on_shard :
      {A : Type 0} → Str → (Shard → Outcome A × Shard) → ShardManager → Outcome A × ShardManager
  on_shard key f m = elim (get_elem? m.shards (index_of key m)) [
    | none ↦ (throws out_of_range, m)
    | some s ↦ let (r, s') = f s in (r, record m { shards = set m.shards (index_of key m) s' })
  ]

  unfoldable pub set_key : ℕ → Str → Str → ShardManager → Outcome (Unit {0}) × ShardManager
  set_key now key value m = on_shard key (Shard.set now key value) m

  unfoldable pub set_with_ttl : ℕ → Str → Str → ℕ → ShardManager → Outcome (Unit {0}) × ShardManager
  set_with_ttl now key value ttl_ms m = on_shard key (Shard.set_with_ttl now key value ttl_ms) m

  unfoldable pub get : ℕ → Str → ShardManager → Outcome (Option Str) × ShardManager
  get now key m = on_shard key (λ s. let (v, s') = Shard.get now key s in (returns v, s')) m

  unfoldable pub delete : Str → ShardManager → Outcome (Unit {0}) × ShardManager
  delete key m = on_shard key (λ s. (returns tt, Shard.delete key s)) m
