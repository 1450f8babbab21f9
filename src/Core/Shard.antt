-- ===== src/Core/Shard.antt =====
-- src/core/shard.h: `Shard`, a bounded store with the order of use and the expiry times of its
-- keys. The mutex makes each method one step. `now` is the reading of the clock that the method
-- makes; `GetAllKeys` reads the clock for each entry.
pub mod Invariant
pub mod Place
pub mod Writes
pub mod Replies
pub mod Reads
pub mod Sweep
pub mod Room
pub mod Tracked
use kvmemo.Base.{
  ℕ, ◌+◌, Str, Str_eq, List, [], ◌∷◌, Option, none, some, Bool, true, false, not, lookup, insert,
  erase, length, Outcome, returns, throws, if◌then◌else◌,
}
use kvmemo.Core.Entry.{Entry, with_ttl, without_ttl, has_ttl, is_expired}
use kvmemo.Core.Lru
use kvmemo.Core.Lru.{LruCache, touch, pop_eviction_candidate}
use kvmemo.Core.Ttl
use kvmemo.Core.Ttl.{TtlIndex, upsert, collect_expired}

pub record Shard : Type 0 where
  pub capacity : ℕ
  pub store : List (Str × Entry)
  pub lru : LruCache
  pub ttl_index : TtlIndex

unfoldable pub remove_internal : Str → Shard → Shard
remove_internal key s = record s {
  store = erase key s.store;
  lru = Lru.remove key s.lru;
  ttl_index = Ttl.remove key s.ttl_index;
}

-- what is left of `EvictOne` when `PopEvictionCandidate` has returned or thrown
abbrev forget : Outcome Str → Shard → Outcome (Unit {0}) × Shard
forget (throws x) s = (throws x, s)
forget (returns victim) s = (
  returns tt,
  record s { store = erase victim s.store; ttl_index = Ttl.remove victim s.ttl_index },
)

unfoldable pub evict_one : Shard → Outcome (Unit {0}) × Shard
evict_one s = elim s.store [
  | [] ↦ (returns tt, s)
  | _ ∷ _ ↦
      let (victim, lru') = pop_eviction_candidate s.lru in forget victim (record s { lru = lru' })
]

abbrev pub empty_with : ℕ → LruCache → Shard
empty_with capacity lru = record { capacity = capacity; store = []; lru = lru; ttl_index = Ttl.new }

-- the constructor; what the constructor of `lru_` throws leaves it too
unfoldable pub new : ℕ → Outcome Shard
new capacity = elim (Lru.new capacity) [
  | throws x ↦ throws x
  | returns lru ↦ returns (empty_with capacity lru)
]

unfoldable pub set : ℕ → Str → Str → Shard → Outcome (Unit {0}) × Shard
set now key value s =
    let store' = insert key (without_ttl now value) s.store in
    let (lru', overflow) = touch key s.lru in
    let s' = record s { store = store'; lru = lru'; ttl_index = Ttl.remove key s.ttl_index } in
    if overflow then evict_one s' else (returns tt, s')

unfoldable pub set_with_ttl : ℕ → Str → Str → ℕ → Shard → Outcome (Unit {0}) × Shard
set_with_ttl now key value ttl_ms s =
    let entry = with_ttl now value ttl_ms in
    let store' = insert key entry s.store in
    let (lru', overflow) = touch key s.lru in
    let index = if has_ttl entry then upsert key entry.expire_at s.ttl_index else s.ttl_index in
    let s' = record s { store = store'; lru = lru'; ttl_index = index } in
    if overflow then evict_one s' else (returns tt, s')

unfoldable pub get : ℕ → Str → Shard → Option Str × Shard
get now key s = elim (lookup key s.store) [
  | none ↦ (none, s)
  | some entry ↦
      if is_expired now entry
      then (none, remove_internal key s)
      else (some entry.value, record s { lru = (touch key s.lru).0 })
]

unfoldable pub delete : Str → Shard → Shard
unfolding remove_internal
delete key s = remove_internal key s

unfoldable pub size : Shard → ℕ
size s = length s.store

-- the loop of `GetAllKeys`, from the `i`-th reading of the clock on
unfoldable pub live_pairs : (ℕ → ℕ) → ℕ → List (Str × Entry) → List (Str × Str)
live_pairs clock i [] = []
live_pairs clock i ((key, entry) ∷ store) =
    let rest = live_pairs clock (i + 1) store in
    if not (is_expired (clock i) entry) then (key, entry.value) ∷ rest else rest

unfoldable pub get_all_keys : (ℕ → ℕ) → Shard → List (Str × Str)
unfolding live_pairs
get_all_keys clock s = live_pairs clock 0 s.store

-- the loop of `CleanupExpired`
unfoldable pub remove_each : List Str → Shard → Shard
remove_each [] s = s
remove_each (key ∷ keys) s = remove_each keys (remove_internal key s)

unfoldable pub cleanup_expired : ℕ → Shard → Shard
unfolding remove_each
cleanup_expired now s =
    let (expired_keys, index) = collect_expired now s.ttl_index in
    remove_each expired_keys (record s { ttl_index = index })
