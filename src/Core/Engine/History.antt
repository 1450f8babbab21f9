-- ===== src/Core/Engine/History.antt =====
-- src/core/kv_engine.h: any history of commands, and the map that it means. The map forgets what
-- the engine evicts: the victim of a write, and the keys that `CollectEvictionCandidates` returns.
-- A call of `ProcessExpired` leaves the map as it is: a key is gone when its own time is over.
use kvmemo.Base.{
  ℕ, ◌+◌, ◌≤◌, ◌<◌, Str, Str_eq, List, [], ◌≡◌, Option, none, some, Outcome, if◌then◌else◌, leb,
  u64_mod, lookup, insert, erase, ◌∷◌, returns, throws,
}
use kvmemo.Core.Engine as Engine
use kvmemo.Core.Engine.{
  Engine, delete, get, process_expired, process_evictions, evict_victims, evict_each,
}
use kvmemo.Core.Engine.Replies.{lost}
use kvmemo.Core.Manager.Store as Store
use kvmemo.Core.Ttl
use kvmemo.Eviction.Manager.{EvictionManager, collect}
use kvmemo.Eviction.Policy.{EvictionPolicy}

-- The abstract store: the values of the keys, and when they end.
abbrev pub Model : Type 0
Model = List (Str × (Str × Option ℕ))

abbrev pub live_at : ℕ → Option (Str × Option ℕ) → Option Str
live_at now none = none
live_at now (some (v, none)) = some v
live_at now (some (v, some end)) = if leb end now then none else some v

abbrev pub meant : ℕ → Str → Model → Option Str
meant now key m = live_at now (lookup key m)

-- A key that a write evicts is forgotten.
abbrev pub lose : Option Str → Model → Model
lose none m = m
lose (some key) m = erase key m

unfoldable pub lose_all : List Str → Model → Model
lose_all [] m = m
lose_all (key ∷ keys) m = lose_all keys (erase key m)

-- The keys that `CollectEvictionCandidates` returns, if it does.
abbrev pub victims_of : {A : Type 0} → Option (Outcome (List Str) × A) → List Str
victims_of none = []
victims_of (some (throws x, a)) = []
victims_of (some (returns victims, a)) = victims

module _ (hash : Str → ℕ) {P : Type 0} (policy : EvictionPolicy P) where
  -- The engine of a new server.
  abbrev pub fresh : ℕ → ℕ → EvictionManager P → Engine P
  fresh shards capacity manager = record {
    shard_manager = Store.empty hash shards capacity;
    ttl_index = Ttl.new;
    eviction_manager = manager;
  }

  -- The engines that a history of commands reaches, each not before the one before it, with the
  -- time of the last command and what the history means. A TTL is positive and ends below 2 ^ 64,
  -- and `Set` with a TTL reads the clock for the index not before it does for the entry.
  pub data Reach (shards capacity : ℕ) : ℕ → Model → Engine P → Type 0 where
    begin :
        (manager : EvictionManager P) → Reach shards capacity 0 [] (fresh shards capacity manager)
    did_set :
        {t : ℕ} {m : Model} {e : Engine P} (now now' : ℕ) (key value : Str)
        → Reach shards capacity t m e
        → t ≤ now
        → Reach shards capacity now
            (insert key (value, none) (lose (lost hash key e) m))
            (Engine.set hash policy now now' key value none e).1
    did_set_with_ttl :
        {t : ℕ} {m : Model} {e : Engine P} (now now' ttl : ℕ) (key value : Str)
        → Reach shards capacity t m e
        → t ≤ now
        → now ≤ now'
        → 0 < ttl
        → now' + ttl < u64_mod
        → Reach shards capacity now
            (insert key (value, some (now + ttl)) (lose (lost hash key e) m))
            (Engine.set hash policy now now' key value (some ttl) e).1
    did_get :
        {t : ℕ} {m : Model} {e : Engine P} (now : ℕ) (key : Str)
        → Reach shards capacity t m e
        → t ≤ now
        → Reach shards capacity now m (get hash policy now key e).1
    did_delete :
        {t : ℕ} {m : Model} {e : Engine P} (key : Str)
        → Reach shards capacity t m e
        → Reach shards capacity t (erase key m) (delete hash policy key e).1
    did_expire :
        {t : ℕ} {m : Model} {e : Engine P} (now : ℕ)
        → Reach shards capacity t m e
        → t ≤ now
        → Reach shards capacity now m (process_expired hash policy now e).1
    did_evict :
        {t : ℕ} {m : Model} {e e' : Engine P} (fuel : ℕ) (r : Outcome (Unit {0}))
        → Reach shards capacity t m e
        → process_evictions hash policy fuel e ≡ some (r, e')
        → Reach shards capacity t
            (lose_all (victims_of (collect policy fuel e.eviction_manager [])) m)
            e'
