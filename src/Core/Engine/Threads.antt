-- ===== src/Core/Engine/Threads.antt =====
-- src/core/kv_engine.h: calls of the engine by several threads. The shards lock themselves, the
-- engine does not, so a call is several turns: each makes one call of a shard, of the TTL index
-- or of the eviction manager, and these are taken to be indivisible. Between two turns of a thread
-- the others may take theirs.
pub mod Calls
pub mod Turns
pub mod Linear
pub mod Race
use kvmemo.Base.{
  ℕ, ◌+◌, ◌≤◌, ◌<◌, Str, Str_eq, List, [], ◌∷◌, Option, none, some, Outcome, Exn, returns, throws,
  add64, ◌≡◌, if◌then◌else◌, ◌==◌, u64_mod, insert, erase, suc, ◌++◌, get_elem?,
}
use kvmemo.Core.Engine.{Engine}
use kvmemo.Core.Engine.History.{Model, meant, lose, fresh}
use kvmemo.Core.Engine.Replies.{lost}
use kvmemo.Core.Manager as Shards
use kvmemo.Core.Manager.{ShardManager}
use kvmemo.Core.Shard
use kvmemo.Core.Shard.{Shard}
use kvmemo.Core.Ttl
use kvmemo.Core.Ttl.{upsert, collect_expired}
use kvmemo.Eviction.Manager as Eviction
use kvmemo.Eviction.Manager.{EvictionManager, collect}
use kvmemo.Eviction.Policy.{EvictionPolicy}

pub data Call : Type 0 where
  set : Str → Str → Option ℕ → Call
  get delete : Str → Call
  get_all_keys process_expired process_evictions : Call

-- Where a thread stands: a call of which no turn is made, what is left of one, or its result. All
-- calls but `Get` and `GetAllKeys` return `none`; a `ProcessEvictions` may be abandoned by what the
-- policy throws.
pub data Place : Type 0 where
  called : Call → Place
  set_indexing : Str → Option ℕ → Place
  set_noting : Str → Place
  get_noting : Str → Option Str → Place
  delete_indexing delete_noting : Str → Place
  expiring : List Str → Place
  expire_noting : Str → List Str → Place
  evicting : List Str → Place
  evict_indexing : Str → List Str → Place
  -- the number of the next shard, and the pairs of those before it
  listing : ℕ → List (Str × Str) → Place
  listed : List (Str × Str) → Place
  done : Outcome (Option Str) → Place
  abandoned : Exn → Place

-- A thread between two calls.
abbrev pub IsIdle : Place → Type 0
IsIdle (done o) = Unit
IsIdle (abandoned x) = Unit
IsIdle (listed pairs) = Unit
IsIdle _ = ⊥

-- A TTL is positive and ends below 2 ^ 64.
abbrev pub Allowed : ℕ → Place → Type 0
Allowed now (called (set key value (some ttl))) = (0 < ttl) × (now + ttl < u64_mod)
Allowed now _ = Unit

-- The result that a turn fixes for the call.
abbrev pub fixed_answer : ℕ → Place → Model → Option Str → Option Str
fixed_answer now (called (get key)) m old = meant now key m
fixed_answer now (called _) m old = none
fixed_answer now _ m old = old

-- Threads by number.
abbrev pub at : {A : Type 0} → (ℕ → A) → ℕ → A → ℕ → A
at threads i x j = if i == j then x else threads j

module _ (hash : Str → ℕ) {P : Type 0} (policy : EvictionPolicy P) where
  -- A call of the shards, and where the thread stands after it. What they throw leaves the call.
  abbrev pub on_shards :
      {A : Type 0} → Outcome A × ShardManager → (A → Place) → Engine P → Place × Engine P
  on_shards (throws x, m) k e = (done (throws x), record e { shard_manager = m })
  on_shards (returns a, m) k e = (k a, record e { shard_manager = m })

  -- Where the thread stands after `CollectEvictionCandidates`.
  abbrev pub collected :
      Option (Outcome (List Str) × EvictionManager P) → Engine P → Place × Engine P
  collected none e = (called process_evictions, e)
  collected (some (throws x, m)) e = (abandoned x, record e { eviction_manager = m })
  collected (some (returns victims, m)) e = (evicting victims, record e { eviction_manager = m })

  -- The pairs of one shard, which `GetAllKeys` locks for itself; all are tested at one reading of
  -- the clock.
  abbrev pub list_shard : ℕ → ℕ → List (Str × Str) → Option Shard → Place
  list_shard now n pairs none = listed pairs
  list_shard now n pairs (some s) = listing (suc n) (pairs ++ Shard.get_all_keys (λ _. now) s)

  -- One turn of a thread that reads the clock as `now`. `fuel` is for the loop that collects the
  -- victims: with too little the turn is not made.
  unfoldable pub turn : ℕ → ℕ → Place → Engine P → Place × Engine P
  turn fuel now (called (set key value (some ttl))) e =
      on_shards (Shards.set_with_ttl hash now key value ttl e.shard_manager)
        (λ _. set_indexing key (some ttl)) e
  turn fuel now (called (set key value none)) e =
      on_shards (Shards.set_key hash now key value e.shard_manager) (λ _. set_indexing key none) e
  turn fuel now (set_indexing key (some ttl)) e =
      (set_noting key, record e { ttl_index = upsert key (add64 now ttl) e.ttl_index })
  turn fuel now (set_indexing key none) e =
      (set_noting key, record e { ttl_index = Ttl.remove key e.ttl_index })
  turn fuel now (set_noting key) e = (
    done (returns none),
    record e { eviction_manager = Eviction.write policy key e.eviction_manager },
  )
  turn fuel now (called (get key)) e =
      on_shards (Shards.get hash now key e.shard_manager) (get_noting key) e
  turn fuel now (get_noting key none) e = (done (returns none), e)
  turn fuel now (get_noting key (some value)) e = (
    done (returns (some value)),
    record e { eviction_manager = Eviction.read policy key e.eviction_manager },
  )
  turn fuel now (called (delete key)) e =
      on_shards (Shards.delete hash key e.shard_manager) (λ _. delete_indexing key) e
  turn fuel now (delete_indexing key) e =
      (delete_noting key, record e { ttl_index = Ttl.remove key e.ttl_index })
  turn fuel now (delete_noting key) e = (
    done (returns none),
    record e { eviction_manager = Eviction.delete policy key e.eviction_manager },
  )
  turn fuel now (called process_expired) e = (
    expiring (collect_expired now e.ttl_index).0,
    record e { ttl_index = (collect_expired now e.ttl_index).1 },
  )
  turn fuel now (expiring []) e = (done (returns none), e)
  turn fuel now (expiring (key ∷ keys)) e =
      on_shards (Shards.delete hash key e.shard_manager) (λ _. expire_noting key keys) e
  turn fuel now (expire_noting key keys) e =
      (expiring keys, record e { eviction_manager = Eviction.delete policy key e.eviction_manager })
  turn fuel now (called process_evictions) e =
      collected (collect policy fuel e.eviction_manager []) e
  turn fuel now (evicting []) e = (done (returns none), e)
  turn fuel now (evicting (key ∷ keys)) e =
      on_shards (Shards.delete hash key e.shard_manager) (λ _. evict_indexing key keys) e
  turn fuel now (evict_indexing key keys) e =
      (evicting keys, record e { ttl_index = Ttl.remove key e.ttl_index })
  turn fuel now (called get_all_keys) e = (listing 0 [], e)
  turn fuel now (listing n pairs) e =
      (list_shard now n pairs (get_elem? e.shard_manager.shards n), e)
  turn fuel now (listed pairs) e = (listed pairs, e)
  turn fuel now (done o) e = (done o, e)
  turn fuel now (abandoned x) e = (abandoned x, e)

  -- What a turn means for the abstract store: a whole call of `Set`, `Get` or `Delete` at its call
  -- of the shards, and the loss of a key at a turn of the two maintenance calls.
  abbrev pub effect : ℕ → Place → Engine P → Model → Model
  effect now (called (set key value (some ttl))) e m =
      insert key (value, some (now + ttl)) (lose (lost hash key e) m)
  effect now (called (set key value none)) e m = insert key (value, none) (lose (lost hash key e) m)
  effect now (called (delete key)) e m = erase key m
  effect now (expiring (key ∷ keys)) e m = erase key m
  effect now (evicting (key ∷ keys)) e m = erase key m
  effect now _ e m = m

  -- The interleavings on a new engine: the time of the last turn, the abstract store, the results
  -- fixed so far, the engine and where the threads stand.
  pub data Reach (shards capacity : ℕ)
      : ℕ → Model → (ℕ → Option Str) → Engine P → (ℕ → Place) → Type 0 where
    begin :
        (manager : EvictionManager P)
        → Reach shards capacity 0 []
            (λ i. none)
            (fresh hash policy shards capacity manager)
            (λ i. done (returns none))
    calls :
        {t : ℕ} {m : Model} {answers : ℕ → Option Str} {e : Engine P} {threads : ℕ → Place} (i : ℕ)
        (c : Call)
        → Reach shards capacity t m answers e threads
        → IsIdle (threads i)
        → Reach shards capacity t m answers e (at threads i (called c))
    turns :
        {t : ℕ} {m : Model} {answers : ℕ → Option Str} {e : Engine P} {threads : ℕ → Place}
        (i fuel now : ℕ) (p : Place)
        → Reach shards capacity t m answers e threads
        → threads i ≡ p
        → t ≤ now
        → Allowed now p
        → Reach shards capacity now
            (effect now p e m)
            (at answers i (fixed_answer now p m (answers i)))
            (turn fuel now p e).1
            (at threads i (turn fuel now p e).0)
