-- ===== src/Core/Engine/Room/Loops.antt =====
-- src/core/kv_engine.h: the two maintenance calls add no key to a shard.
use kvmemo.Base.{
  ℕ, Str, Str_eq, List, [], ◌∷◌, ◌≡◌, some, Outcome, returns, throws, arith, subst, inl, inr,
  Option-cases,
}
use kvmemo.Core.Engine.{Engine, process_evictions, expire_each, evict_each, evict_victims}
use kvmemo.Core.Engine.Replies.{IsValid, then_do-returns}
use kvmemo.Core.Manager as Shards
use kvmemo.Core.Manager.{ShardManager}
use kvmemo.Core.Manager.Room.{Fits, delete-Fits}
use kvmemo.Core.Manager.Store as Store
use kvmemo.Core.Ttl
use kvmemo.Core.Ttl.{collect_expired}
use kvmemo.Core.Ttl.Index as Index
use kvmemo.Eviction.Manager as Eviction
use kvmemo.Eviction.Manager.{EvictionManager, collect}
use kvmemo.Eviction.Policy.{EvictionPolicy}

module _ (hash : Str → ℕ) {P : Type 0} (policy : EvictionPolicy P) (keys : List Str)
    (capacity : ℕ) where
  -- What is kept over the loops of the two maintenance calls.
  abbrev pub Stays : Engine P → Type 0
  Stays e = IsValid hash e × Fits hash keys capacity e.shard_manager

  pub expire_each-Stays :
      (dead : List Str) (e : Engine P) → Stays e → Stays (expire_each hash policy dead e).1
  unfolding expire_each
  expire_each-Stays [] e h = h
  expire_each-Stays (k ∷ dead) e (v, f) =
      let s = Store.delete-find hash 0 k [] e.shard_manager v.shards in
      rw (then_do-returns (Shards.delete hash k e.shard_manager) tt e _ s.0) (
        expire_each-Stays dead
          (record e {
            shard_manager = (Shards.delete hash k e.shard_manager).1;
            eviction_manager = Eviction.delete policy k e.eviction_manager;
          })
          (
            record { shards = s.1; ttl = v.ttl },
            delete-Fits hash keys capacity e.shard_manager v.shards f k,
          ))

  evict_each-Stays :
      (victims : List Str) (e : Engine P) → Stays e → Stays (evict_each hash policy victims e).1
  unfolding evict_each
  evict_each-Stays [] e h = h
  evict_each-Stays (k ∷ victims) e (v, f) =
      let s = Store.delete-find hash 0 k [] e.shard_manager v.shards in
      rw (then_do-returns (Shards.delete hash k e.shard_manager) tt e _ s.0) (
        evict_each-Stays victims
          (record e {
            shard_manager = (Shards.delete hash k e.shard_manager).1;
            ttl_index = Ttl.remove k e.ttl_index;
          })
          (
            record { shards = s.1; ttl = Index.remove-IsValid k e.ttl_index v.ttl },
            delete-Fits hash keys capacity e.shard_manager v.shards f k,
          ))

  evict_victims-Fits :
      (e : Engine P) (o : Outcome (List Str) × EvictionManager P)
      → Stays e
      → Fits hash keys capacity (evict_victims hash policy e o).1.shard_manager
  evict_victims-Fits e (throws x, m) h = h.1
  evict_victims-Fits e (returns victims, m) h =
      (evict_each-Stays victims (record e { eviction_manager = m })
        (record { shards = h.0.shards; ttl = h.0.ttl }, h.1)).1

  pub process_evictions-Fits :
      (fuel : ℕ) (e e' : Engine P) (r : Outcome (Unit {0}))
      → Stays e
      → process_evictions hash policy fuel e ≡ some (r, e')
      → Fits hash keys capacity e'.shard_manager
  unfolding process_evictions
  process_evictions-Fits fuel e e' r h eq =
      elim (Option-cases (collect policy fuel e.eviction_manager [])) [
        | inl n ↦ absurd (ground (arith, n, eq))
        | inr (o, c) ↦
            let same : (evict_victims hash policy e o).1 ≡ e' = ground (arith, c, eq) in
            subst (λ x. Fits hash keys capacity x.shard_manager) same (evict_victims-Fits e o h)
      ]
