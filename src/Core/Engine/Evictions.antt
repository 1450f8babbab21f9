-- ===== src/Core/Engine/Evictions.antt =====
-- src/core/kv_engine.h: `ProcessEvictions` under `LRUPolicy`.
use kvmemo.Base.{
  ℕ, ◌≤◌, ◌<◌, Str, Str_eq, List, [], ◌∷◌, ◌≡◌, refl, ap, sym, ◌∙◌, subst, none, some, returns,
  throws, Outcome, Option-cases, inl, inr, arith, if◌then◌else◌, u64_mod, contains, take, length,
}
use kvmemo.Core.Manager as Shards
use kvmemo.Core.Manager.Store as Store
use kvmemo.Core.Lru.{LruCache}
use kvmemo.Core.Lru.Back.{oldest}
use kvmemo.Core.Lru.Order
use kvmemo.Core.Lru.Order.{recent}
use kvmemo.Core.Ttl
use kvmemo.Core.Ttl.Index
use kvmemo.Core.Ttl.Index.{time_of}
use kvmemo.Core.Engine.{Engine, evict_each, evict_victims, process_evictions}
use kvmemo.Core.Engine.Expiry.{IsLate, lost_late}
use kvmemo.Core.Engine.Replies.{IsValid, reply, then_do-returns}
use kvmemo.Eviction.Manager.{EvictionManager, collect, entry_bytes}
use kvmemo.Eviction.Manager.Victims.{Evicted, usage, limit, excess, collect-oldest}
use kvmemo.Eviction.Policy.{EvictionPolicy, lru_policy}

module _ (hash : Str → ℕ) {P : Type 0} (policy : EvictionPolicy P) where
  -- The loop over the victims: they lose their values and their times, and nothing else changes.
  pub evict_each-reply :
      (later : ℕ) (q : Str) (keys : List Str) (e : Engine P)
      → IsValid hash e
      → let (r, e') = evict_each hash policy keys e in
        (r ≡ returns tt)
        × IsValid hash e'
        × (reply hash later q e' ≡ (if contains q keys then none else reply hash later q e))
        × (time_of e'.ttl_index q ≡ (if contains q keys then none else time_of e.ttl_index q))
        × (e'.eviction_manager ≡ e.eviction_manager)
  unfolding evict_each contains
  evict_each-reply later q [] e valid = (refl, valid, refl, refl, refl)
  evict_each-reply later q (k ∷ keys) e valid =
      let s = Store.delete-find hash later k q e.shard_manager valid.shards in
      let e' = record e {
        shard_manager = (Shards.delete hash k e.shard_manager).1;
        ttl_index = Ttl.remove k e.ttl_index;
      } in
      let r =
        evict_each-reply later q keys e'
          (record { shards = s.1; ttl = Index.remove-IsValid k e.ttl_index valid.ttl }) in
      rw (then_do-returns (Shards.delete hash k e.shard_manager) tt e _ s.0) (
        r.0,
        r.1,
        ground (arith, r.2, s.2),
        ground (arith, r.3, Index.time_of-remove k q e.ttl_index),
        r.4,
      )

  evict_victims-late :
      (later : ℕ) (q : Str) (t : ℕ) (e : Engine P) (o : Outcome (List Str) × EvictionManager P)
      → IsValid hash e
      → IsLate hash e
      → time_of (evict_victims hash policy e o).1.ttl_index q ≡ some t
      → t ≤ later
      → reply hash later q (evict_victims hash policy e o).1 ≡ none
  evict_victims-late later q t e (throws x, m) valid l h le = l q t later h le
  evict_victims-late later q t e (returns victims, m) valid l h le =
      let r =
        evict_each-reply later q victims (record e { eviction_manager = m })
          (record { shards = valid.shards; ttl = valid.ttl }) in
      lost_late (contains q victims) (reply hash later q e) _ (time_of e.ttl_index q) _ t r.2 r.3 h
        (λ x. l q t later x le)

  -- The call removes no key but with its time, also when it ends with an exception.
  pub process_evictions-IsLate :
      (fuel : ℕ) (e e' : Engine P) (r : Outcome (Unit {0}))
      → IsValid hash e
      → IsLate hash e
      → process_evictions hash policy fuel e ≡ some (r, e')
      → IsLate hash e'
  unfolding process_evictions
  process_evictions-IsLate fuel e e' r valid l eq q t later h le =
      elim (Option-cases (collect policy fuel e.eviction_manager [])) [
        | inl n ↦ absurd (ground (arith, n, eq))
        | inr (o, c) ↦
            let same : (evict_victims hash policy e o).1 ≡ e' = ground (arith, c, eq) in
            subst (λ x. reply hash later q x ≡ none) same
              (evict_victims-late later q t e o valid l (ap (λ x. time_of x.ttl_index q) same ∙ h)
                le)
      ]

module _ (hash : Str → ℕ) where
  -- If the engine is valid and the policy knows as many keys as have to go, with a limit of 100
  -- bytes or more, an account below 2 ^ 64 and more fuel than these keys, `ProcessEvictions`
  -- returns and keeps the invariant. The least recently used keys, as many as bring the account
  -- within the limit, lose their values and their times; all other keys keep them, and the policy
  -- keeps their order.
  pub process_evictions-reply :
      (fuel later : ℕ) (q : Str) (e : Engine LruCache)
      → IsValid hash e
      → Order.IsValid e.eviction_manager.policy
      → entry_bytes ≤ limit e.eviction_manager
      → usage e.eviction_manager < u64_mod
      → excess e.eviction_manager ≤ length (oldest (recent e.eviction_manager.policy))
      → excess e.eviction_manager < fuel
      → let victims =
          take (excess e.eviction_manager) (oldest (recent e.eviction_manager.policy)) in
        (e' : Engine LruCache) × (process_evictions hash lru_policy fuel e ≡ some (returns tt, e'))
        × IsValid hash e'
        × (reply hash later q e' ≡ (if contains q victims then none else reply hash later q e))
        × (time_of e'.ttl_index q ≡ (if contains q victims then none else time_of e.ttl_index q))
        × Evicted
            (excess e.eviction_manager)
            (oldest (recent e.eviction_manager.policy))
            e.eviction_manager
            e'.eviction_manager
  unfolding process_evictions
  process_evictions-reply fuel later q e valid order fits small known enough =
      let (m', c, d) = collect-oldest fuel e.eviction_manager order fits small known enough in
      let victims = take (excess e.eviction_manager) (oldest (recent e.eviction_manager.policy)) in
      let r =
        evict_each-reply hash lru_policy later q victims (record e { eviction_manager = m' })
          (record { shards = valid.shards; ttl = valid.ttl }) in
      let e' = (evict_each hash lru_policy victims (record e { eviction_manager = m' })).1 in
      (
        e',
        rw (c, process_evictions) (ap (λ o. some (o, e')) r.0),
        r.1,
        r.2,
        r.3,
        subst
            (Evicted (excess e.eviction_manager) (oldest (recent e.eviction_manager.policy))
              e.eviction_manager)
            (sym r.4) d,
      )
