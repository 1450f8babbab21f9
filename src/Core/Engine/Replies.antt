-- ===== src/Core/Engine/Replies.antt =====
-- src/core/kv_engine.h: the commands of the engine, as a client sees them.
use kvmemo.Base.{
  ℕ, ◌+◌, ◌≤◌, ◌<◌, Str, Str_eq, ◌≡◌, refl, ap, ◌∙◌, Option, none, some, Outcome, returns, throws,
  ite, if◌then◌else◌, leb, u64_mod, add64,
}
use kvmemo.Core.Manager as Shards
use kvmemo.Core.Manager.{ShardManager}
use kvmemo.Core.Manager.Routing as Routing
use kvmemo.Core.Manager.Replies.{find, evicted}
use kvmemo.Core.Manager.Store as Store
use kvmemo.Core.Shard.Writes.{unless_victim}
use kvmemo.Core.Ttl.Index as Index
use kvmemo.Core.Ttl.Index.{time_of}
use kvmemo.Core.Engine
use kvmemo.Core.Engine.{Engine, then_do, note_read, get, delete}
use kvmemo.Eviction.Policy.{EvictionPolicy}

pub then_do-returns :
    {P A B : Type 0} (p : Outcome A × ShardManager) (a : A) (e : Engine P)
    (k : A → Engine P → Outcome B × Engine P)
    → p.0 ≡ returns a
    → then_do p e k ≡ k a (record e { shard_manager = p.1 })
then_do-returns (throws x, m) a e k h = absurd (cc h)
then_do-returns (returns b, m) a e k h = cc h

module _ (hash : Str → ℕ) {P : Type 0} where
  pub record IsValid (e : Engine P) : Type 0 where
    pub shards : Routing.IsValid hash e.shard_manager
    pub ttl : Index.IsValid e.ttl_index

  -- What `GET` would return.
  abbrev pub reply : ℕ → Str → Engine P → Option Str
  reply now q e = find hash now q e.shard_manager

  -- The key that a write of `k` evicts.
  abbrev pub lost : Str → Engine P → Option Str
  lost k e = evicted hash k e.shard_manager

  module _ (policy : EvictionPolicy P) where
    -- On a valid engine `Set` without a TTL returns and keeps the invariant. The key can be read
    -- at every time, the victim of the write is lost, and all other replies stay; the index has no
    -- time for the key, and else its old times.
    pub set-reply :
        (now now' later : ℕ) (k v q : Str) (e : Engine P)
        → IsValid e
        → let (r, e') = Engine.set hash policy now now' k v none e in
          (r ≡ returns tt)
          × IsValid e'
          × (reply later q e'
              ≡ ite (Str_eq.dec k q) (some v) (unless_victim (lost k e) q (reply later q e)))
          × (time_of e'.ttl_index q ≡ ite (Str_eq.dec k q) none (time_of e.ttl_index q))
    unfolding Engine.set
    set-reply now now' later k v q e valid =
        let s = Store.set_key-find hash now later k v q e.shard_manager valid.shards in
        rw (then_do-returns (Shards.set_key hash now k v e.shard_manager) tt e _ s.0) (
          refl,
          record { shards = s.1; ttl = Index.remove-IsValid k e.ttl_index valid.ttl },
          s.2,
          Index.time_of-remove k q e.ttl_index,
        )

    -- On a valid engine `Set` with a positive TTL, whose end is below 2 ^ 64, returns and keeps
    -- the invariant. The key can be read until the entry's creation time plus the TTL, the victim
    -- of the write is lost, and all other replies stay; the index has the engine's own reading of
    -- the clock plus the TTL for the key, and else its old times.
    pub set_with_ttl-reply :
        (now now' later ttl : ℕ) (k v q : Str) (e : Engine P)
        → IsValid e
        → 0 < ttl
        → now + ttl < u64_mod
        → let (r, e') = Engine.set hash policy now now' k v (some ttl) e in
          (r ≡ returns tt)
          × IsValid e'
          × (reply later q e'
              ≡ ite
                  (Str_eq.dec k q)
                  (if leb (now + ttl) later then none else some v)
                  (unless_victim (lost k e) q (reply later q e)))
          × (time_of e'.ttl_index q
              ≡ ite (Str_eq.dec k q) (some (add64 now' ttl)) (time_of e.ttl_index q))
    unfolding Engine.set
    set_with_ttl-reply now now' later ttl k v q e valid pos fits =
        let s =
          Store.set_with_ttl-find hash now later ttl k v q e.shard_manager valid.shards pos fits in
        rw (then_do-returns (Shards.set_with_ttl hash now k v ttl e.shard_manager) tt e _ s.0) (
          refl,
          record {
            shards = s.1;
            ttl = Index.upsert-IsValid k (add64 now' ttl) e.ttl_index valid.ttl;
          },
          s.2,
          Index.time_of-upsert k q (add64 now' ttl) e.ttl_index,
        )

    -- `Set` with any TTL returns and keeps the invariant.
    pub set_with_ttl-IsValid :
        (now now' ttl : ℕ) (k v : Str) (e : Engine P)
        → IsValid e
        → let (r, e') = Engine.set hash policy now now' k v (some ttl) e in
          (r ≡ returns tt) × IsValid e'
    unfolding Engine.set
    set_with_ttl-IsValid now now' ttl k v e valid =
        let s = Store.set_with_ttl-IsValid hash now ttl k v e.shard_manager valid.shards in
        rw (then_do-returns (Shards.set_with_ttl hash now k v ttl e.shard_manager) tt e _ s.0) (
          refl,
          record {
            shards = s.1;
            ttl = Index.upsert-IsValid k (add64 now' ttl) e.ttl_index valid.ttl;
          },
        )

    -- On a valid engine `Delete` returns, keeps the invariant, removes the key and its time, and
    -- changes no other reply and no other time.
    pub delete-reply :
        (later : ℕ) (k q : Str) (e : Engine P)
        → IsValid e
        → let (r, e') = delete hash policy k e in
          (r ≡ returns tt)
          × IsValid e'
          × (reply later q e' ≡ ite (Str_eq.dec k q) none (reply later q e))
          × (time_of e'.ttl_index q ≡ ite (Str_eq.dec k q) none (time_of e.ttl_index q))
    unfolding delete
    delete-reply later k q e valid =
        let s = Store.delete-find hash later k q e.shard_manager valid.shards in
        rw (then_do-returns (Shards.delete hash k e.shard_manager) tt e _ s.0) (
          refl,
          record { shards = s.1; ttl = Index.remove-IsValid k e.ttl_index valid.ttl },
          s.2,
          Index.time_of-remove k q e.ttl_index,
        )

    pub note_read-same :
        (k : Str) (o : Option Str) (e : Engine P)
        → ((note_read hash policy k o e).shard_manager ≡ e.shard_manager)
          × ((note_read hash policy k o e).ttl_index ≡ e.ttl_index)
    note_read-same k none e = (refl, refl)
    note_read-same k (some v) e = (refl, refl)

    -- On a valid engine `Get` returns the reply of the key's shard, keeps the invariant, and
    -- changes no reply at its own time or later and no time of the index.
    pub get-reply :
        (now later : ℕ) (k q : Str) (e : Engine P)
        → IsValid e
        → now ≤ later
        → let (r, e') = get hash policy now k e in
          (r ≡ returns (reply now k e))
          × IsValid e'
          × (reply later q e' ≡ reply later q e)
          × (time_of e'.ttl_index q ≡ time_of e.ttl_index q)
    unfolding get
    get-reply now later k q e valid le =
        let s = Store.get-find_after hash now later k q e.shard_manager valid.shards le in
        let e' = record e { shard_manager = (Shards.get hash now k e.shard_manager).1 } in
        let same = note_read-same k (reply now k e) e' in
        rw (then_do-returns (Shards.get hash now k e.shard_manager) (reply now k e) e _ s.0) (
          refl,
          record { shards = rw same.0 s.1; ttl = rw same.1 valid.ttl },
          ap (find hash later q) same.0 ∙ s.2,
          ap (λ x. time_of x q) same.1,
        )
