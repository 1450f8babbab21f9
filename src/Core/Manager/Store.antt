-- ===== src/Core/Manager/Store.antt =====
-- src/core/shard_manager.h: what each call of the manager returns and leaves.
use kvmemo.Base.{
  ℕ, ◌+◌, ◌≤◌, ◌<◌, Str, Str_eq, ◌≡◌, refl, ap, sym, none, lookup, u64_mod, some, ite, arith, leb,
  if◌then◌else◌, returns, replicate, length-replicate, get_elem?-replicate, subst,
}
use kvmemo.Core.Shard
use kvmemo.Core.Shard.{Shard}
use kvmemo.Core.Shard.Invariant as ShardInvariant
use kvmemo.Core.Shard.Writes as Writes
use kvmemo.Core.Shard.Writes.{unless_victim}
use kvmemo.Core.Shard.Replies as ShardReplies
use kvmemo.Core.Shard.Reads as ShardReads
use kvmemo.Core.Manager.{ShardManager, index_of, get, set_key, set_with_ttl, delete}
use kvmemo.Core.Manager.Routing.{IsValid, shard_of, on_shard-after, after-IsValid}
use kvmemo.Core.Manager.Replies.{find, evicted, find-after, find-write}

module _ (hash : Str → ℕ) where
  -- On a valid manager `Set` returns, keeps the invariant, and is a write to one bounded store:
  -- the key has the value, the victim of its shard is lost, and all other replies stay.
  pub set_key-find :
      (now later : ℕ) (k v q : Str) (m : ShardManager)
      → IsValid hash m
      → ((set_key hash now k v m).0 ≡ returns tt)
        × IsValid hash (set_key hash now k v m).1
        × (find hash later q (set_key hash now k v m).1
            ≡ ite
                (Str_eq.dec k q)
                (some v)
                (unless_victim (evicted hash k m) q (find hash later q m)))
  unfolding set_key
  set_key-find now later k v q m valid =
      let (s, h) = shard_of hash k m valid in
      let sv = valid.valid (index_of hash k m) s h in
      let r = ShardReplies.get-set now later k v q s sv in
      rw (on_shard-after hash k (Shard.set now k v) s m h) (
        r.0,
        after-IsValid hash k (λ t. (Shard.set now k v t).1) s m valid h r.1
            (Writes.set-AddsOnly now k v s sv),
        find-write hash later k q (some v) (λ t. (Shard.set now k v t).1) s m valid h r.2,
      )

  -- `SetWithTTL` does the same, and the value can be read until the creation time plus the TTL.
  pub set_with_ttl-find :
      (now later ttl : ℕ) (k v q : Str) (m : ShardManager)
      → IsValid hash m
      → 0 < ttl
      → now + ttl < u64_mod
      → ((set_with_ttl hash now k v ttl m).0 ≡ returns tt)
        × IsValid hash (set_with_ttl hash now k v ttl m).1
        × (find hash later q (set_with_ttl hash now k v ttl m).1
            ≡ ite
                (Str_eq.dec k q)
                (if leb (now + ttl) later then none else some v)
                (unless_victim (evicted hash k m) q (find hash later q m)))
  unfolding set_with_ttl
  set_with_ttl-find now later ttl k v q m valid pos fits =
      let (s, h) = shard_of hash k m valid in
      let sv = valid.valid (index_of hash k m) s h in
      let f = λ (t : Shard). (Shard.set_with_ttl now k v ttl t).1 in
      let r = ShardReplies.get-set_with_ttl now later k v q s sv ttl pos fits in
      rw (on_shard-after hash k (Shard.set_with_ttl now k v ttl) s m h) (
        r.0,
        after-IsValid hash k f s m valid h r.1 (Writes.set_with_ttl-AddsOnly now ttl k v s sv),
        find-write hash later k q _ f s m valid h r.2,
      )

  -- `SetWithTTL` returns and keeps the invariant for any TTL, also 0 and one that wraps round.
  pub set_with_ttl-IsValid :
      (now ttl : ℕ) (k v : Str) (m : ShardManager)
      → IsValid hash m
      → ((set_with_ttl hash now k v ttl m).0 ≡ returns tt)
        × IsValid hash (set_with_ttl hash now k v ttl m).1
  unfolding set_with_ttl
  set_with_ttl-IsValid now ttl k v m valid =
      let (s, h) = shard_of hash k m valid in
      let sv = valid.valid (index_of hash k m) s h in
      let f = λ (t : Shard). (Shard.set_with_ttl now k v ttl t).1 in
      let r = Writes.set_with_ttl-after now k v s sv ttl in
      rw (on_shard-after hash k (Shard.set_with_ttl now k v ttl) s m h) (
        ap (λ p. p.0) r,
        after-IsValid hash k f s m valid h
            (subst (λ p. ShardInvariant.IsValid p.1) (sym r)
              (Writes.after_set_with_ttl-IsValid now k v s sv ttl))
            (Writes.set_with_ttl-AddsOnly now ttl k v s sv),
      )

  -- `Delete` removes one key and nothing else.
  pub delete-find :
      (later : ℕ) (k q : Str) (m : ShardManager)
      → IsValid hash m
      → ((delete hash k m).0 ≡ returns tt)
        × IsValid hash (delete hash k m).1
        × (find hash later q (delete hash k m).1 ≡ ite (Str_eq.dec k q) none (find hash later q m))
  unfolding delete find
  delete-find later k q m valid =
      let (s, h) = shard_of hash k m valid in
      let sv = valid.valid (index_of hash k m) s h in
      rw (on_shard-after hash k (λ t. (returns tt, Shard.delete k t)) s m h) (
        refl,
        after-IsValid hash k (Shard.delete k) s m valid h (Writes.delete-IsValid k s sv)
            (Writes.delete-AddsOnly k s),
        ground (
          arith,
          h,
          find-after hash later k q (Shard.delete k) s m valid h,
          ShardReads.get-delete later k q s,
        ),
      )

  -- `Get` returns the reply of the key's shard, and changes no later reply.
  pub get-find_after :
      (now later : ℕ) (k q : Str) (m : ShardManager)
      → IsValid hash m
      → now ≤ later
      → ((get hash now k m).0 ≡ returns (find hash now k m))
        × IsValid hash (get hash now k m).1
        × (find hash later q (get hash now k m).1 ≡ find hash later q m)
  unfolding get find
  get-find_after now later k q m valid le =
      let (s, h) = shard_of hash k m valid in
      let sv = valid.valid (index_of hash k m) s h in
      let f = λ (t : Shard). (Shard.get now k t).1 in
      rw (on_shard-after hash k (λ t. (returns (Shard.get now k t).0, (Shard.get now k t).1)) s m h)
        (
          ground (arith, h),
          after-IsValid hash k f s m valid h (ShardReplies.get-IsValid now k s sv)
              (Writes.get-AddsOnly now k s),
          ground (
            arith,
            h,
            find-after hash later k q f s m valid h,
            ShardReads.get-get now later k q s le,
          ),
        )

  -- `Get` brings no key back, at any time.
  pub get-find_gone :
      (now later : ℕ) (k q : Str) (m : ShardManager)
      → IsValid hash m
      → find hash later q m ≡ none
      → find hash later q (get hash now k m).1 ≡ none
  unfolding get find index_of
  get-find_gone now later k q m valid gone =
      let (s, h) = shard_of hash k m valid in
      let f = λ (t : Shard). (Shard.get now k t).1 in
      rw (on_shard-after hash k (λ t. (returns (Shard.get now k t).0, (Shard.get now k t).1)) s m h)
        (ground (
          arith,
          h,
          gone,
          find-after hash later k q f s m valid h,
          ShardReads.get-get_gone now later k q s,
        ))

  abbrev pub empty : ℕ → ℕ → ShardManager
  empty n cap = record { shard_count = n; shards = replicate n (Writes.empty cap) }

  pub empty-IsValid : (n cap : ℕ) → 0 < n → 0 < cap → IsValid hash (empty n cap)
  unfolding lookup
  empty-IsValid n cap pos fits = record {
    some_shards = pos;
    all_shards = length-replicate n (Writes.empty cap);
    valid = λ i s h.
        subst ShardInvariant.IsValid (sym (get_elem?-replicate n i (Writes.empty cap) s h))
          (Writes.empty-IsValid cap fits);
    placed =
        λ i s k h e. absurd (ground (arith, e, get_elem?-replicate n i (Writes.empty cap) s h));
  }
