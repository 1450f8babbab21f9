-- ===== src/Core/Manager/Replies.antt =====
-- src/core/shard_manager.h: the shards together are one bounded store.
use kvmemo.Base.{
  ℕ, Str, Str_eq, ℕ_eq, ◌≡◌, Option, none, some, ite, arith, ◌==◌, if◌then◌else◌, inl, inr,
  Option-cases, get_elem?, returns,
}
use kvmemo.Core.Shard
use kvmemo.Core.Shard.{Shard}
use kvmemo.Core.Shard.Place.{victim}
use kvmemo.Core.Shard.Writes as Writes
use kvmemo.Core.Shard.Writes.{AddsOnly, unless_victim}
use kvmemo.Core.Manager.{ShardManager, index_of, on_shard, get}
use kvmemo.Core.Manager.Routing.{IsValid, shard_of, after, get_elem?-after}

module _ (hash : Str → ℕ) where
  -- The reply of the key's shard.
  unfoldable pub find : ℕ → Str → ShardManager → Option Str
  find now q m = elim (get_elem? m.shards (index_of hash q m)) [
    | none ↦ none
    | some s ↦ (Shard.get now q s).0
  ]

  -- The key that a write of `k` evicts: the victim of its shard.
  unfoldable pub evicted : Str → ShardManager → Option Str
  evicted k m = elim (get_elem? m.shards (index_of hash k m)) [ none ↦ none | some s ↦ victim k s ]

  pub get-find :
      (now : ℕ) (q : Str) (m : ShardManager)
      → IsValid hash m
      → (get hash now q m).0 ≡ returns (find now q m)
  unfolding get on_shard find
  get-find now q m v = let (s, h) = shard_of hash q m v in ground (arith, h)

  pub find-after :
      (later : ℕ) (k q : Str) (f : Shard → Shard) (s : Shard) (m : ShardManager)
      → IsValid hash m
      → get_elem? m.shards (index_of hash k m) ≡ some s
      → find later q (after hash k f s m) ≡ (
          if index_of hash k m == index_of hash q m
          then (Shard.get later q (f s)).0
          else find later q m)
  unfolding find after index_of
  find-after later k q f s m v h =
      ground (arith, get_elem?-after hash k f s m v h (index_of hash q m))

  -- A victim is read in the shard of the key that is written.
  victim-index :
      (k w : Str) (s : Shard) (m : ShardManager)
      → IsValid hash m
      → get_elem? m.shards (index_of hash k m) ≡ some s
      → victim k s ≡ some w
      → index_of hash w m ≡ index_of hash k m
  victim-index k w s m v h e =
      v.placed (index_of hash k m) s w h (Writes.victim-stored k w s (v.valid _ s h) e)

  -- A write of `k` whose reply in the shard is `r` for `k` itself.
  pub find-write :
      (later : ℕ) (k q : Str) (r : Option Str) (f : Shard → Shard) (s : Shard) (m : ShardManager)
      → IsValid hash m
      → get_elem? m.shards (index_of hash k m) ≡ some s
      → (Shard.get later q (f s)).0
        ≡ ite (Str_eq.dec k q) r (unless_victim (victim k s) q (Shard.get later q s).0)
      → find later q (after hash k f s m)
        ≡ ite (Str_eq.dec k q) r (unless_victim (evicted k m) q (find later q m))
  unfolding find evicted
  find-write later k q r f s m v h e = elim (Option-cases (victim k s)) [
    | inl n ↦ ground (arith, h, n, e, find-after later k q f s m v h)
    | inr (w, n) ↦
        ground (arith, h, n, e, find-after later k q f s m v h, victim-index k w s m v h n)
  ]
