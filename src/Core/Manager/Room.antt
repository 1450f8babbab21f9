-- ===== src/Core/Manager/Room.antt =====
-- src/core/shard_manager.h: each shard has room for all keys that are written.
use kvmemo.Base.{
  ℕ, ◌≤◌, Str, Str_eq, List, ◌≡◌, refl, sym, none, some, true, arith, lookup, contains, length,
  ◌==◌, inl, inr, Bool-cases, get_elem?, Outcome, subst, get_elem?-replicate, returns,
}
use kvmemo.Core.Shard
use kvmemo.Core.Shard.{Shard}
use kvmemo.Core.Shard.Room as ShardRoom
use kvmemo.Core.Shard.Room.{Within, victim-none}
use kvmemo.Core.Shard.Writes as Writes
use kvmemo.Core.Manager.{ShardManager, index_of, on_shard, get, set_key, set_with_ttl, delete}
use kvmemo.Core.Manager.Routing.{IsValid, shard_of, on_shard-after, after, get_elem?-after}
use kvmemo.Core.Manager.Replies.{evicted}
use kvmemo.Core.Manager.Store as Store

module _ (hash : Str → ℕ) (keys : List Str) (capacity : ℕ) where
  -- Every shard has the capacity, and no key that is not in the list.
  abbrev pub Fits : ShardManager → Type 0
  Fits m = (i : ℕ) (s : Shard) → get_elem? m.shards i ≡ some s → Within keys capacity s

  pub empty-Fits : (n : ℕ) → Fits (Store.empty hash n capacity)
  unfolding lookup
  empty-Fits n i s h =
      subst (Within keys capacity) (sym (get_elem?-replicate n i (Writes.empty capacity) s h))
        (record { room = refl; among = λ q p. absurd (cc p) })

  -- With room for all the keys, a write of one of them evicts nothing.
  pub evicted-none :
      (k : Str) (m : ShardManager)
      → IsValid hash m
      → Fits m
      → length keys ≤ capacity
      → contains k keys ≡ true
      → evicted hash k m ≡ none
  unfolding evicted
  evicted-none k m v f fits h =
      let (s, e) = shard_of hash k m v in
      let i = index_of hash k m in
      ground (arith, e, victim-none keys capacity k s (v.valid i s e) (f i s e) fits h)

  -- A call for one key, from what it does to a shard.
  on_shard-Fits :
      {A : Type 0} (k : Str) (g : Shard → Outcome A × Shard) (m : ShardManager)
      → IsValid hash m
      → Fits m
      → ((i : ℕ) (s : Shard) → get_elem? m.shards i ≡ some s → Within keys capacity (g s).1)
      → Fits (on_shard hash k g m).1
  on_shard-Fits k g m v f keep i t e =
      let (s, h) = shard_of hash k m v in
      let e' : get_elem? (after hash k (λ t. (g t).1) s m).shards i ≡ some t =
        subst (λ r. get_elem? r.1.shards i ≡ some t) (on_shard-after hash k g s m h) e in
      let at = get_elem?-after hash k (λ t. (g t).1) s m v h i in
      elim (Bool-cases (index_of hash k m == i)) [
        | inl own ↦
            subst (Within keys capacity) (ground (arith, e', at, own))
              (keep (index_of hash k m) s h)
        | inr other ↦ f i t (ground (arith, e', at, other))
      ]

  module _ (m : ShardManager) (v : IsValid hash m) (f : Fits m) where
    pub set_key-Fits :
        (now : ℕ) (k value : Str) → contains k keys ≡ true → Fits (set_key hash now k value m).1
    unfolding set_key
    set_key-Fits now k value h =
        on_shard-Fits k (Shard.set now k value) m v f
          λ i s e. ShardRoom.set-Within keys capacity s (f i s e) now k value (v.valid i s e) h

    pub set_with_ttl-Fits :
        (now ttl : ℕ) (k value : Str)
        → contains k keys ≡ true
        → Fits (set_with_ttl hash now k value ttl m).1
    unfolding set_with_ttl
    set_with_ttl-Fits now ttl k value h =
        on_shard-Fits k (Shard.set_with_ttl now k value ttl) m v f λ i s e.
          ShardRoom.set_with_ttl-Within keys capacity s (f i s e) now ttl k value (v.valid i s e) h

    pub delete-Fits : (k : Str) → Fits (delete hash k m).1
    unfolding delete
    delete-Fits k =
        on_shard-Fits k (λ t. (returns tt, Shard.delete k t)) m v f
          λ i s e. ShardRoom.delete-Within keys capacity s (f i s e) k

    pub get-Fits : (now : ℕ) (k : Str) → Fits (get hash now k m).1
    unfolding get
    get-Fits now k =
        on_shard-Fits k (λ t. (returns (Shard.get now k t).0, (Shard.get now k t).1)) m v f
          λ i s e. ShardRoom.get-Within keys capacity s (f i s e) now k
