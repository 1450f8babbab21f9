-- ===== src/Core/Manager/Routing.antt =====
-- src/core/shard_manager.h: the invariant, and that every call reaches the shard of its key.
use kvmemo.Base.{
  ℕ, ◌<◌, Str, Str_eq, ℕ_eq, ◌≡◌, ◌∙◌, some, true, arith, lookup, is_some, length, ◌==◌,
  if◌then◌else◌, inl, inr, Bool-cases, get_elem?, set, length-set, get_elem?-set_self,
  get_elem?-set_ne, get_elem?-some, Outcome, subst, ==_iff,
}
use kvmemo.Core.Shard.{Shard}
use kvmemo.Core.Shard.Invariant as ShardInvariant
use kvmemo.Core.Shard.Writes.{AddsOnly}
use kvmemo.Core.Manager.{ShardManager, index_of, on_shard}

module _ (hash : Str → ℕ) where
  pub record IsValid (m : ShardManager) : Type 0 where
    pub some_shards : 0 < m.shard_count
    pub all_shards : length m.shards ≡ m.shard_count
    pub valid : (i : ℕ) (s : Shard) → get_elem? m.shards i ≡ some s → ShardInvariant.IsValid s
    -- a key is stored in no shard but its own
    pub placed :
        (i : ℕ) (s : Shard) (k : Str)
        → get_elem? m.shards i ≡ some s
        → is_some (lookup k s.store) ≡ true
        → index_of hash k m ≡ i

  -- Every key has a shard: no index is out of range.
  pub shard_of :
      (k : Str) (m : ShardManager)
      → IsValid m
      → (s : Shard) × (get_elem? m.shards (index_of hash k m) ≡ some s)
  unfolding index_of
  shard_of k m v =
      get_elem?-some m.shards (index_of hash k m) (ground (arith, v.some_shards, v.all_shards))

  -- The shard of the key is replaced, and every other shard stays.
  unfoldable pub after : Str → (Shard → Shard) → Shard → ShardManager → ShardManager
  after k f s m = record m { shards = set m.shards (index_of hash k m) (f s) }

  pub on_shard-after :
      {A : Type 0} (k : Str) (f : Shard → Outcome A × Shard) (s : Shard) (m : ShardManager)
      → get_elem? m.shards (index_of hash k m) ≡ some s
      → on_shard hash k f m ≡ ((f s).0, after k (λ t. (f t).1) s m)
  unfolding on_shard after
  on_shard-after k f s m h = ground (arith, h)

  module _ (k : Str) (f : Shard → Shard) (s : Shard) (m : ShardManager) (v : IsValid m)
      (h : get_elem? m.shards (index_of hash k m) ≡ some s) where
    -- The shard at each index, after a call for `k`.
    pub get_elem?-after :
        (i : ℕ)
        → get_elem? (after k f s m).shards i
          ≡ (if index_of hash k m == i then some (f s) else get_elem? m.shards i)
    unfolding after
    get_elem?-after i = ground (
      arith,
      h,
      get_elem?-set_self m.shards (index_of hash k m) (f s) s,
      get_elem?-set_ne m.shards (index_of hash k m) i (f s),
    )

    after-valid :
        ShardInvariant.IsValid (f s)
        → (i : ℕ) (t : Shard) → get_elem? (after k f s m).shards i ≡ some t
        → ShardInvariant.IsValid t
    after-valid w i t e = elim (Bool-cases (index_of hash k m == i)) [
      | inl p ↦ subst ShardInvariant.IsValid (ground (arith, e, p, get_elem?-after i)) w
      | inr p ↦ v.valid i t (ground (arith, e, p, get_elem?-after i))
    ]

    after-placed :
        AddsOnly k f s
        → (i : ℕ) (t : Shard) (q : Str) → get_elem? (after k f s m).shards i ≡ some t
        → is_some (lookup q t.store) ≡ true
        → index_of hash q m ≡ i
    after-placed a i t q e p = elim (Bool-cases (index_of hash k m == i)) [
      | inl c ↦ elim (Str_eq.dec k q) [
        | yes d ↦ rw (← d) ((==_iff (index_of hash k m) i).0 c)
        | no d ↦
            v.placed (index_of hash k m) s q h (a q d (ground (arith, e, c, p, get_elem?-after i)))
            ∙ (==_iff (index_of hash k m) i).0 c
      ]
      | inr c ↦ v.placed i t q (ground (arith, e, c, get_elem?-after i)) p
    ]

    pub after-IsValid : ShardInvariant.IsValid (f s) → AddsOnly k f s → IsValid (after k f s m)
    unfolding after index_of
    after-IsValid w a = record {
      some_shards = v.some_shards;
      all_shards = length-set m.shards (index_of hash k m) (f s) ∙ v.all_shards;
      valid = after-valid w;
      placed = after-placed a;
    }
