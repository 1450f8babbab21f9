-- ===== src/Core/Shard/Invariant.antt =====
-- src/core/shard.h: the store, the order of use and the TTL index hold the same keys, and
-- `RemoveInternal` keeps them in step.
use kvmemo.Base.{
  ◌≤◌, Str, Str_eq, ℕ_eq, List, [], ◌∷◌, ◌≡◌, refl, sym, ◌∙◌, some, true, arith, lookup, erase,
  Unique, contains, is_some, length, returns,
}
use kvmemo.Base.Assoc
use kvmemo.Base.Keys
use kvmemo.Core.Entry.{Entry}
use kvmemo.Core.Lru
use kvmemo.Core.Lru.{back, pop_eviction_candidate}
use kvmemo.Core.Lru.Order
use kvmemo.Core.Lru.Back.{back-contains}
use kvmemo.Core.Lru.Order.{recent}
use kvmemo.Core.Ttl
use kvmemo.Core.Ttl.Index
use kvmemo.Core.Ttl.Index.{time_of}
use kvmemo.Core.Shard.{Shard, remove_internal, evict_one}

-- All of the invariant but the bound on the size.
pub record IsLinked (s : Shard) : Type 0 where
  pub lru_valid : Order.IsValid s.lru
  pub lru_capacity : s.lru.capacity ≡ s.capacity
  pub unique : Unique s.store
  pub same_keys : (k : Str) → contains k (recent s.lru) ≡ is_some (lookup k s.store)
  pub ttl_valid : Index.IsValid s.ttl_index
  pub ttl_stored :
      (k : Str) → is_some (time_of s.ttl_index k) ≡ true → is_some (lookup k s.store) ≡ true

pub record IsValid (s : Shard) : Type 0 where
  pub linked : IsLinked s
  pub bounded : length (recent s.lru) ≤ s.capacity

-- The number of stored keys is the length of the order of use.
pub length-store : (s : Shard) → IsLinked s → length s.store ≡ length (recent s.lru)
length-store s l =
    sym (Keys.same_size (recent s.lru) s.store l.lru_valid.distinct l.unique l.same_keys)

module _ (k : Str) (s : Shard) (l : IsLinked s) where
  remove_internal-same_keys :
      (q : Str) → contains q (recent (Lru.remove k s.lru)) ≡ is_some (lookup q (erase k s.store))
  remove_internal-same_keys q = rw (Order.recent-remove k s.lru l.lru_valid) (
      ground (
        arith,
        Keys.contains-remove k q (recent s.lru),
        Assoc.lookup-erase k q s.store,
        l.same_keys q,
      ))

  remove_internal-ttl_stored :
      (q : Str)
      → is_some (time_of (Ttl.remove k s.ttl_index) q) ≡ true
      → is_some (lookup q (erase k s.store)) ≡ true
  remove_internal-ttl_stored q h =
      ground (
        arith,
        Index.time_of-remove k q s.ttl_index,
        Assoc.lookup-erase k q s.store,
        l.ttl_stored q,
      )

  pub remove_internal-IsLinked : IsLinked (remove_internal k s)
  unfolding remove_internal
  remove_internal-IsLinked = record {
    lru_valid = Order.remove-IsValid k s.lru l.lru_valid;
    lru_capacity = Order.capacity-remove k s.lru ∙ l.lru_capacity;
    unique = Assoc.erase-Unique k s.store l.unique;
    same_keys = remove_internal-same_keys;
    ttl_valid = Index.remove-IsValid k s.ttl_index l.ttl_valid;
    ttl_stored = remove_internal-ttl_stored;
  }

  pub recent-remove_internal : recent (remove_internal k s).lru ≡ Keys.remove k (recent s.lru)
  unfolding remove_internal
  recent-remove_internal = Order.recent-remove k s.lru l.lru_valid

pub capacity-remove_internal : (k : Str) (s : Shard) → (remove_internal k s).capacity ≡ s.capacity
unfolding remove_internal
capacity-remove_internal k s = refl

pub remove_internal-IsValid : (k : Str) (s : Shard) → IsValid s → IsValid (remove_internal k s)
remove_internal-IsValid k s v = record {
  linked = remove_internal-IsLinked k s v.linked;
  bounded =
      rw (recent-remove_internal k s v.linked, capacity-remove_internal k s)
        (omega (arith, Keys.length-remove-le k (recent s.lru), v.bounded));
}

-- `EvictOne` removes the key that was used least recently, and does not throw.
pub evict_one-remove_internal :
    (s : Shard) (q : Str)
    → IsLinked s
    → back (recent s.lru) ≡ some q
    → evict_one s ≡ (returns tt, remove_internal q s)
unfolding evict_one remove_internal lookup
evict_one-remove_internal s q l h = go s.store refl
  where
    go : (m : List (Str × Entry)) → s.store ≡ m → evict_one s ≡ (returns tt, remove_internal q s)
    go [] e = absurd (ground (arith, e, back-contains (recent s.lru) q h, l.same_keys q))
    go (x ∷ m) e = ground (arith, e, Order.pop-recent s.lru q l.lru_valid h)
