-- ===== src/Core/Shard/Room.antt =====
-- src/core/shard.h: a shard that is asked to hold no more keys than it has room for evicts none.
use kvmemo.Base.{
  ℕ, ◌≤◌, Str, Str_eq, ℕ_eq, List, ◌∷◌, ◌≡◌, refl, ap, ◌∙◌, none, true, arith, lookup, contains,
  is_some, length, inl, inr, Bool-cases, Option-cases,
}
use kvmemo.Base.Assoc
use kvmemo.Base.Keys
use kvmemo.Core.Entry.{Entry, with_ttl, without_ttl}
use kvmemo.Core.Ttl
use kvmemo.Core.Ttl.{TtlIndex}
use kvmemo.Core.Lru.Order.{recent}
use kvmemo.Core.Shard
use kvmemo.Core.Shard.{Shard, remove_internal}
use kvmemo.Core.Shard.Invariant.{IsValid, capacity-remove_internal}
use kvmemo.Core.Shard.Place.{victim, after_place, stored}
use kvmemo.Core.Shard.Writes.{
  set-AddsOnly, set_with_ttl-AddsOnly, set-after_set, set_with_ttl-after, after_set,
  after_set_with_ttl, index_with,
}

-- The shard has the capacity, and no key that is not in the list.
pub record Within (keys : List Str) (capacity : ℕ) (s : Shard) : Type 0 where
  pub room : s.capacity ≡ capacity
  pub among : (q : Str) → is_some (lookup q s.store) ≡ true → contains q keys ≡ true

module _ (keys : List Str) (capacity : ℕ) where
  -- With room for all the keys, a write of one of them evicts nothing.
  pub victim-none :
      (k : Str) (s : Shard)
      → IsValid s
      → Within keys capacity s
      → length keys ≤ capacity
      → contains k keys ≡ true
      → victim k s ≡ none
  unfolding victim
  victim-none k s v w fits h = elim (Bool-cases (contains k (recent s.lru))) [
    | inl old ↦ rw old refl
    | inr new ↦
        let all =
          Keys.length-le_of_subset (k ∷ recent s.lru) keys (new, v.linked.lru_valid.distinct)
            λ q p. unfold contains in ground (arith, p, h, w.among q, v.linked.same_keys q) in
        ground (arith, new, all, fits, w.room)
  ]

capacity-after_place :
    (k : Str) (e : Entry) (x : TtlIndex) (s : Shard) → (after_place k e x s).capacity ≡ s.capacity
unfolding after_place
capacity-after_place k e x s = elim (Option-cases (victim k s)) [
  | inl h ↦ rw h refl
  | inr (q, h) ↦ rw h (capacity-remove_internal q (stored k e x s))
]

pub capacity-set :
    (now : ℕ) (k v : Str) (s : Shard) → IsValid s → (Shard.set now k v s).1.capacity ≡ s.capacity
unfolding after_set
capacity-set now k v s valid =
    ap (λ r. r.1.capacity) (set-after_set now k v s valid)
    ∙ capacity-after_place k (without_ttl now v) (Ttl.remove k s.ttl_index) s

pub capacity-set_with_ttl :
    (now ttl : ℕ) (k v : Str) (s : Shard)
    → IsValid s
    → (Shard.set_with_ttl now k v ttl s).1.capacity ≡ s.capacity
unfolding after_set_with_ttl
capacity-set_with_ttl now ttl k v s valid =
    ap (λ r. r.1.capacity) (set_with_ttl-after now k v s valid ttl)
    ∙ capacity-after_place k (with_ttl now v ttl) (index_with k (with_ttl now v ttl) s.ttl_index) s

module _ (keys : List Str) (capacity : ℕ) (s : Shard) (w : Within keys capacity s) where
  pub set-Within :
      (now : ℕ) (k v : Str)
      → IsValid s
      → contains k keys ≡ true
      → Within keys capacity (Shard.set now k v s).1
  set-Within now k v valid h = record {
    room = capacity-set now k v s valid ∙ w.room;
    among = λ q p. elim (Str_eq.dec k q) [
      | yes e ↦ rw (← e) h
      | no n ↦ w.among q (set-AddsOnly now k v s valid q n p)
    ];
  }

  pub set_with_ttl-Within :
      (now ttl : ℕ) (k v : Str)
      → IsValid s
      → contains k keys ≡ true
      → Within keys capacity (Shard.set_with_ttl now k v ttl s).1
  set_with_ttl-Within now ttl k v valid h = record {
    room = capacity-set_with_ttl now ttl k v s valid ∙ w.room;
    among = λ q p. elim (Str_eq.dec k q) [
      | yes e ↦ rw (← e) h
      | no n ↦ w.among q (set_with_ttl-AddsOnly now ttl k v s valid q n p)
    ];
  }

  pub delete-Within : (k : Str) → Within keys capacity (Shard.delete k s)
  unfolding Shard.delete remove_internal
  delete-Within k = record {
    room = w.room;
    among = λ q p. w.among q (ground (arith, p, Assoc.lookup-erase k q s.store));
  }

  pub get-Within : (now : ℕ) (k : Str) → Within keys capacity (Shard.get now k s).1
  unfolding Shard.get remove_internal
  get-Within now k = record {
    room = ground (arith, w.room);
    among = λ q p. w.among q (ground (arith, p, Assoc.lookup-erase k q s.store));
  }
