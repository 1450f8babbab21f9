-- ===== src/Core/Lru.antt =====
-- src/core/lru_cache.h: `LRUCache`, a list of keys in the order of their last use with a map from
-- each key to an iterator of the list. A node of `std::list` is a pair of its identity and its
-- key, and an iterator is the identity of the node that it names.
pub mod Nodes
pub mod Order
pub mod Back
use kvmemo.Base.{
  Outcome, returns, throws, invalid_argument, runtime_error, ℕ, ◌+◌, Str, List, [], ◌∷◌, Option,
  none, some, Bool, false, lookup, insert, erase, length, ltb, ◌==◌, Str_eq, ℕ_eq, if◌then◌else◌,
}

pub record LruCache : Type 0 where
  pub capacity : ℕ
  pub order : List (ℕ × Str)
  pub map : List (Str × ℕ)
  -- the identity that the next allocated node gets
  pub fresh : ℕ

abbrev pub empty : ℕ → LruCache
empty capacity = record { capacity = capacity; order = []; map = []; fresh = 0 }

unfoldable pub new : ℕ → Outcome LruCache
new capacity = if capacity == 0 then throws invalid_argument else returns (empty capacity)

-- `order_.splice(order_.begin(), order_, it)`: the node moves to the front and keeps its identity.
unfoldable pub splice_front : ℕ → List (ℕ × Str) → List (ℕ × Str)
splice_front it order = elim (lookup it order) [
  | none ↦ order
  | some key ↦ (it, key) ∷ erase it order
]

-- The new state, and whether the cache has become larger than its capacity.
unfoldable pub touch : Str → LruCache → LruCache × Bool
touch key c = elim (lookup key c.map) [
  | some it ↦ (record c { order = splice_front it c.order }, false)
  | none ↦
      let map' = insert key c.fresh c.map in
      (
        record c { order = (c.fresh, key) ∷ c.order; map = map'; fresh = c.fresh + 1 },
        ltb c.capacity (length map'),
      )
]

unfoldable pub remove : Str → LruCache → LruCache
remove key c = elim (lookup key c.map) [
  | none ↦ c
  | some it ↦ record c { order = erase it c.order; map = erase key c.map }
]

-- `order_.back()`
unfoldable pub back {ℓ} : {A : Type ℓ} → List A → Option A
back [] = none
back (n ∷ []) = some n
back (n ∷ m ∷ l) = back (m ∷ l)

unfoldable pub eviction_candidate : LruCache → Outcome Str
eviction_candidate c = elim (back c.order) [ none ↦ throws runtime_error | some n ↦ returns n.1 ]

-- `order_.pop_back()`
unfoldable pub pop_back {ℓ} : {A : Type ℓ} → List A → List A
pop_back [] = []
pop_back (n ∷ []) = []
pop_back (n ∷ m ∷ l) = n ∷ pop_back (m ∷ l)

unfoldable pub pop_eviction_candidate : LruCache → Outcome Str × LruCache
pop_eviction_candidate c = elim (back c.order) [
  | none ↦ (throws runtime_error, c)
  | some n ↦ (returns n.1, record c { order = pop_back c.order; map = erase n.1 c.map })
]

unfoldable pub size : LruCache → ℕ
size c = length c.map

unfoldable pub clear : LruCache → LruCache
clear c = record c { order = []; map = [] }
