-- ===== src/Core/Lru/Order.antt =====
-- src/core/lru_cache.h: the invariant of the two structures, and what each operation does to the
-- order of use.
use kvmemo.Base.{
  returns, throws, runtime_error, ℕ, suc, ◌+◌, ◌<◌, Str, Str_eq, ℕ_eq, List, [], ◌∷◌, ◌≡◌, refl, ap,
  sym, ◌∙◌, none, some, false, arith, lookup, insert, erase, Unique, contains, Distinct, is_some,
  length, ltb, if◌then◌else◌, inl, inr, Option-cases,
}
use kvmemo.Base.Assoc
use kvmemo.Base.Keys
use kvmemo.Core.Lru
use kvmemo.Core.Lru.{LruCache, splice_front, touch, back, pop_back, pop_eviction_candidate, new}
use kvmemo.Core.Lru.Nodes.{
  node_keys, node_of, Below, Below-erase, Below-node_of, Below-suc, Below-lookup, contains-node_of,
  lookup-node_of, keys-erase, node_of-erase, back-keys, back-keys_none, back-node_of, back_of_nil,
  pop_back-erase,
}

-- The keys in the order of their last use, the most recent one first.
abbrev pub recent : LruCache → List Str
recent c = node_keys c.order

pub record IsValid (c : LruCache) : Type 0 where
  pub positive : 0 < c.capacity
  pub ids : Unique c.order
  pub distinct : Distinct (node_keys c.order)
  pub below : Below c.fresh c.order
  pub unique : Unique c.map
  -- each stored iterator names the node of its key, and each node is named
  pub agree : (k : Str) → lookup k c.map ≡ node_of k c.order

pub empty-IsValid : (cap : ℕ) → 0 < cap → IsValid (Lru.empty cap)
unfolding node_of lookup
empty-IsValid cap h = record {
  positive = h;
  ids = tt;
  distinct = tt;
  below = tt;
  unique = tt;
  agree = λ k. refl;
}

pub mapped-recent :
    (k : Str) (c : LruCache) → IsValid c → contains k (recent c) ≡ is_some (lookup k c.map)
mapped-recent k c v = contains-node_of k c.order ∙ ap is_some (sym (v.agree k))

pub length-map : (c : LruCache) → IsValid c → length c.map ≡ length (recent c)
length-map c v =
    sym (Keys.same_size (recent c) c.map v.distinct v.unique (λ k. mapped-recent k c v))

-- Erasing the node and the map entry of a key.
abbrev unlink : Str → ℕ → LruCache → LruCache
unlink key id c = record c { order = erase id c.order; map = erase key c.map }

unlink-IsValid :
    (k : Str) (id : ℕ) (c : LruCache)
    → IsValid c
    → node_of k c.order ≡ some id
    → IsValid (unlink k id c)
unlink-IsValid k id c v h = record {
  positive = v.positive;
  ids = Assoc.erase-Unique id c.order v.ids;
  distinct =
      rw (keys-erase k id c.order v.ids v.distinct h)
        (Keys.remove-Distinct k (recent c) v.distinct);
  below = Below-erase c.fresh id c.order v.below;
  unique = Assoc.erase-Unique k c.map v.unique;
  agree = λ q. ground (
    arith,
    Assoc.lookup-erase k q c.map,
    node_of-erase k q id c.order v.ids v.distinct h,
    v.agree q,
  );
}

pub remove-IsValid : (k : Str) (c : LruCache) → IsValid c → IsValid (Lru.remove k c)
unfolding Lru.remove
remove-IsValid k c v = elim (Option-cases (lookup k c.map)) [
  | inl e ↦ rw (e, Lru.remove) v
  | inr (id, e) ↦ rw (e, Lru.remove) (unlink-IsValid k id c v (sym (v.agree k) ∙ e))
]

pub recent-remove :
    (k : Str) (c : LruCache) → IsValid c → recent (Lru.remove k c) ≡ Keys.remove k (recent c)
unfolding Lru.remove
recent-remove k c v = elim (Option-cases (lookup k c.map)) [
  | inl e ↦
      rw (e, Lru.remove)
        (sym (Keys.remove_absent k (recent c) (mapped-recent k c v ∙ ap is_some e)))
  | inr (id, e) ↦
      rw (e, Lru.remove) (keys-erase k id c.order v.ids v.distinct (sym (v.agree k) ∙ e))
]

-- What `touch` does, by whether the key is present.
hit : Str → ℕ → LruCache → LruCache
hit key id c = record c { order = (id, key) ∷ erase id c.order }

miss : Str → LruCache → LruCache
miss key c = record c {
  order = (c.fresh, key) ∷ c.order;
  map = insert key c.fresh c.map;
  fresh = c.fresh + 1;
}

touch-hit :
    (k : Str) (id : ℕ) (c : LruCache)
    → IsValid c
    → lookup k c.map ≡ some id
    → touch k c ≡ (hit k id c, false)
unfolding touch splice_front hit
touch-hit k id c v e = ground (arith, e, lookup-node_of k id c.order v.ids (sym (v.agree k) ∙ e))

touch-miss :
    (k : Str) (c : LruCache)
    → lookup k c.map ≡ none
    → touch k c ≡ (miss k c, ltb c.capacity (suc (length c.map)))
unfolding touch miss
touch-miss k c e = ground (arith, Assoc.length-insert_new k c.fresh c.map e)

hit-IsValid :
    (k : Str) (id : ℕ) (c : LruCache)
    → IsValid c
    → node_of k c.order ≡ some id
    → IsValid (hit k id c)
unfolding hit node_of
hit-IsValid k id c v h = record {
  positive = v.positive;
  ids = (Assoc.lookup-erase_self id c.order, Assoc.erase-Unique id c.order v.ids);
  distinct =
      rw (keys-erase k id c.order v.ids v.distinct h)
        (Keys.contains-remove_self k (recent c), Keys.remove-Distinct k (recent c) v.distinct);
  below = (Below-node_of c.fresh k id c.order v.below h, Below-erase c.fresh id c.order v.below);
  unique = v.unique;
  agree = λ q. ground (arith, node_of-erase k q id c.order v.ids v.distinct h, v.agree q);
}

miss-IsValid : (k : Str) (c : LruCache) → IsValid c → lookup k c.map ≡ none → IsValid (miss k c)
unfolding miss node_of
miss-IsValid k c v e = record {
  positive = v.positive;
  ids = (Below-lookup c.fresh c.order v.below, v.ids);
  distinct = (mapped-recent k c v ∙ ap is_some e, v.distinct);
  below = (omega arith, Below-suc c.fresh c.order v.below);
  unique = Assoc.insert-Unique k c.fresh c.map v.unique;
  agree = λ q. ground (arith, Assoc.lookup-insert k q c.fresh c.map, v.agree q);
}

-- `touch` keeps the list of nodes and the map of iterators in step.
pub touch-IsValid : (k : Str) (c : LruCache) → IsValid c → IsValid (touch k c).0
touch-IsValid k c v = elim (Option-cases (lookup k c.map)) [
  | inl e ↦ rw (touch-miss k c e) (miss-IsValid k c v e)
  | inr (id, e) ↦ rw (touch-hit k id c v e) (hit-IsValid k id c v (sym (v.agree k) ∙ e))
]

-- In a valid cache `Touch` puts the key first, and the others keep their order.
pub recent-touch :
    (k : Str) (c : LruCache) → IsValid c → recent (touch k c).0 ≡ k ∷ Keys.remove k (recent c)
unfolding hit miss
recent-touch k c v = elim (Option-cases (lookup k c.map)) [
  | inl e ↦
      rw (touch-miss k c e)
        (ap (◌∷◌ k) (sym (Keys.remove_absent k (recent c) (mapped-recent k c v ∙ ap is_some e))))
  | inr (id, e) ↦
      rw (touch-hit k id c v e)
        (ap (◌∷◌ k) (keys-erase k id c.order v.ids v.distinct (sym (v.agree k) ∙ e)))
]

-- `touch` reports an overflow exactly when a new key makes the cache larger than its capacity.
pub touch_overflow :
    (k : Str) (c : LruCache)
    → IsValid c
    → (touch k c).1
      ≡ (if contains k (recent c) then false else ltb c.capacity (suc (length (recent c))))
touch_overflow k c v = elim (Option-cases (lookup k c.map)) [
  | inl e ↦ rw (touch-miss k c e, mapped-recent k c v, e, length-map c v) refl
  | inr (id, e) ↦ rw (touch-hit k id c v e, mapped-recent k c v, e) refl
]

pub capacity-touch : (k : Str) (c : LruCache) → (touch k c).0.capacity ≡ c.capacity
unfolding touch
capacity-touch k c = ground arith

pub capacity-remove : (k : Str) (c : LruCache) → (Lru.remove k c).capacity ≡ c.capacity
unfolding Lru.remove
capacity-remove k c = ground arith

-- `PopEvictionCandidate` of a valid cache that is not empty returns the key used least recently,
-- and leaves the cache without it.
pub pop-recent :
    (c : LruCache) (k : Str)
    → IsValid c
    → back (recent c) ≡ some k
    → pop_eviction_candidate c ≡ (returns k, Lru.remove k c)
unfolding pop_eviction_candidate Lru.remove back
pop-recent c k v h = elim (Option-cases (back c.order)) [
  | inl e ↦ absurd (ground (arith, ap back (back-keys_none c.order e)))
  | inr (n, e) ↦ ground (
    arith,
    e,
    back-keys c.order n e,
    back-node_of c.order n v.distinct e,
    v.agree n.1,
    pop_back-erase c.order n v.ids e,
  )
]

pub pop_empty :
    (c : LruCache) → recent c ≡ [] → pop_eviction_candidate c ≡ (throws runtime_error, c)
unfolding pop_eviction_candidate
pop_empty c h = ground (arith, back_of_nil c.order h)
