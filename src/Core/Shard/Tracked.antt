-- ===== src/Core/Shard/Tracked.antt =====
-- src/core/shard.h: which operations keep the TTL index in step with the entries.
use kvmemo.Base.{
  ℕ, ◌≤◌, Str, Str_eq, ℕ_eq, List, [], ◌∷◌, ◌≡◌, refl, ap, ◌∙◌, ◌≢◌, none, some, ite, if_pos, true,
  arith, lookup, contains, if◌then◌else◌, inl, inr, Option-cases, Bool-cases,
}
use kvmemo.Base.Assoc
use kvmemo.Core.Entry.{Entry, is_expired, with_ttl, without_ttl, has_ttl}
use kvmemo.Core.Ttl
use kvmemo.Core.Ttl.{TtlIndex, collect_expired, upsert}
use kvmemo.Core.Ttl.Index
use kvmemo.Core.Ttl.Index.{time_of}
use kvmemo.Core.Ttl.Collect.{contains-collect_expired, time_of-collect_expired}
use kvmemo.Core.Lru.Order.{recent}
use kvmemo.Core.Shard.{
  Shard, remove_internal, remove_each, get, cleanup_expired, set, set_with_ttl, delete,
}
use kvmemo.Core.Shard.Invariant.{IsValid}
use kvmemo.Core.Shard.Place.{after_place, victim, stored, drop_victim}
use kvmemo.Core.Shard.Writes.{
  live, get-live, after_set, after_set_with_ttl, after_set_with_ttl-IsValid, get-after_set_with_ttl,
  set-after_set, set_with_ttl-after, index_with,
}
use kvmemo.Core.Shard.Sweep.{IsTracked, deadline, lookup-cleanup_expired, lookup-remove_each}

remove_internal-IsTracked : (k : Str) (s : Shard) → IsTracked s → IsTracked (remove_internal k s)
unfolding remove_internal
remove_internal-IsTracked k s t q =
    ground (arith, t q, Index.time_of-remove k q s.ttl_index, Assoc.lookup-erase k q s.store)

pub delete-IsTracked : (k : Str) (s : Shard) → IsTracked s → IsTracked (delete k s)
unfolding delete
delete-IsTracked k s t = remove_internal-IsTracked k s t

pub get-IsTracked : (now : ℕ) (k : Str) (s : Shard) → IsTracked s → IsTracked (get now k s).1
unfolding get
get-IsTracked now k s t = elim (Option-cases (lookup k s.store)) [
  | inl e ↦ rw (e, get) t
  | inr (entry, e) ↦ elim (Bool-cases (is_expired now entry)) [
    | inl x ↦ rw (e, get, x) (remove_internal-IsTracked k s t)
    | inr x ↦ rw (e, get, x) t
  ]
]

-- Storing an entry, with an index that gives the key the time of the entry.
place-IsTracked :
    (k : Str) (e : Entry) (x : TtlIndex) (s : Shard)
    → IsTracked s
    → ((q : Str) → time_of x q ≡ ite (Str_eq.dec k q) (deadline (some e)) (time_of s.ttl_index q))
    → IsTracked (after_place k e x s)
unfolding after_place stored drop_victim
place-IsTracked k e x s t h = elim (Option-cases (victim k s)) [
  | inl n ↦ rw (n, drop_victim) filed
  | inr (w, n) ↦ rw (n, drop_victim) (remove_internal-IsTracked w (stored k e x s) filed)
]
  where
    filed : IsTracked (stored k e x s)
    filed q = ground (arith, h q, t q, Assoc.lookup-insert k q e s.store)

-- `Set` keeps the index in step.
pub set-IsTracked :
    (now : ℕ) (k v : Str) (s : Shard) → IsValid s → IsTracked s → IsTracked (set now k v s).1
unfolding after_set without_ttl
set-IsTracked now k v s valid t = rw (set-after_set now k v s valid) (
    place-IsTracked k (without_ttl now v) (Ttl.remove k s.ttl_index) s t
      (λ q. Index.time_of-remove k q s.ttl_index))

time_of-index_with :
    (k q : Str) (e : Entry) (x : TtlIndex)
    → (e.expire_at ≢ 0)
    → time_of (index_with k e x) q ≡ ite (Str_eq.dec k q) (deadline (some e)) (time_of x q)
unfolding index_with has_ttl
time_of-index_with k q e x h = ground (arith, h, Index.time_of-upsert k q e.expire_at x)

-- On a valid shard `SetWithTTL` keeps the index in step with the entries, if the new entry has an
-- end.
pub set_with_ttl-IsTracked :
    (now ttl : ℕ) (k v : Str) (s : Shard)
    → IsValid s
    → IsTracked s
    → (with_ttl now v ttl).expire_at ≢ 0
    → IsTracked (set_with_ttl now k v ttl s).1
unfolding after_set_with_ttl
set_with_ttl-IsTracked now ttl k v s valid t h = rw (set_with_ttl-after now k v s valid ttl) (
    place-IsTracked k (with_ttl now v ttl) (index_with k (with_ttl now v ttl) s.ttl_index) s t
      (λ q. time_of-index_with k q (with_ttl now v ttl) s.ttl_index h))

time_of-remove_each :
    (q : Str) (keys : List Str) (s : Shard)
    → time_of (remove_each keys s).ttl_index q
      ≡ (if contains q keys then none else time_of s.ttl_index q)
unfolding remove_each contains remove_internal
time_of-remove_each q [] s = refl
time_of-remove_each q (k ∷ keys) s =
    ground (
      arith,
      time_of-remove_each q keys (remove_internal k s),
      Index.time_of-remove k q s.ttl_index,
    )

pub cleanup_expired-IsTracked :
    (now : ℕ) (s : Shard) → IsValid s → IsTracked s → IsTracked (cleanup_expired now s)
unfolding cleanup_expired
cleanup_expired-IsTracked now s v t q = ground (
  arith,
  t q,
  lookup-remove_each q (collect_expired now s.ttl_index).0
      (record s { ttl_index = (collect_expired now s.ttl_index).1 }),
  time_of-remove_each q (collect_expired now s.ttl_index).0
      (record s { ttl_index = (collect_expired now s.ttl_index).1 }),
  contains-collect_expired now s.ttl_index v.linked.ttl_valid q,
  time_of-collect_expired now s.ttl_index v.linked.ttl_valid q,
)

-- Rewriting a present key with TTL 0 leaves the index alone.
ttl_index-after_set_with_ttl :
    (now : ℕ) (k v : Str) (s : Shard)
    → contains k (recent s.lru) ≡ true
    → (after_set_with_ttl now k v 0 s).ttl_index ≡ s.ttl_index
unfolding after_set_with_ttl after_place stored drop_victim victim index_with has_ttl with_ttl
ttl_index-after_set_with_ttl now k v s h = ground arith

-- On a valid shard, if a key has a time in the index and is written with TTL 0, then at any time
-- from the old one on `Get` returns the new value, and yet `CleanupExpired` at that time removes
-- the key.
pub stale_ttl :
    (now later t : ℕ) (k v : Str) (s : Shard)
    → IsValid s
    → time_of s.ttl_index k ≡ some t
    → t ≤ later
    → ((get later k (set_with_ttl now k v 0 s).1).0 ≡ some v)
      × ((get later k (cleanup_expired later (set_with_ttl now k v 0 s).1)).0 ≡ none)
unfolding with_ttl is_expired
stale_ttl now later t k v s valid h le = rw (set_with_ttl-after now k v s valid 0) (
  get-after_set_with_ttl now later k v k s valid 0 ∙ if_pos (Str_eq.dec k k) refl _ _,
  get-live later k (cleanup_expired later (after_set_with_ttl now k v 0 s))
      ∙ ap (live later)
          (lookup-cleanup_expired later k _ (after_set_with_ttl-IsValid now k v s valid 0))
      ∙ ground (
        arith,
        le,
        h,
        valid.linked.ttl_stored k,
        valid.linked.same_keys k,
        ttl_index-after_set_with_ttl now k v s,
      ),
)
