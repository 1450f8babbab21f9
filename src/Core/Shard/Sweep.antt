-- ===== src/Core/Shard/Sweep.antt =====
-- src/core/shard.h: `CleanupExpired` removes the keys that the TTL index reports.
use kvmemo.Base.{
  ℕ, ◌≤◌, Str, Str_eq, ℕ_eq, List, [], ◌∷◌, ◌≡◌, refl, ap, sym, ◌∙◌, Option, none, some, arith,
  lookup, contains, ◌==◌, if◌then◌else◌,
}
use kvmemo.Base.Assoc
use kvmemo.Core.Entry.{Entry, is_expired}
use kvmemo.Core.Entry.Lifetime.{expired_mono}
use kvmemo.Core.Ttl.{collect_expired}
use kvmemo.Core.Ttl.Index.{time_of}
use kvmemo.Core.Ttl.Collect.{
  is_due, contains-collect_expired, time_of-collect_expired, collect_expired-IsValid,
}
use kvmemo.Core.Shard.{Shard, remove_internal, remove_each, get, cleanup_expired}
use kvmemo.Core.Shard.Invariant.{IsValid, remove_internal-IsValid}
use kvmemo.Core.Shard.Writes.{live, get-live}

pub lookup-remove_each :
    (q : Str) (keys : List Str) (s : Shard)
    → lookup q (remove_each keys s).store ≡ (if contains q keys then none else lookup q s.store)
unfolding remove_each contains remove_internal
lookup-remove_each q [] s = refl
lookup-remove_each q (k ∷ keys) s =
    ground (arith, lookup-remove_each q keys (remove_internal k s), Assoc.lookup-erase k q s.store)

remove_each-IsValid : (keys : List Str) (s : Shard) → IsValid s → IsValid (remove_each keys s)
unfolding remove_each
remove_each-IsValid [] s v = v
remove_each-IsValid (k ∷ keys) s v =
    remove_each-IsValid keys (remove_internal k s) (remove_internal-IsValid k s v)

-- The sweep removes exactly the stored keys whose time in the index has come.
pub lookup-cleanup_expired :
    (now : ℕ) (q : Str) (s : Shard)
    → IsValid s
    → lookup q (cleanup_expired now s).store
      ≡ (if is_due now (time_of s.ttl_index q) then none else lookup q s.store)
unfolding cleanup_expired
lookup-cleanup_expired now q s v = ground (
  arith,
  lookup-remove_each q (collect_expired now s.ttl_index).0
      (record s { ttl_index = (collect_expired now s.ttl_index).1 }),
  contains-collect_expired now s.ttl_index v.linked.ttl_valid q,
)

swept-IsValid :
    (now : ℕ) (s : Shard)
    → IsValid s
    → IsValid (record s { ttl_index = (collect_expired now s.ttl_index).1 })
swept-IsValid now s v = record {
  linked = record {
    lru_valid = v.linked.lru_valid;
    lru_capacity = v.linked.lru_capacity;
    unique = v.linked.unique;
    same_keys = v.linked.same_keys;
    ttl_valid = collect_expired-IsValid now s.ttl_index v.linked.ttl_valid;
    ttl_stored = λ k h.
        v.linked.ttl_stored k
          (ground (arith, h, time_of-collect_expired now s.ttl_index v.linked.ttl_valid k));
  };
  bounded = v.bounded;
}

pub cleanup_expired-IsValid : (now : ℕ) (s : Shard) → IsValid s → IsValid (cleanup_expired now s)
unfolding cleanup_expired
cleanup_expired-IsValid now s v =
    remove_each-IsValid (collect_expired now s.ttl_index).0 _ (swept-IsValid now s v)

-- The time at which an entry ends.
abbrev pub deadline : Option Entry → Option ℕ
deadline none = none
deadline (some e) = if e.expire_at == 0 then none else some e.expire_at

-- The index gives each key the time at which its entry ends, and no other key a time.
abbrev pub IsTracked : Shard → Type 0
IsTracked s = (k : Str) → time_of s.ttl_index k ≡ deadline (lookup k s.store)

is_due-deadline :
    (now : ℕ) (o : Option Entry)
    → (if is_due now (deadline o) then none else o)
      ≡ elim o [ none ↦ none | some e ↦ if is_expired now e then none else some e ]
unfolding is_expired
is_due-deadline now o = ground arith

-- On a tracked shard the sweep drops the expired entries, all of them, and no others.
pub lookup-sweep :
    (now : ℕ) (q : Str) (s : Shard)
    → IsValid s
    → IsTracked s
    → lookup q (cleanup_expired now s).store
      ≡ elim (lookup q s.store) [ none ↦ none | some e ↦ if is_expired now e then none else some e ]
lookup-sweep now q s v t =
    lookup-cleanup_expired now q s v
    ∙ ap (λ o. if is_due now o then none else lookup q s.store) (t q)
    ∙ is_due-deadline now (lookup q s.store)

live-sweep :
    (now later : ℕ) (o : Option Entry)
    → now ≤ later
    → live later (elim o [ none ↦ none | some e ↦ if is_expired now e then none else some e ])
      ≡ live later o
live-sweep now later none h = refl
live-sweep now later (some e) h = ground (arith, expired_mono now later e h)

-- On a valid shard whose index is in step with its entries, `CleanupExpired` changes no reply at
-- its own time or later.
pub get-cleanup_expired :
    (now later : ℕ) (q : Str) (s : Shard)
    → IsValid s
    → IsTracked s
    → now ≤ later
    → (get later q (cleanup_expired now s)).0 ≡ (get later q s).0
get-cleanup_expired now later q s v t h =
    get-live later q (cleanup_expired now s)
    ∙ ap (live later) (lookup-sweep now q s v t)
    ∙ live-sweep now later (lookup q s.store) h
    ∙ sym (get-live later q s)
