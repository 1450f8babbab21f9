-- ===== src/Core/Ttl/Collect.antt =====
-- src/core/ttl_index.h: `CollectExpired` returns the keys that are due and forgets them.
use kvmemo.Base.{
  ℕ, ◌<◌, Str, Str_eq, ℕ_eq, List, [], ◌∷◌, ◌≡◌, refl, Option, none, some, Bool, false, arith,
  contains, leb, if◌then◌else◌, inl, inr, Bool-cases, Option-cases, lookup, erase, Unique,
}
use kvmemo.Base.Keys
use kvmemo.Base.Assoc
use kvmemo.Core.Ttl.{TtlIndex, collect_expired, collect_from, erase_all}
use kvmemo.Core.Ttl.Buckets.{Buckets, IsFilled, Over, bucket, bucket-Over}
use kvmemo.Core.Ttl.Index.{IsValid, Agrees, time_of}

abbrev pub is_due : ℕ → Option ℕ → Bool
is_due now none = false
is_due now (some t) = leb t now

pub lookup-erase_all :
    (q : Str) (keys : List Str) (index : List (Str × ℕ))
    → lookup q (erase_all keys index) ≡ (if contains q keys then none else lookup q index)
unfolding erase_all contains
lookup-erase_all q [] index = refl
lookup-erase_all q (k ∷ keys) index =
    ground (arith, lookup-erase_all q keys (erase k index), Assoc.lookup-erase k q index)

erase_all-Unique :
    (keys : List Str) (index : List (Str × ℕ)) → Unique index → Unique (erase_all keys index)
unfolding erase_all
erase_all-Unique [] index u = u
erase_all-Unique (k ∷ keys) index u =
    erase_all-Unique keys (erase k index) (Assoc.erase-Unique k index u)

module _ (t : ℕ) (keys : List Str) (m : Buckets) (index : List (Str × ℕ)) where
  -- Without its first bucket and the keys of it, the map still agrees with the index.
  pub tail-Agrees : Over t m → Agrees ((t, keys) ∷ m) index → Agrees m (erase_all keys index)
  unfolding bucket contains
  tail-Agrees o a k s =
      ground (
        arith,
        a k s,
        a k t,
        lookup-erase_all k keys index,
        bucket-Over s t m o,
        bucket-Over t t m o,
      )

  -- No key is due before the first bucket.
  none_due :
      (now : ℕ) (k : Str)
      → Over t m
      → Agrees ((t, keys) ∷ m) index
      → now < t
      → is_due now (lookup k index) ≡ false
  unfolding bucket contains
  none_due now k o a h = elim (Option-cases (lookup k index)) [
    | inl e ↦ rw e refl
    | inr (s, e) ↦ ground (arith, e, a k s, bucket-Over s t m o)
  ]

module _ (now : ℕ) where
  contains-collect_from :
      (k : Str) (m : Buckets) (index : List (Str × ℕ))
      → IsFilled m
      → Agrees m index
      → contains k (collect_from now m index).0 ≡ is_due now (lookup k index)
  unfolding collect_from bucket contains
  contains-collect_from k [] index f a = elim (Option-cases (lookup k index)) [
    | inl e ↦ rw e refl
    | inr (s, e) ↦ ground (arith, e, a k s)
  ]
  contains-collect_from k ((t, keys) ∷ m) index f a = ground (
    arith,
    contains-collect_from k m (erase_all keys index) f.3 (tail-Agrees t keys m index f.0 a),
    none_due t keys m index now k f.0 a,
    Keys.contains-append k keys (collect_from now m (erase_all keys index)).0,
    lookup-erase_all k keys index,
    a k t,
  )

  lookup-collect_from :
      (k : Str) (m : Buckets) (index : List (Str × ℕ))
      → IsFilled m
      → Agrees m index
      → lookup k (collect_from now m index).1.key_index
        ≡ (if is_due now (lookup k index) then none else lookup k index)
  unfolding collect_from bucket contains
  lookup-collect_from k [] index f a = elim (Option-cases (lookup k index)) [
    | inl e ↦ rw e refl
    | inr (s, e) ↦ ground (arith, e, a k s)
  ]
  lookup-collect_from k ((t, keys) ∷ m) index f a = ground (
    arith,
    lookup-collect_from k m (erase_all keys index) f.3 (tail-Agrees t keys m index f.0 a),
    none_due t keys m index now k f.0 a,
    lookup-erase_all k keys index,
    a k t,
  )

  collect_from-IsValid :
      (m : Buckets) (index : List (Str × ℕ))
      → IsFilled m
      → Unique index
      → Agrees m index
      → IsValid (collect_from now m index).1
  unfolding collect_from
  collect_from-IsValid [] index f u a = record { filled = tt; unique = u; agree = a }
  collect_from-IsValid ((t, keys) ∷ m) index f u a = elim (Bool-cases (leb t now)) [
    | inl e ↦ rw e (
        collect_from-IsValid m (erase_all keys index) f.3 (erase_all-Unique keys index u)
          (tail-Agrees t keys m index f.0 a))
    | inr e ↦ rw e (record { filled = f; unique = u; agree = a })
  ]

module _ (now : ℕ) (x : TtlIndex) (v : IsValid x) where
  -- From a valid index `CollectExpired` returns exactly the keys whose time has come, the time
  -- `now` itself included.
  pub contains-collect_expired :
      (k : Str) → contains k (collect_expired now x).0 ≡ is_due now (time_of x k)
  unfolding collect_expired
  contains-collect_expired k = contains-collect_from now k x.expiry_map x.key_index v.filled v.agree

  -- Collecting forgets the keys that are due, and keeps the times of all others.
  pub time_of-collect_expired :
      (k : Str)
      → time_of (collect_expired now x).1 k
        ≡ (if is_due now (time_of x k) then none else time_of x k)
  unfolding collect_expired
  time_of-collect_expired k = lookup-collect_from now k x.expiry_map x.key_index v.filled v.agree

  pub collect_expired-IsValid : IsValid (collect_expired now x).1
  unfolding collect_expired
  collect_expired-IsValid =
      collect_from-IsValid now x.expiry_map x.key_index v.filled v.unique v.agree
