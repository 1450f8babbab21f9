-- ===== src/Core/Ttl/Sorted.antt =====
-- src/core/ttl_index.h: the order in which `CollectExpired` returns the keys.
use kvmemo.Base.{
  ℕ, ◌≤◌, Str, Str_eq, ℕ_eq, List, [], ◌∷◌, ◌++◌, ◌≡◌, Option, some, true, arith, contains, leb,
  inl, inr, Bool-cases, lookup,
}
use kvmemo.Base.Keys
use kvmemo.Core.Ttl.{TtlIndex, collect_expired, collect_from, erase_all}
use kvmemo.Core.Ttl.Buckets.{Buckets, IsFilled, Over, bucket}
use kvmemo.Core.Ttl.Index.{IsValid, Agrees, time_of}
use kvmemo.Core.Ttl.Collect.{lookup-erase_all, tail-Agrees}

-- Each key has a time, and the times do not fall along the list, from `lo` on.
abbrev pub Ascending : (Str → Option ℕ) → ℕ → List Str → Type 0
Ascending time lo [] = Unit
Ascending time lo (k ∷ keys) = (t : ℕ) × (time k ≡ some t) × (lo ≤ t) × Ascending time t keys

Ascending-widen :
    (f g : Str → Option ℕ) (lo : ℕ) (keys : List Str)
    → ((k : Str) (t : ℕ) → f k ≡ some t → g k ≡ some t)
    → Ascending f lo keys
    → Ascending g lo keys
Ascending-widen f g lo [] h a = tt
Ascending-widen f g lo (k ∷ keys) h (t, e, l, a) = (t, h k t e, l, Ascending-widen f g t keys h a)

-- A bucket of time `t` before later keys.
bucket-Ascending :
    (f : Str → Option ℕ) (lo t : ℕ) (keys more : List Str)
    → lo ≤ t
    → ((k : Str) → contains k keys ≡ true → f k ≡ some t)
    → Ascending f t more
    → Ascending f lo (keys ++ more)
unfolding contains
bucket-Ascending f lo t [] [] l h a = tt
bucket-Ascending f lo t [] (k ∷ more) l h (u, e, le, a) = (u, e, omega arith, a)
bucket-Ascending f lo t (k ∷ keys) more l h a = (
  t,
  h k (Keys.contains_head k keys),
  l,
  bucket-Ascending f t t keys more (omega arith) (λ j c. h j (ground (arith, c))) a,
)

in_bucket :
    (t : ℕ) (keys : List Str) (m : Buckets) (index : List (Str × ℕ)) (k : Str)
    → Agrees ((t, keys) ∷ m) index
    → contains k keys ≡ true
    → lookup k index ≡ some t
unfolding bucket
in_bucket t keys m index k a c = ground (arith, a k t, c)

-- The first time of a map is `lo` or later.
abbrev From : ℕ → Buckets → Type 0
From lo [] = Unit
From lo ((u, keys) ∷ m) = lo ≤ u

From-Over : (t : ℕ) (m : Buckets) → Over t m → From t m
From-Over t [] o = tt
From-Over t ((u, keys) ∷ m) o = omega arith

From-zero : (m : Buckets) → From 0 m
From-zero [] = tt
From-zero ((u, keys) ∷ m) = omega arith

collect_from-Ascending :
    (now lo : ℕ) (m : Buckets) (index : List (Str × ℕ))
    → IsFilled m
    → Agrees m index
    → From lo m
    → Ascending (λ k. lookup k index) lo (collect_from now m index).0
unfolding collect_from
collect_from-Ascending now lo [] index f a b = tt
collect_from-Ascending now lo ((t, keys) ∷ m) index f a b = elim (Bool-cases (leb t now)) [
  | inr e ↦ rw e tt
  | inl e ↦ rw e (
      bucket-Ascending (λ k. lookup k index) lo t keys (collect_from now m (erase_all keys index)).0
        b (λ k c. in_bucket t keys m index k a c)
        (Ascending-widen (λ k. lookup k (erase_all keys index)) (λ k. lookup k index) t _
          (λ k u h. ground (arith, h, lookup-erase_all k keys index))
          (collect_from-Ascending now t m (erase_all keys index) f.3
            (tail-Agrees t keys m index f.0 a) (From-Over t m f.0))))
]

-- From a valid index `CollectExpired` returns keys that have a time, in the order of their times.
pub collect_expired-Ascending :
    (now : ℕ) (x : TtlIndex) → IsValid x → Ascending (time_of x) 0 (collect_expired now x).0
unfolding collect_expired
collect_expired-Ascending now x v =
    collect_from-Ascending now 0 x.expiry_map x.key_index v.filled v.agree (From-zero x.expiry_map)
