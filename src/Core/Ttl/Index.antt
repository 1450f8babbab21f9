-- ===== src/Core/Ttl/Index.antt =====
-- src/core/ttl_index.h: the invariant of the two maps, and `Upsert` and `Remove` as operations on
-- a finite map from keys to times.
use kvmemo.Base.{
  ℕ, Str, Str_eq, ℕ_eq, List, [], ◌∷◌, ◌≡◌, refl, ap, ◌∙◌, Option, none, some, Bool, false, arith,
  contains, Distinct, ◌==◌, inl, inr, Option-cases, lookup, insert, erase, Unique, ite,
}
use kvmemo.Base.Keys
use kvmemo.Base.Assoc
use kvmemo.Core.Ttl
use kvmemo.Core.Ttl.{TtlIndex, upsert, push_key, drop_key}
use kvmemo.Core.Ttl.Buckets.{
  Buckets, IsFilled, bucket, bucket-push_key, bucket-drop_key, push_key-IsFilled, drop_key-IsFilled,
}

abbrev pub is_at : ℕ → Option ℕ → Bool
is_at t none = false
is_at t (some u) = u == t

-- The bucket of each time holds the keys that the index gives this time.
abbrev pub Agrees : Buckets → List (Str × ℕ) → Type 0
Agrees m index = (k : Str) (t : ℕ) → contains k (bucket t m) ≡ is_at t (lookup k index)

pub record IsValid (x : TtlIndex) : Type 0 where
  pub filled : IsFilled x.expiry_map
  pub unique : Unique x.key_index
  pub agree : Agrees x.expiry_map x.key_index

-- What the index stands for: the expiry time of a key.
abbrev pub time_of : TtlIndex → Str → Option ℕ
time_of x k = lookup k x.key_index

pub new-IsValid : IsValid Ttl.new
unfolding bucket contains lookup
new-IsValid = record { filled = tt; unique = tt; agree = λ k t. refl }

pub time_of-remove :
    (k q : Str) (x : TtlIndex)
    → time_of (Ttl.remove k x) q ≡ ite (Str_eq.dec k q) none (time_of x q)
unfolding Ttl.remove
time_of-remove k q x = ground (arith, Assoc.lookup-erase k q x.key_index)

pub time_of-upsert :
    (k q : Str) (t : ℕ) (x : TtlIndex)
    → time_of (upsert k t x) q ≡ ite (Str_eq.dec k q) (some t) (time_of x q)
unfolding upsert
time_of-upsert k q t x =
    ground (arith, Assoc.lookup-insert k q t (Ttl.remove k x).key_index, time_of-remove k q x)

bucket-Distinct : (t : ℕ) (m : Buckets) → IsFilled m → Distinct (bucket t m)
unfolding bucket
bucket-Distinct t [] f = tt
bucket-Distinct t ((u, keys) ∷ m) f = ground (arith, bucket-Distinct t m f.3)

drop-agree :
    (k q : Str) (s t : ℕ) (x : TtlIndex)
    → IsValid x
    → lookup k x.key_index ≡ some s
    → contains q (bucket t (drop_key s k x.expiry_map)) ≡ is_at t (lookup q (erase k x.key_index))
drop-agree k q s t x v h = ground (
  arith,
  bucket-drop_key t s k x.expiry_map v.filled,
  Keys.remove_first-remove k (bucket t x.expiry_map) (bucket-Distinct t x.expiry_map v.filled),
  Keys.contains-remove k q (bucket t x.expiry_map),
  Assoc.lookup-erase k q x.key_index,
  v.agree q t,
)

pub remove-IsValid : (k : Str) (x : TtlIndex) → IsValid x → IsValid (Ttl.remove k x)
unfolding Ttl.remove
remove-IsValid k x v = elim (Option-cases (lookup k x.key_index)) [
  | inl e ↦ rw (e, Ttl.remove) v
  | inr (s, e) ↦
      rw (e, Ttl.remove)
        (record {
          filled = drop_key-IsFilled s k x.expiry_map v.filled;
          unique = Assoc.erase-Unique k x.key_index v.unique;
          agree = λ q t. drop-agree k q s t x v e;
        })
]

-- Filing a key that has no time.
file-agree :
    (k q : Str) (s t : ℕ) (x : TtlIndex)
    → IsValid x
    → lookup k x.key_index ≡ none
    → contains q (bucket t (push_key s k x.expiry_map))
      ≡ is_at t (lookup q (insert k s x.key_index))
unfolding contains
file-agree k q s t x v h = ground (
  arith,
  bucket-push_key t s k x.expiry_map v.filled,
  Keys.contains-append q (bucket t x.expiry_map) (k ∷ []),
  Assoc.lookup-insert k q s x.key_index,
  v.agree q t,
)

file-IsValid :
    (k : Str) (s : ℕ) (x : TtlIndex)
    → IsValid x
    → lookup k x.key_index ≡ none
    → IsValid
        (record { expiry_map = push_key s k x.expiry_map; key_index = insert k s x.key_index })
file-IsValid k s x v h = record {
  filled = push_key-IsFilled s k x.expiry_map v.filled (v.agree k s ∙ ap (is_at s) h);
  unique = Assoc.insert-Unique k s x.key_index v.unique;
  agree = λ q t. file-agree k q s t x v h;
}

-- `Upsert` keeps the two maps of a valid index in step.
pub upsert-IsValid : (k : Str) (t : ℕ) (x : TtlIndex) → IsValid x → IsValid (upsert k t x)
unfolding upsert
upsert-IsValid k t x v =
    file-IsValid k t (Ttl.remove k x) (remove-IsValid k x v) (ground (arith, time_of-remove k k x))
