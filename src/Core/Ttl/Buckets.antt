-- ===== src/Core/Ttl/Buckets.antt =====
-- src/core/ttl_index.h: the buckets of `expiry_map_`.
use kvmemo.Base.{
  ℕ, ◌<◌, ◌≤◌, Str, Str_eq, ℕ_eq, List, [], ◌∷◌, ◌++◌, ◌≡◌, refl, ◌≢◌, false, arith, contains,
  remove, remove_first, Distinct, ◌==◌, if◌then◌else◌, inl, inr, Bool-cases,
}
use kvmemo.Base.Keys
use kvmemo.Core.Ttl.{push_key, drop_key, keep_filled}

abbrev pub Buckets : Type 0
Buckets = List (ℕ × List Str)

-- Every time of the map is later than `t`.
abbrev pub Over : ℕ → Buckets → Type 0
Over t [] = Unit
Over t ((u, keys) ∷ m) = (t < u) × Over t m

-- A map of `std::map`, whose buckets are never empty and hold no key twice.
abbrev pub IsFilled : Buckets → Type 0
IsFilled [] = Unit
IsFilled ((t, keys) ∷ m) = Over t m × (keys ≢ []) × Distinct keys × IsFilled m

unfoldable pub bucket : ℕ → Buckets → List Str
bucket t [] = []
bucket t ((u, keys) ∷ m) = if u == t then keys else bucket t m

pub bucket-Over : (s t : ℕ) (m : Buckets) → Over t m → s ≤ t → bucket s m ≡ []
unfolding bucket
bucket-Over s t [] o h = refl
bucket-Over s t ((u, keys) ∷ m) o h = ground (arith, bucket-Over s t m o.1)

pub Over-mono : (s t : ℕ) (m : Buckets) → Over t m → s ≤ t → Over s m
Over-mono s t [] o h = tt
Over-mono s t ((u, keys) ∷ m) o h = (omega arith, Over-mono s t m o.1 h)

Over-push_key : (s t : ℕ) (k : Str) (m : Buckets) → Over s m → s < t → Over s (push_key t k m)
unfolding push_key
Over-push_key s t k [] o h = (h, tt)
Over-push_key s t k ((u, keys) ∷ m) o h = ground (arith, Over-push_key s t k m o.1 h)

Over-drop_key : (s t : ℕ) (k : Str) (m : Buckets) → Over s m → Over s (drop_key t k m)
unfolding drop_key
Over-drop_key s t k [] o = tt
Over-drop_key s t k ((u, keys) ∷ m) o = ground (arith, Over-drop_key s t k m o.1)

append-ne-nil : (ks : List Str) (k : Str) → ks ++ k ∷ [] ≢ []
append-ne-nil [] k = λ e. cc e
append-ne-nil (j ∷ ks) k = λ e. cc e

pub bucket-push_key :
    (s t : ℕ) (k : Str) (m : Buckets)
    → IsFilled m
    → bucket s (push_key t k m) ≡ (if t == s then bucket s m ++ k ∷ [] else bucket s m)
unfolding bucket push_key
bucket-push_key s t k [] f = ground arith
bucket-push_key s t k ((u, keys) ∷ m) f =
    ground (arith, bucket-push_key s t k m f.3, bucket-Over s u m f.0)

pub bucket-drop_key :
    (s t : ℕ) (k : Str) (m : Buckets)
    → IsFilled m
    → bucket s (drop_key t k m) ≡ (if t == s then remove_first k (bucket s m) else bucket s m)
unfolding bucket drop_key remove_first
bucket-drop_key s t k [] f = ground arith
bucket-drop_key s t k ((u, keys) ∷ m) f =
    ground (arith, bucket-drop_key s t k m f.3, bucket-Over s u m f.0)

pub push_key-IsFilled :
    (t : ℕ) (k : Str) (m : Buckets)
    → IsFilled m
    → contains k (bucket t m) ≡ false
    → IsFilled (push_key t k m)
unfolding bucket push_key contains
push_key-IsFilled t k [] f h = (tt, (λ e. cc e), (refl, tt), tt)
push_key-IsFilled t k ((u, keys) ∷ m) f h = ground (
  arith,
  push_key-IsFilled t k m f.3,
  Over-push_key u t k m f.0,
  Over-mono t u m f.0,
  append-ne-nil keys k,
  Keys.concat-Distinct k keys,
  bucket-Over t u m f.0,
)

keep_filled-IsFilled :
    (u : ℕ) (k : Str) (keys : List Str) (m : Buckets)
    → IsFilled ((u, keys) ∷ m)
    → IsFilled (keep_filled u (remove_first k keys) m)
keep_filled-IsFilled u k keys m f =
    rw (Keys.remove_first-remove k keys f.2) (go (remove k keys) (Keys.remove-Distinct k keys f.2))
  where
    go : (l : List Str) → Distinct l → IsFilled (keep_filled u l m)
    go [] d = f.3
    go (j ∷ l) d = (f.0, (λ e. cc e), d, f.3)

pub drop_key-IsFilled : (t : ℕ) (k : Str) (m : Buckets) → IsFilled m → IsFilled (drop_key t k m)
unfolding drop_key
drop_key-IsFilled t k [] f = tt
drop_key-IsFilled t k ((u, keys) ∷ m) f = elim (Bool-cases (u == t)) [
  | inl e ↦ rw e (keep_filled-IsFilled u k keys m f)
  | inr e ↦ rw e (Over-drop_key u t k m f.0, f.1, f.2, drop_key-IsFilled t k m f.3)
]
