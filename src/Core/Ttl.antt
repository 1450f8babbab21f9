-- ===== src/Core/Ttl.antt =====
-- src/core/ttl_index.h: `TTLIndex`, a sorted map from each expiry time to the keys that expire
-- then, and a map from each key to its expiry time. `std::map` is an association list that is
-- kept in ascending order of its keys.
pub mod Buckets
pub mod Index
pub mod Collect
pub mod Sorted
use kvmemo.Base.{
  ℕ, Str, Str_eq, ℕ_eq, List, [], ◌∷◌, ◌++◌, Option, none, some, lookup, insert, erase,
  remove_first, length, ltb, leb, ◌==◌, if◌then◌else◌,
}

pub record TtlIndex : Type 0 where
  pub expiry_map : List (ℕ × List Str)
  pub key_index : List (Str × ℕ)

abbrev pub new : TtlIndex
new = record { expiry_map = []; key_index = [] }

-- `expiry_map_[expire_at].push_back(key)`
unfoldable pub push_key : ℕ → Str → List (ℕ × List Str) → List (ℕ × List Str)
push_key t key [] = (t, key ∷ []) ∷ []
push_key t key ((u, keys) ∷ m) =
    if ltb t u
    then (t, key ∷ []) ∷ (u, keys) ∷ m
    else if u == t
    then (u, keys ++ key ∷ []) ∷ m
    else (u, keys) ∷ push_key t key m

-- a bucket that became empty is erased from the map
abbrev pub keep_filled : ℕ → List Str → List (ℕ × List Str) → List (ℕ × List Str)
keep_filled u [] m = m
keep_filled u (key ∷ keys) m = (u, key ∷ keys) ∷ m

-- the search of `Remove` in the bucket of time `t`
unfoldable pub drop_key : ℕ → Str → List (ℕ × List Str) → List (ℕ × List Str)
drop_key t key [] = []
drop_key t key ((u, keys) ∷ m) =
    if u == t then keep_filled u (remove_first key keys) m else (u, keys) ∷ drop_key t key m

unfoldable pub remove : Str → TtlIndex → TtlIndex
remove key x = elim (lookup key x.key_index) [
  | none ↦ x
  | some ts ↦ record {
    expiry_map = drop_key ts key x.expiry_map;
    key_index = erase key x.key_index;
  }
]

unfoldable pub upsert : Str → ℕ → TtlIndex → TtlIndex
unfolding remove
upsert key expire_at x =
    let x' = remove key x in
    record {
      expiry_map = push_key expire_at key x'.expiry_map;
      key_index = insert key expire_at x'.key_index;
    }

-- the inner loop of `CollectExpired` on the index
unfoldable pub erase_all : List Str → List (Str × ℕ) → List (Str × ℕ)
erase_all [] index = index
erase_all (key ∷ keys) index = erase_all keys (erase key index)

-- The loop of `CollectExpired`, on the buckets that are left and the index: what it collects
-- from there on, and the two maps that it leaves.
unfoldable pub collect_from : ℕ → List (ℕ × List Str) → List (Str × ℕ) → List Str × TtlIndex
unfolding erase_all
collect_from now [] index = ([], record { expiry_map = []; key_index = index })
collect_from now ((t, keys) ∷ m) index =
    let (more, x) = collect_from now m (erase_all keys index) in
    if leb t now
    then (keys ++ more, x)
    else ([], record { expiry_map = (t, keys) ∷ m; key_index = index })

unfoldable pub collect_expired : ℕ → TtlIndex → List Str × TtlIndex
unfolding collect_from
collect_expired now x = collect_from now x.expiry_map x.key_index

unfoldable pub size : TtlIndex → ℕ
size x = length x.key_index

unfoldable pub clear : TtlIndex → TtlIndex
clear x = record { expiry_map = []; key_index = [] }
