-- ===== src/Eviction/Manager/Victims.antt =====
-- src/eviction/eviction_manager.h: which keys `CollectEvictionCandidates` returns under `LRUPolicy`.
use kvmemo.Base.{
  ℕ, zero, suc, ◌+◌, ◌-◌, ◌*◌, ◌/◌, ◌≤◌, ◌<◌, Str, Str_eq, List, [], ◌∷◌, ◌++◌, ◌≡◌, refl, sym, ap,
  ◌∙◌, some, returns, throws, runtime_error, true, false, arith, length, take, drop, u64_mod,
}
use mathlib.Core.List.{append-nil, append_assoc}
use kvmemo.Core.Lru
use kvmemo.Core.Lru.{LruCache}
use kvmemo.Core.Lru.Order
use kvmemo.Core.Lru.Order.{recent}
use kvmemo.Core.Lru.Back.{oldest, oldest-back, oldest-remove, oldest-nil}
use kvmemo.Eviction.Memory.{release, is_over_limit}
use kvmemo.Eviction.Policy.{lru_policy, select_victim_last, select_victim_empty}
use kvmemo.Eviction.Manager.{EvictionManager, collect, entry_bytes}

abbrev pub LruManager : Type 0
LruManager = EvictionManager LruCache

abbrev pub usage : LruManager → ℕ
usage m = m.memory_tracker.current_memory_bytes

abbrev pub limit : LruManager → ℕ
limit m = m.memory_tracker.max_memory_bytes

-- The number of entries that have to go before the usage is within the limit.
abbrev pub excess : LruManager → ℕ
excess m = (usage m - limit m + 99) / 100

-- The manager after the eviction of one key.
evict : Str → LruManager → LruManager
evict k m = record {
  memory_tracker = release entry_bytes m.memory_tracker;
  policy = Lru.remove k m.policy;
}

collect_none :
    (fuel : ℕ) (m : LruManager) (victims : List Str)
    → is_over_limit m.memory_tracker ≡ false
    → collect lru_policy (suc fuel) m victims ≡ some (returns victims, m)
unfolding collect
collect_none fuel m victims h = ground (arith, h)

collect_one :
    (fuel : ℕ) (m : LruManager) (victims rest : List Str) (k : Str)
    → Order.IsValid m.policy
    → is_over_limit m.memory_tracker ≡ true
    → oldest (recent m.policy) ≡ k ∷ rest
    → collect lru_policy (suc fuel) m victims
      ≡ collect lru_policy fuel (evict k m) (victims ++ k ∷ [])
unfolding collect evict
collect_one fuel m victims rest k v h e =
    ground (arith, h, select_victim_last m.policy k v (oldest-back (recent m.policy) rest k e))

collect_stuck :
    (fuel : ℕ) (m : LruManager) (victims : List Str)
    → is_over_limit m.memory_tracker ≡ true
    → oldest (recent m.policy) ≡ []
    → collect lru_policy (suc fuel) m victims ≡ some (throws runtime_error, m)
unfolding collect
collect_stuck fuel m victims h e =
    ground (arith, h, select_victim_empty m.policy (oldest-nil (recent m.policy) e))

oldest-evict :
    (m : LruManager) (rest : List Str) (k : Str)
    → Order.IsValid m.policy
    → oldest (recent m.policy) ≡ k ∷ rest
    → oldest (recent (evict k m).policy) ≡ rest
unfolding evict
oldest-evict m rest k v e =
    ap oldest (Order.recent-remove k m.policy v)
    ∙ oldest-remove (recent m.policy) rest k v.distinct e

evict-IsValid :
    (m : LruManager) (k : Str) → Order.IsValid m.policy → Order.IsValid (evict k m).policy
unfolding evict
evict-IsValid m k v = Order.remove-IsValid k m.policy v

usage-evict :
    (m : LruManager) (k : Str)
    → entry_bytes ≤ limit m
    → usage m < u64_mod
    → is_over_limit m.memory_tracker ≡ true
    → (usage (evict k m) + entry_bytes ≡ usage m)
      × (limit (evict k m) ≡ limit m)
      × (excess m ≡ suc (excess (evict k m)))
unfolding evict release is_over_limit
usage-evict m k h b o = (ground arith, refl, ground arith)

over_of_excess : (m : LruManager) → 0 < excess m → is_over_limit m.memory_tracker ≡ true
unfolding is_over_limit
over_of_excess m h = ground arith

within_of_excess : (m : LruManager) → excess m ≡ 0 → is_over_limit m.memory_tracker ≡ false
unfolding is_over_limit
within_of_excess m h = ground arith

-- What the loop leaves when it has returned the oldest `n` of the keys `old`.
pub record Evicted (n : ℕ) (old : List Str) (m m' : LruManager) : Type 0 where
  pub within : is_over_limit m'.memory_tracker ≡ false
  pub account : usage m' + n * entry_bytes ≡ usage m
  pub kept : oldest (recent m'.policy) ≡ drop n old
  pub valid : Order.IsValid m'.policy

collect-take :
    (n fuel : ℕ) (m : LruManager) (victims old : List Str)
    → Order.IsValid m.policy
    → entry_bytes ≤ limit m
    → usage m < u64_mod
    → oldest (recent m.policy) ≡ old
    → excess m ≡ n
    → n ≤ length old
    → n < fuel
    → (m' : LruManager) × (collect lru_policy fuel m victims
        ≡ some (returns (victims ++ take n old), m'))
      × Evicted n old m m'
collect-take n zero m victims old v h b e x l f = absurd (omega arith)
collect-take zero (suc fuel) m victims old v h b e x l f =
    let fine = within_of_excess m x in
    (
      m,
      collect_none fuel m victims fine ∙ ap (λ t. some (returns t, m)) (sym (append-nil victims)),
      record { within = fine; account = omega arith; kept = e; valid = v },
    )
collect-take (suc n) (suc fuel) m victims [] v h b e x l f = absurd (omega arith)
collect-take (suc n) (suc fuel) m victims (k ∷ old) v h b e x l f =
    let over = over_of_excess m (omega (arith, x)) in
    let u = usage-evict m k h b over in
    let (m', c, d) =
      collect-take n fuel (evict k m) (victims ++ k ∷ []) old (evict-IsValid m k v)
        (omega (arith, u.1, h)) (omega (arith, u.0, b)) (oldest-evict m old k v e)
        (omega (arith, u.2, x)) (omega arith) (omega arith) in
    (
      m',
      collect_one fuel m victims old k v over e
          ∙ c
          ∙ ap (λ t. some (returns t, m')) (append_assoc victims (k ∷ []) (take n old)),
      record {
        within = d.within;
        account = omega (arith, d.account, u.0);
        kept = d.kept;
        valid = d.valid;
      },
    )

collect_throws :
    (fuel : ℕ) (m : LruManager) (victims old : List Str)
    → Order.IsValid m.policy
    → entry_bytes ≤ limit m
    → usage m < u64_mod
    → oldest (recent m.policy) ≡ old
    → length old < excess m
    → length old < fuel
    → (m' : LruManager) × (collect lru_policy fuel m victims ≡ some (throws runtime_error, m'))
      × (oldest (recent m'.policy) ≡ [])
collect_throws zero m victims old v h b e n f = absurd (omega arith)
collect_throws (suc fuel) m victims [] v h b e n f =
    (m, collect_stuck fuel m victims (over_of_excess m n) e, e)
collect_throws (suc fuel) m victims (k ∷ old) v h b e n f =
    let over = over_of_excess m (omega (arith, n)) in
    let u = usage-evict m k h b over in
    let (m', c, d) =
      collect_throws fuel (evict k m) (victims ++ k ∷ []) old (evict-IsValid m k v)
        (omega (arith, u.1, h)) (omega (arith, u.0, b)) (oldest-evict m old k v e)
        (omega (arith, u.2, n)) (omega arith) in
    (m', collect_one fuel m victims old k v over e ∙ c, d)

-- If the policy knows as many keys as have to go, the limit is 100 bytes or more, the account is
-- below 2 ^ 64, and the fuel is more than these keys, the call returns exactly the least recently
-- used ones, the oldest first, takes them out of the policy, and leaves the usage within the
-- limit.
pub collect-oldest :
    (fuel : ℕ) (m : LruManager)
    → Order.IsValid m.policy
    → entry_bytes ≤ limit m
    → usage m < u64_mod
    → excess m ≤ length (oldest (recent m.policy))
    → excess m < fuel
    → (m' : LruManager) × (collect lru_policy fuel m []
        ≡ some (returns (take (excess m) (oldest (recent m.policy))), m'))
      × Evicted (excess m) (oldest (recent m.policy)) m m'
collect-oldest fuel m v h b n f =
    collect-take (excess m) fuel m [] (oldest (recent m.policy)) v h b refl refl n f

-- If the policy knows fewer keys than have to go, the limit is 100 bytes or more, the account is
-- below 2 ^ 64, and the fuel is more than these keys, the call throws, and the policy has
-- forgotten all of them.
pub collect_exhausted :
    (fuel : ℕ) (m : LruManager)
    → Order.IsValid m.policy
    → entry_bytes ≤ limit m
    → usage m < u64_mod
    → length (oldest (recent m.policy)) < excess m
    → length (oldest (recent m.policy)) < fuel
    → (m' : LruManager) × (collect lru_policy fuel m [] ≡ some (throws runtime_error, m'))
      × (oldest (recent m'.policy) ≡ [])
collect_exhausted fuel m v h b n f =
    collect_throws fuel m [] (oldest (recent m.policy)) v h b refl n f
