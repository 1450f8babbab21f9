-- ===== src/Eviction/Policy.antt =====
-- src/eviction/eviction_manager.h: the interface `EvictionPolicy` and its implementation
-- `LRUPolicy`.
use kvmemo.Base.{arith, Str, Str_eq, [], ◌≡◌, Option, some, Outcome, returns, throws, runtime_error}
use kvmemo.Core.Lru
use kvmemo.Core.Lru.{LruCache, touch, pop_eviction_candidate, back}
use kvmemo.Core.Lru.Order
use kvmemo.Core.Lru.Order.{recent}

-- `P` is the state of the policy object.
pub record EvictionPolicy (P : Type 0) : Type 0 where
  pub on_read : Str → P → P
  pub on_write : Str → P → P
  pub on_delete : Str → P → P
  pub select_victim : P → Outcome (Option Str) × P

-- the conversion of the returned key to `std::optional`
abbrev pub found : Outcome Str → Outcome (Option Str)
found (returns k) = returns (some k)
found (throws x) = throws x

unfoldable pub select_victim : LruCache → Outcome (Option Str) × LruCache
select_victim c = let (r, c') = pop_eviction_candidate c in (found r, c')

abbrev pub lru_policy : EvictionPolicy LruCache
lru_policy = record {
  on_read = λ key c. (touch key c).0;
  on_write = λ key c. (touch key c).0;
  on_delete = λ key c. Lru.remove key c;
  select_victim = select_victim;
}

-- `LRUPolicy` never answers that it has no victim: with no key left it throws.
pub select_victim_empty :
    (c : LruCache) → recent c ≡ [] → select_victim c ≡ (throws runtime_error, c)
unfolding select_victim
select_victim_empty c h = ground (arith, Order.pop_empty c h)

pub select_victim_last :
    (c : LruCache) (k : Str)
    → Order.IsValid c
    → back (recent c) ≡ some k
    → select_victim c ≡ (returns (some k), Lru.remove k c)
unfolding select_victim
select_victim_last c k v h = ground (arith, Order.pop-recent c k v h)
