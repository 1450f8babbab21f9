-- ===== src/Tests/Indexes.antt =====
-- The LRU cache, the TTL index and the eviction manager on a few keys.
use kvmemo.Base.{
  ℕ, Str, Str_eq, Str-discrete, str, [], ◌∷◌, ◌≡◌, refl, some, true, arith, returns, throws,
  runtime_error, lookup, insert, erase, take,
}
use kvmemo.Core.Lru
use kvmemo.Core.Lru.{LruCache, touch, splice_front, back, pop_eviction_candidate}
use kvmemo.Core.Lru.Order
use kvmemo.Core.Lru.Order.{recent}
use kvmemo.Core.Lru.Back.{oldest}
use kvmemo.Core.Ttl
use kvmemo.Core.Ttl.{TtlIndex, upsert, collect_expired}
use kvmemo.Eviction.Memory.{MemoryTracker, is_over_limit, reserve}
use kvmemo.Eviction.Policy.{lru_policy}
use kvmemo.Eviction.Manager
use kvmemo.Eviction.Manager.{collect, entry_bytes, enforce_memory_limit}
use kvmemo.Eviction.Manager.Accounts
use kvmemo.Eviction.Manager.Victims
use kvmemo.Eviction.Manager.Victims.{LruManager, Evicted, usage, limit, excess}

-- `a` was used before `b`.
abbrev cache : LruCache
cache = (touch (str "b") (touch (str "a") (Lru.empty 2)).0).0

cache-back : back (recent cache) ≡ some (str "a")
unfolding touch splice_front lookup insert erase Str-discrete back
cache-back = refl

-- `a` expires at 7, and `b` at 5.
abbrev index : TtlIndex
index = upsert (str "b") 5 (upsert (str "a") 7 Ttl.new)

-- No key, and a limit of so many bytes.
abbrev pub idle : ℕ → LruManager
idle bytes = record {
  memory_tracker = record { max_memory_bytes = bytes; current_memory_bytes = 0 };
  policy = Lru.empty 2;
}

abbrev pub written : Str → LruManager → LruManager
written k m = Manager.write lru_policy k m

-- Three keys with 300 bytes, 50 of them too many.
abbrev pub three : LruManager
three = written (str "c") (written (str "b") (written (str "a") (idle 250)))

idle-IsValid : (bytes : ℕ) → Order.IsValid (idle bytes).policy
idle-IsValid bytes = Order.empty-IsValid 2 (omega arith)

written-IsValid :
    (k : Str) (m : LruManager) → Order.IsValid m.policy → Order.IsValid (written k m).policy
written-IsValid k m v = (Accounts.write_lem k m v).2

pub three-IsValid : Order.IsValid three.policy
three-IsValid = written-IsValid (str "c") (written (str "b") (written (str "a") (idle 250))) (
    written-IsValid (str "b") (written (str "a") (idle 250))
      (written-IsValid (str "a") (idle 250) (idle-IsValid 250)))

pub three-lem :
    (usage three ≡ 300)
    × (limit three ≡ 250)
    × (oldest (recent three.policy) ≡ str "a" ∷ str "b" ∷ str "c" ∷ [])
unfolding Manager.write enforce_memory_limit reserve is_over_limit touch splice_front lookup insert
    erase Str-discrete
three-lem = (refl, refl, refl)

collect-oldest_example :
    (m' : LruManager) × (collect lru_policy 9 three []
      ≡ some (returns (take (excess three) (oldest (recent three.policy))), m'))
    × Evicted (excess three) (oldest (recent three.policy)) three m'
collect-oldest_example =
    Victims.collect-oldest 9 three three-IsValid (ground (arith, three-lem))
      (ground (arith, three-lem)) (ground (arith, three-lem)) (ground (arith, three-lem))

-- One key that was written four times holds 400 bytes.
abbrev again : LruManager
again = written (str "a") (written (str "a") (written (str "a") (written (str "a") (idle 100))))

again-IsValid : Order.IsValid again.policy
again-IsValid =
    written-IsValid (str "a") (written (str "a") (written (str "a") (written (str "a") (idle 100))))
      (written-IsValid (str "a") (written (str "a") (written (str "a") (idle 100))) (
        written-IsValid (str "a") (written (str "a") (idle 100))
          (written-IsValid (str "a") (idle 100) (idle-IsValid 100))))

again-lem :
    (usage again ≡ 400) × (limit again ≡ 100) × (oldest (recent again.policy) ≡ str "a" ∷ [])
unfolding Manager.write enforce_memory_limit reserve is_over_limit touch splice_front lookup insert
    erase Str-discrete
again-lem = (refl, refl, refl)

collect_exhausted_example :
    (m' : LruManager) × (collect lru_policy 9 again [] ≡ some (throws runtime_error, m'))
    × (oldest (recent m'.policy) ≡ [])
collect_exhausted_example =
    Victims.collect_exhausted 9 again again-IsValid (ground (arith, again-lem))
      (ground (arith, again-lem)) (ground (arith, again-lem)) (ground (arith, again-lem))

delete_underflow_example :
    is_over_limit (Manager.delete lru_policy (str "a") (idle 250)).memory_tracker ≡ true
delete_underflow_example =
    Accounts.delete_underflow lru_policy (str "a") (idle 250) (omega arith) (omega arith)

abbrev tracker : MemoryTracker
tracker = record { max_memory_bytes = 250; current_memory_bytes = 200 }
