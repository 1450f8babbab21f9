-- ===== src/Eviction/Manager/Accounts.antt =====
-- src/eviction/eviction_manager.h: what reads, writes and deletes do to the account and to the
-- order of use.
use kvmemo.Base.{◌+◌, ◌<◌, Str, Str_eq, ◌∷◌, ◌≡◌, refl, true, arith, u64_mod, add64, sub64}
use kvmemo.Base.Keys
use kvmemo.Core.Lru.Order
use kvmemo.Core.Lru.Order.{recent}
use kvmemo.Eviction.Memory.{reserve, release, is_over_limit, release_underflow}
use kvmemo.Eviction.Policy.{EvictionPolicy, lru_policy}
use kvmemo.Eviction.Manager
use kvmemo.Eviction.Manager.{EvictionManager, entry_bytes, enforce_memory_limit}
use kvmemo.Eviction.Manager.Victims.{LruManager, usage}

-- With a valid policy `OnWrite` moves the key to the front, keeps all other keys in their order,
-- and adds 100 bytes modulo 2 ^ 64, whether or not the key was known and the account is over the
-- limit.
pub write_lem :
    (k : Str) (m : LruManager)
    → Order.IsValid m.policy
    → (recent (Manager.write lru_policy k m).policy ≡ k ∷ Keys.remove k (recent m.policy))
      × (usage (Manager.write lru_policy k m) ≡ add64 (usage m) entry_bytes)
      × Order.IsValid (Manager.write lru_policy k m).policy
unfolding Manager.write reserve
write_lem k m v = ground (arith, Order.recent-touch k m.policy v, Order.touch-IsValid k m.policy v)

-- A delete takes the key out and gives 100 bytes back, whether or not the key was known.
pub delete_lem :
    (k : Str) (m : LruManager)
    → Order.IsValid m.policy
    → (recent (Manager.delete lru_policy k m).policy ≡ Keys.remove k (recent m.policy))
      × (usage (Manager.delete lru_policy k m) ≡ sub64 (usage m) entry_bytes)
      × Order.IsValid (Manager.delete lru_policy k m).policy
unfolding Manager.delete release
delete_lem k m v = (Order.recent-remove k m.policy v, refl, Order.remove-IsValid k m.policy v)

pub read-IsValid :
    (k : Str) (m : LruManager)
    → Order.IsValid m.policy
    → Order.IsValid (Manager.read lru_policy k m).policy
unfolding Manager.read
read-IsValid k m v = Order.touch-IsValid k m.policy v

-- `OnDelete` with less than 100 bytes on the account wraps the account round, so that the manager
-- is over its limit, unless the limit is within 100 bytes of 2 ^ 64.
pub delete_underflow :
    {P : Type 0} (policy : EvictionPolicy P) (k : Str) (m : EvictionManager P)
    → m.memory_tracker.current_memory_bytes < entry_bytes
    → m.memory_tracker.max_memory_bytes + entry_bytes < u64_mod
    → is_over_limit (Manager.delete policy k m).memory_tracker ≡ true
unfolding Manager.delete
delete_underflow policy k m h b = release_underflow entry_bytes m.memory_tracker h b
