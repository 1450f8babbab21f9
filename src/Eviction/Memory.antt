-- ===== src/Eviction/Memory.antt =====
-- src/eviction/memory_tracker.h: `MemoryTracker`, an approximate count of bytes. The atomic
-- counter is a `std::size_t`, so it wraps at 2 ^ 64 both ways.
use kvmemo.Base.{
  ℕ, ◌+◌, ◌<◌, Bool, true, not, ◌≡◌, arith, ltb, ◌==◌, add64, sub64, u64_mod, Outcome, returns,
  throws, invalid_argument, if◌then◌else◌,
}

pub record MemoryTracker : Type 0 where
  pub max_memory_bytes : ℕ
  pub current_memory_bytes : ℕ

unfoldable pub new : ℕ → Outcome MemoryTracker
new max_memory_bytes =
    if max_memory_bytes == 0
    then throws invalid_argument
    else returns (record { max_memory_bytes = max_memory_bytes; current_memory_bytes = 0 })

unfoldable pub is_over_limit : MemoryTracker → Bool
is_over_limit t = ltb t.max_memory_bytes t.current_memory_bytes

-- The new state, and whether the reservation is within the limit.
unfoldable pub reserve : ℕ → MemoryTracker → MemoryTracker × Bool
unfolding is_over_limit
reserve bytes t =
    let t' = record t { current_memory_bytes = add64 t.current_memory_bytes bytes } in
    (t', not (is_over_limit t'))

unfoldable pub release : ℕ → MemoryTracker → MemoryTracker
release bytes t = record t { current_memory_bytes = sub64 t.current_memory_bytes bytes }

-- Releasing what was reserved restores the account, also across a wrap-around.
pub release-reserve :
    (bytes : ℕ) (t : MemoryTracker)
    → bytes < u64_mod
    → t.current_memory_bytes < u64_mod
    → (release bytes (reserve bytes t).0).current_memory_bytes ≡ t.current_memory_bytes
unfolding release reserve
release-reserve bytes t h k = omega arith

-- A release of more than the account holds wraps round: the tracker then reports that it is over
-- the limit, though nothing is in use.
pub release_underflow :
    (bytes : ℕ) (t : MemoryTracker)
    → t.current_memory_bytes < bytes
    → t.max_memory_bytes + bytes < u64_mod
    → is_over_limit (release bytes t) ≡ true
unfolding release is_over_limit
release_underflow bytes t h k = ground arith
