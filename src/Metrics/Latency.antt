-- ===== src/Metrics/Latency.antt =====
-- src/metrics/latency_tracker.h: `LatencyTracker`. The counters wrap at 2 ^ 64; the least latency
-- is 0 as long as none was recorded.
pub mod Least
pub mod Merges
pub mod Pending
pub mod Threads
pub mod Totals
use kvmemo.Base.{
  ℕ, ◌+◌, ◌/◌, ◌<◌, ◌≡◌, refl, List, [], ◌∷◌, ◌++◌, ◌||◌, arith, add64, u64_mod, sub64, leb, ◌-◌,
  ◌*◌, ltb, ◌==◌, if◌then◌else◌, All, ℕ_eq, length, ◌%◌,
}

pub record LatencyStats : Type 0 where
  pub total_operations : ℕ
  pub total_latency_ns : ℕ
  pub min_latency_ns : ℕ
  pub max_latency_ns : ℕ

unfoldable pub average_latency_ns : LatencyStats → ℕ
average_latency_ns s =
    if s.total_operations == 0 then 0 else s.total_latency_ns / s.total_operations

-- The tracker's own fields are those of a snapshot.
abbrev pub new : LatencyStats
new = record { total_operations = 0; total_latency_ns = 0; min_latency_ns = 0; max_latency_ns = 0 }

unfoldable pub note : ℕ → LatencyStats → LatencyStats
note latency_ns s = record {
  total_operations = add64 s.total_operations 1;
  total_latency_ns = add64 s.total_latency_ns latency_ns;
  min_latency_ns =
      if s.min_latency_ns == 0 || ltb latency_ns s.min_latency_ns
      then latency_ns
      else s.min_latency_ns;
  max_latency_ns = if ltb s.max_latency_ns latency_ns then latency_ns else s.max_latency_ns;
}

-- What `stop` records: the time between two readings of the steady clock, of which a tick is
-- `nanos` nanoseconds. The conversion to `uint64_t` wraps a negative number.
unfoldable pub duration : ℕ → ℕ → ℕ → ℕ
duration nanos start end =
    if leb start end
    then ((end - start) * nanos) % u64_mod
    else sub64 0 (((start - end) * nanos) % u64_mod)

unfoldable pub stop : ℕ → ℕ → ℕ → LatencyStats → LatencyStats
unfolding duration note
stop nanos start_time end_time s = note (duration nanos start_time end_time) s

-- The latest latency stands first.
unfoldable pub note_all : List ℕ → LatencyStats
unfolding note
note_all [] = new
note_all (x ∷ xs) = note x (note_all xs)

unfoldable pub sum : List ℕ → ℕ
sum [] = 0
sum (x ∷ xs) = x + sum xs

unfoldable pub greatest : List ℕ → ℕ
greatest [] = 0
greatest (x ∷ xs) = let m = greatest xs in if ltb m x then x else m

-- the least number of the list, or `top` if all are greater
unfoldable pub least : ℕ → List ℕ → ℕ
least top [] = top
least top (x ∷ xs) = let m = least top xs in if ltb x m then x else m

-- The count and the sum are right modulo 2 ^ 64, and the greatest latency is right.
pub note_all-totals :
    (xs : List ℕ)
    → ((note_all xs).total_operations ≡ length xs % u64_mod)
      × ((note_all xs).total_latency_ns ≡ sum xs % u64_mod)
      × ((note_all xs).max_latency_ns ≡ greatest xs)
unfolding note_all sum greatest
note_all-totals [] = (omega arith, omega arith, refl)
note_all-totals (x ∷ xs) =
    let t = note_all-totals xs in (ground (arith, t.0), ground (arith, t.1), ground (arith, t.2))

abbrev pub Positive : ℕ → Type 0
Positive x = 0 < x

pub least-le : (top : ℕ) (xs : List ℕ) → 0 < top → All Positive xs → 0 < least top xs
unfolding least
least-le top [] p h = p
least-le top (x ∷ xs) p h = ground (arith, least-le top xs p h.1, h.0)

-- If all recorded latencies are positive, the tracker's least latency is the least of them.
pub note_all-min :
    (x : ℕ) (xs : List ℕ)
    → 0 < x
    → All Positive xs
    → (note_all (xs ++ x ∷ [])).min_latency_ns ≡ least x xs
unfolding note_all least
note_all-min x [] p h = ground arith
note_all-min x (y ∷ xs) p h = ground (arith, note_all-min x xs p h.1, least-le x xs p h.1, h.0)

-- A latency of 0 is forgotten by the next one: 0 stands for no latency yet.
pub note_zero : (x : ℕ) (s : LatencyStats) → (note x (note 0 s)).min_latency_ns ≡ x
unfolding note
note_zero x s = ground arith
