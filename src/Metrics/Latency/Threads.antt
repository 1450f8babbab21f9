-- ===== src/Metrics/Latency/Threads.antt =====
-- src/metrics/latency_tracker.h: several threads that record latencies, and threads that take a
-- snapshot. The two counters are atomic and outside the mutex; the least and the greatest latency
-- are under it. A turn is one atomic operation, or what a thread does in one critical section
-- that no other thread can see in parts; a snapshot reads the counters one after the other.
use kvmemo.Base.{
  ℕ, ◌≡◌, refl, List, [], ◌∷◌, some, Bool, true, false, add64, if◌then◌else◌, ltb, ◌==◌, ◌||◌,
  get_elem?, set, replicate,
}
use kvmemo.Metrics.Latency.{LatencyStats, note}
use kvmemo.Metrics.Latency as Latency

-- The members of the tracker. `locked` holds while a snapshot has the mutex.
pub record Tracker : Type 0 where
  pub stats : LatencyStats
  pub locked : Bool

-- Where a thread stands: idle, before one of the three parts of `record`, or in `snapshot` with
-- what it has read so far.
pub data Place : Type 0 where
  idle : Place
  counting adding comparing : ℕ → Place
  locking : Place
  reading_latency : ℕ → Place
  reading_bounds : ℕ → ℕ → Place
  taken : LatencyStats → Place

abbrev pub new : Tracker
new = record { stats = Latency.new; locked = false }

-- The part of `record` that holds the mutex.
unfoldable pub compare_bounds : ℕ → LatencyStats → LatencyStats
compare_bounds latency_ns s = record s {
  min_latency_ns =
      if s.min_latency_ns == 0 || ltb latency_ns s.min_latency_ns
      then latency_ns
      else s.min_latency_ns;
  max_latency_ns = if ltb s.max_latency_ns latency_ns then latency_ns else s.max_latency_ns;
}

-- One turn of a thread. It waits where the mutex is taken.
unfoldable pub turn : Place → Tracker → Place × Tracker
unfolding compare_bounds
turn idle s = (idle, s)
turn (counting x) s = (
  adding x,
  record s { stats = record s.stats { total_operations = add64 s.stats.total_operations 1 } },
)
turn (adding x) s = (
  comparing x,
  record s { stats = record s.stats { total_latency_ns = add64 s.stats.total_latency_ns x } },
)
turn (comparing x) s =
    if s.locked then (comparing x, s) else (idle, record s { stats = compare_bounds x s.stats })
turn locking s =
    if s.locked
    then (locking, s)
    else (reading_latency s.stats.total_operations, record s { locked = true })
turn (reading_latency operations) s = (reading_bounds operations s.stats.total_latency_ns, s)
turn (reading_bounds operations latency) s = (
  taken (record {
    total_operations = operations;
    total_latency_ns = latency;
    min_latency_ns = s.stats.min_latency_ns;
    max_latency_ns = s.stats.max_latency_ns;
  }),
  record s { locked = false },
)
turn (taken stats) s = (taken stats, s)

-- A thread that is in no call.
abbrev pub IsIdle : Place → Type 0
IsIdle idle = Unit
IsIdle (taken stats) = Unit
IsIdle _ = ⊥

-- The interleavings of `n` threads: the latencies of all calls of `record`, the tracker, and where
-- the threads stand.
pub data Reach (n : ℕ) : List ℕ → Tracker → List Place → Type 0 where
  begin : Reach n [] new (replicate n idle)
  records :
      {recorded : List ℕ} {s : Tracker} {threads : List Place} (i latency_ns : ℕ) (p : Place)
      → Reach n recorded s threads
      → get_elem? threads i ≡ some p
      → IsIdle p
      → Reach n (latency_ns ∷ recorded) s (set threads i (counting latency_ns))
  snapshots :
      {recorded : List ℕ} {s : Tracker} {threads : List Place} (i : ℕ) (p : Place)
      → Reach n recorded s threads
      → get_elem? threads i ≡ some p
      → IsIdle p
      → Reach n recorded s (set threads i locking)
  turns :
      {recorded : List ℕ} {s : Tracker} {threads : List Place} (i : ℕ) (p : Place)
      → Reach n recorded s threads
      → get_elem? threads i ≡ some p
      → Reach n recorded (turn p s).1 (set threads i (turn p s).0)

-- The three turns of `record`, with the mutex free and no other thread in between, are `note`.
turns-note :
    (x : ℕ) (s : LatencyStats)
    → let s1 = (turn (counting x) (record { stats = s; locked = false })).1 in
      let s2 = (turn (adding x) s1).1 in
      turn (comparing x) s2 ≡ (idle, record { stats = note x s; locked = false })
unfolding turn note
turns-note x s = refl
