-- ===== src/Metrics/Latency/Totals.antt =====
-- src/metrics/latency_tracker.h: whatever the interleaving was, the tracker has counted every call
-- of `record` once none is under way.
use kvmemo.Base.{
  ℕ, ◌+◌, ◌<◌, ◌%◌, ◌≡◌, refl, sym, ap, ◌∙◌, List, [], ◌∷◌, some, false, arith, u64_mod, All,
  length, get_elem?, set, replicate,
}
use kvmemo.Metrics.Latency.{LatencyStats, sum, greatest, least, Positive}
use kvmemo.Metrics.Latency.Merges.{plus, maximum, merge_all, merge_all-set, larger, smaller}
use kvmemo.Metrics.Latency.Least.{Reach-least, least_of-least}
use kvmemo.Metrics.Latency.Pending.{
  uncounted, unsummed, uncompared, idle_none, none_pending, replicate-All,
}
use kvmemo.Metrics.Latency.Threads.{
  Tracker, Place, idle, counting, adding, comparing, locking, reading_latency, reading_bounds,
  taken, turn, compare_bounds, IsIdle, Reach, begin, records, snapshots, turns,
}

record Counts (recorded : List ℕ) (s : LatencyStats) (threads : List Place) : Type 0 where
  operations :
      (s.total_operations + merge_all plus uncounted threads) % u64_mod ≡ length recorded % u64_mod
  latency :
      (s.total_latency_ns + merge_all plus unsummed threads) % u64_mod ≡ sum recorded % u64_mod
  greatest_is : larger s.max_latency_ns (merge_all maximum uncompared threads) ≡ greatest recorded

-- A turn takes what it adds from what is left.
turn_moves :
    (p : Place) (s : Tracker) (a b c : ℕ)
    → let (p', s') = turn p s in
      ((s'.stats.total_operations + (uncounted p' + a)) % u64_mod
        ≡ (s.stats.total_operations + (uncounted p + a)) % u64_mod)
      × ((s'.stats.total_latency_ns + (unsummed p' + b)) % u64_mod
          ≡ (s.stats.total_latency_ns + (unsummed p + b)) % u64_mod)
      × (larger s'.stats.max_latency_ns (larger (uncompared p') c)
          ≡ larger s.stats.max_latency_ns (larger (uncompared p) c))
unfolding turn compare_bounds
turn_moves idle s a b c = (refl, refl, refl)
turn_moves (counting x) s a b c = (omega arith, refl, refl)
turn_moves (adding x) s a b c = (refl, omega arith, refl)
turn_moves (comparing x) s a b c = (ground arith, ground arith, ground arith)
turn_moves locking s a b c = (ground arith, ground arith, ground arith)
turn_moves (reading_latency o) s a b c = (refl, refl, refl)
turn_moves (reading_bounds o l) s a b c = (refl, refl, refl)
turn_moves (taken stats) s a b c = (refl, refl, refl)

-- A thread goes from `p` to `q`, with the numbers beside.
Counts-set :
    (recorded recorded' : List ℕ) (s s' : LatencyStats) (threads : List Place) (i : ℕ) (p q : Place)
    → Counts recorded s threads
    → get_elem? threads i ≡ some p
    → ((a b c : ℕ)
        → ((s.total_operations + (uncounted p + a)) % u64_mod ≡ length recorded % u64_mod)
        → ((s.total_latency_ns + (unsummed p + b)) % u64_mod ≡ sum recorded % u64_mod)
        → (larger s.max_latency_ns (larger (uncompared p) c) ≡ greatest recorded)
        → ((s'.total_operations + (uncounted q + a)) % u64_mod ≡ length recorded' % u64_mod)
          × ((s'.total_latency_ns + (unsummed q + b)) % u64_mod ≡ sum recorded' % u64_mod)
          × (larger s'.max_latency_ns (larger (uncompared q) c) ≡ greatest recorded'))
    → Counts recorded' s' (set threads i q)
Counts-set recorded recorded' s s' threads i p q h e move =
    let (a, a1, a2) = merge_all-set plus uncounted threads i p q e in
    let (b, b1, b2) = merge_all-set plus unsummed threads i p q e in
    let (c, c1, c2) = merge_all-set maximum uncompared threads i p q e in
    let r =
      move a b c (ap (λ n. (s.total_operations + n) % u64_mod) (sym a1) ∙ h.operations)
        (ap (λ n. (s.total_latency_ns + n) % u64_mod) (sym b1) ∙ h.latency)
        (ap (larger s.max_latency_ns) (sym c1) ∙ h.greatest_is) in
    record {
      operations = ap (λ n. (s'.total_operations + n) % u64_mod) a2 ∙ r.0;
      latency = ap (λ n. (s'.total_latency_ns + n) % u64_mod) b2 ∙ r.1;
      greatest_is = ap (larger s'.max_latency_ns) c2 ∙ r.2;
    }

Reach-Counts :
    {n : ℕ} {recorded : List ℕ} {s : Tracker} {threads : List Place}
    → Reach n recorded s threads
    → Counts recorded s.stats threads
unfolding sum greatest
Reach-Counts {n} begin =
    let r = none_pending (replicate n idle) (replicate-All n) in
    record {
      operations = omega (arith, r.0);
      latency = omega (arith, r.1);
      greatest_is = ground (arith, r.2);
    }
Reach-Counts (records {recorded} {s} {threads} i x p r e h) =
    let z = idle_none p h in
    Counts-set recorded (x ∷ recorded) s.stats s.stats threads i p (counting x) (Reach-Counts r) e
      λ a b c u v w. (omega (arith, u, z.0), omega (arith, v, z.1), ground (arith, w, z.2))
Reach-Counts (snapshots {recorded} {s} {threads} i p r e h) =
    let z = idle_none p h in
    Counts-set recorded recorded s.stats s.stats threads i p locking (Reach-Counts r) e
      λ a b c u v w. (omega (arith, u, z.0), omega (arith, v, z.1), ground (arith, w, z.2))
Reach-Counts (turns {recorded} {s} {threads} i p r e) =
    Counts-set recorded recorded s.stats (turn p s).1.stats threads i p (turn p s).0
      (Reach-Counts r) e λ a b c u v w. let m = turn_moves p s a b c in (m.0 ∙ u, m.1 ∙ v, m.2 ∙ w)

larger_none : (a b : ℕ) → b ≡ 0 → larger a b ≡ a
larger_none a b h = ground arith

smaller_none : (a b : ℕ) → b ≡ 0 → smaller a b ≡ a
smaller_none a b h = ground arith

turn-fits :
    (p : Place) (s : Tracker)
    → (s.stats.total_operations < u64_mod) × (s.stats.total_latency_ns < u64_mod)
    → ((turn p s).1.stats.total_operations < u64_mod)
      × ((turn p s).1.stats.total_latency_ns < u64_mod)
unfolding turn compare_bounds
turn-fits idle s h = h
turn-fits (counting x) s h = (omega arith, h.1)
turn-fits (adding x) s h = (h.0, omega arith)
turn-fits (comparing x) s h = ground arith
turn-fits locking s h = ground arith
turn-fits (reading_latency o) s h = h
turn-fits (reading_bounds o l) s h = h
turn-fits (taken stats) s h = h

Reach-fits :
    {n : ℕ} {recorded : List ℕ} {s : Tracker} {threads : List Place}
    → Reach n recorded s threads
    → (s.stats.total_operations < u64_mod) × (s.stats.total_latency_ns < u64_mod)
Reach-fits begin = (omega arith, omega arith)
Reach-fits (records i x p r e idle_p) = Reach-fits r
Reach-fits (snapshots i p r e idle_p) = Reach-fits r
Reach-fits (turns {s} i p r e) = turn-fits p s (Reach-fits r)

-- However the parts of the calls of `record` and of `snapshot` by any number of threads are
-- interleaved on a new tracker: once no call is under way and at least one latency was recorded,
-- all of them positive, the number of operations and the total latency are right modulo 2 ^ 64,
-- and the greatest and the least latency are right.
pub record_totals :
    {n : ℕ} {s : Tracker} {threads : List Place} (x : ℕ) (xs : List ℕ)
    → Reach n (x ∷ xs) s threads
    → All IsIdle threads
    → All Positive (x ∷ xs)
    → (s.stats.total_operations ≡ length (x ∷ xs) % u64_mod)
      × (s.stats.total_latency_ns ≡ sum (x ∷ xs) % u64_mod)
      × (s.stats.max_latency_ns ≡ greatest (x ∷ xs))
      × (s.stats.min_latency_ns ≡ least x xs)
record_totals {s} {threads} x xs r ends h =
    let z = none_pending threads ends in
    let c = Reach-Counts r in
    let fits = Reach-fits r in
    (
      omega (arith, z.0, c.operations, fits.0),
      omega (arith, z.1, c.latency, fits.1),
      sym (larger_none s.stats.max_latency_ns _ z.2) ∙ c.greatest_is,
      sym (smaller_none s.stats.min_latency_ns _ z.3) ∙ Reach-least r h ∙ least_of-least x xs h,
    )

-- A snapshot between the two parts of `record` shows a call without its latency, the least and the
-- greatest latency included.
abbrev torn : LatencyStats
torn = record { total_operations = 1; total_latency_ns = 0; min_latency_ns = 0; max_latency_ns = 0 }

abbrev halfway : Tracker
halfway = record { stats = torn; locked = false }

snapshot_torn : (x : ℕ) → Reach 2 (x ∷ []) halfway (adding x ∷ taken torn ∷ [])
unfolding turn
snapshot_torn x =
    turns 1 (reading_bounds 1 0)
      (turns 1 (reading_latency 1)
        (turns 1 locking
          (turns 0 (counting x) (snapshots 1 idle (records 0 x idle begin refl tt) refl tt) refl)
          refl)
        refl)
      refl
