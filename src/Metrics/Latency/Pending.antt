-- ===== src/Metrics/Latency/Pending.antt =====
-- src/metrics/latency_tracker.h: what the calls of `record` that are under way have still to do.
use kvmemo.Base.{ℕ, zero, suc, ◌≡◌, refl, List, [], ◌∷◌, arith, All, replicate}
use kvmemo.Metrics.Latency.Merges.{plus, maximum, minimum, merge_all}
use kvmemo.Metrics.Latency.Threads.{
  Place, idle, counting, adding, comparing, locking, reading_latency, reading_bounds, taken, IsIdle,
}

-- What a call that is under way has still to add to each number.
abbrev pub uncounted : Place → ℕ
uncounted (counting x) = 1
uncounted _ = 0

abbrev pub unsummed : Place → ℕ
unsummed (counting x) = x
unsummed (adding x) = x
unsummed _ = 0

abbrev pub uncompared : Place → ℕ
uncompared (counting x) = x
uncompared (adding x) = x
uncompared (comparing x) = x
uncompared _ = 0

pub idle_none : (p : Place) → IsIdle p → (uncounted p ≡ 0) × (unsummed p ≡ 0) × (uncompared p ≡ 0)
idle_none idle h = (refl, refl, refl)
idle_none (taken stats) h = (refl, refl, refl)
idle_none (counting x) h = elim h [ ]
idle_none (adding x) h = elim h [ ]
idle_none (comparing x) h = elim h [ ]
idle_none locking h = elim h [ ]
idle_none (reading_latency o) h = elim h [ ]
idle_none (reading_bounds o l) h = elim h [ ]

pub none_pending :
    (threads : List Place)
    → All IsIdle threads
    → (merge_all plus uncounted threads ≡ 0)
      × (merge_all plus unsummed threads ≡ 0)
      × (merge_all maximum uncompared threads ≡ 0)
      × (merge_all minimum uncompared threads ≡ 0)
unfolding merge_all
none_pending [] h = (refl, refl, refl, refl)
none_pending (p ∷ threads) h =
    let r = none_pending threads h.1 in
    let z = idle_none p h.0 in
    (
      omega (arith, z.0, r.0),
      omega (arith, z.1, r.1),
      ground (arith, z.2, r.2),
      ground (arith, z.2, r.3),
    )

pub replicate-All : (n : ℕ) → All IsIdle (replicate n idle)
replicate-All zero = tt
replicate-All (suc n) = (tt, replicate-All n)
