-- ===== src/Metrics/Latency/Least.antt =====
-- src/metrics/latency_tracker.h: the least latency, where none is 0.
use kvmemo.Base.{
  ℕ, zero, suc, ◌<◌, ◌≡◌, refl, sym, ap, ◌∙◌, List, [], ◌∷◌, some, arith, All, get_elem?, set,
  replicate, Bool-cases, inl, inr, subst,
}
use kvmemo.Metrics.Latency.{least, Positive, least-le}
use kvmemo.Metrics.Latency.Merges.{minimum, merge_all, merge_all-set, smaller, smaller_swap}
use kvmemo.Metrics.Latency.Pending.{uncompared, idle_none, none_pending, replicate-All}
use kvmemo.Metrics.Latency.Threads.{
  Tracker, Place, idle, counting, adding, comparing, locking, reading_latency, reading_bounds,
  taken, turn, compare_bounds, Reach, begin, records, snapshots, turns,
}

abbrev PositiveAt : Place → Type 0
PositiveAt (counting x) = 0 < x
PositiveAt (adding x) = 0 < x
PositiveAt (comparing x) = 0 < x
PositiveAt _ = Unit

-- The least of the numbers that are not 0, and 0 if there are none.
unfoldable pub least_of : List ℕ → ℕ
least_of [] = 0
least_of (x ∷ xs) = smaller x (least_of xs)

-- Every latency under way is positive, if those recorded are.
turn-PositiveAt : (p : Place) (s : Tracker) → PositiveAt p → PositiveAt (turn p s).0
unfolding turn
turn-PositiveAt idle s h = tt
turn-PositiveAt (counting x) s h = h
turn-PositiveAt (adding x) s h = h
turn-PositiveAt (comparing x) s h = elim (Bool-cases s.locked) [ inl l ↦ rw l h | inr l ↦ rw l tt ]
turn-PositiveAt locking s h = elim (Bool-cases s.locked) [ inl l ↦ rw l tt | inr l ↦ rw l tt ]
turn-PositiveAt (reading_latency o) s h = tt
turn-PositiveAt (reading_bounds o l) s h = tt
turn-PositiveAt (taken stats) s h = tt

All-set :
    (threads : List Place) (i : ℕ) (p q : Place)
    → get_elem? threads i ≡ some p
    → All PositiveAt threads
    → (PositiveAt p → PositiveAt q)
    → All PositiveAt (set threads i q)
All-set [] i p q e h k = absurd (cc e)
All-set (x ∷ threads) zero p q e h k = (k (subst PositiveAt (ground (arith, e)) h.0), h.1)
All-set (x ∷ threads) (suc i) p q e h k = (h.0, All-set threads i p q e h.1 k)

idle_positive : (n : ℕ) → All PositiveAt (replicate n idle)
idle_positive zero = tt
idle_positive (suc n) = (tt, idle_positive n)

Reach-Positive :
    {n : ℕ} {recorded : List ℕ} {s : Tracker} {threads : List Place}
    → Reach n recorded s threads
    → All Positive recorded
    → All PositiveAt threads
Reach-Positive {n} begin h = idle_positive n
Reach-Positive (records {threads} i x p r e idle_p) h =
    All-set threads i p (counting x) e (Reach-Positive r h.1) (λ u. h.0)
Reach-Positive (snapshots {threads} i p r e idle_p) h =
    All-set threads i p locking e (Reach-Positive r h) (λ u. tt)
Reach-Positive (turns {s} {threads} i p r e) h =
    All-set threads i p (turn p s).0 e (Reach-Positive r h) (turn-PositiveAt p s)

turn_least :
    (p : Place) (s : Tracker) (d : ℕ)
    → PositiveAt p
    → smaller (turn p s).1.stats.min_latency_ns (smaller (uncompared (turn p s).0) d)
      ≡ smaller s.stats.min_latency_ns (smaller (uncompared p) d)
unfolding turn compare_bounds
turn_least idle s d h = refl
turn_least (counting x) s d h = refl
turn_least (adding x) s d h = refl
turn_least (comparing x) s d h = ground arith
turn_least locking s d h = ground arith
turn_least (reading_latency o) s d h = refl
turn_least (reading_bounds o l) s d h = refl
turn_least (taken stats) s d h = refl

get-PositiveAt :
    (threads : List Place) (i : ℕ) (p : Place)
    → get_elem? threads i ≡ some p
    → All PositiveAt threads
    → PositiveAt p
get-PositiveAt [] i p e h = absurd (cc e)
get-PositiveAt (x ∷ threads) zero p e h = subst PositiveAt (ground (arith, e)) h.0
get-PositiveAt (x ∷ threads) (suc i) p e h = get-PositiveAt threads i p e h.1

pub Reach-least :
    {n : ℕ} {recorded : List ℕ} {s : Tracker} {threads : List Place}
    → Reach n recorded s threads
    → All Positive recorded
    → smaller s.stats.min_latency_ns (merge_all minimum uncompared threads) ≡ least_of recorded
unfolding least_of
Reach-least {n} begin h = (none_pending (replicate n idle) (replicate-All n)).3
Reach-least (records {recorded} {s} {threads} i x p r e idle_p) h =
    let z = idle_none p idle_p in
    let (d, d1, d2) = merge_all-set minimum uncompared threads i p (counting x) e in
    ground (arith, Reach-least r h.1, z.2, d1, d2, smaller_swap x s.stats.min_latency_ns d)
Reach-least (snapshots {recorded} {s} {threads} i p r e idle_p) h =
    let z = idle_none p idle_p in
    let (d, d1, d2) = merge_all-set minimum uncompared threads i p locking e in
    ground (arith, Reach-least r h, z.2, d1, d2)
Reach-least (turns {recorded} {s} {threads} i p r e) h =
    let (d, d1, d2) = merge_all-set minimum uncompared threads i p (turn p s).0 e in
    ap (smaller (turn p s).1.stats.min_latency_ns) d2
    ∙ turn_least p s d (get-PositiveAt threads i p e (Reach-Positive r h))
    ∙ ap (smaller s.stats.min_latency_ns) (sym d1)
    ∙ Reach-least r h

pub least_of-least : (x : ℕ) (xs : List ℕ) → All Positive (x ∷ xs) → least_of (x ∷ xs) ≡ least x xs
unfolding least_of least
least_of-least x [] h = ground (arith, h.0)
least_of-least x (y ∷ ys) h = ground (
  arith,
  h.0,
  h.1,
  smaller_swap x y (least_of ys),
  least_of-least x ys (h.0, h.1.1),
  least-le x ys h.0 h.1.1,
)
