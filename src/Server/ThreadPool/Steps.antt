-- ===== src/Server/ThreadPool/Steps.antt =====
-- src/server/thread_pool.h: the interleavings of the workers, of the calls of `Submit` and of the
-- destructor, and the number of workers at each place.
use kvmemo.Base.{
  ℕ, zero, suc, ◌+◌, ◌<◌, List, [], ◌∷◌, ◌++◌, ◌≡◌, ◌≢◌, ◌⊎◌, inl, inr, refl, Option, some, true,
  false, arith, get_elem?, set, map, replicate,
}
use kvmemo.Server.ThreadPool.{
  Pc, locking, waiting, returned, Worker, Pool, new, worker_turn, push, wake, shut, notify_all,
}

-- What a step does to the queue.
pub data Event (T : Type 0) : Type 0 where
  silent : Event T
  submitted taken : T → Event T

-- the number of workers at a place
abbrev pub is_at : Pc → Pc → ℕ
is_at locking locking = 1
is_at waiting waiting = 1
is_at returned returned = 1
is_at _ _ = 0

pub Pc-cases : (c d : Pc) → (d ≡ c) ⊎ (is_at c d ≡ 0)
Pc-cases locking locking = inl refl
Pc-cases waiting waiting = inl refl
Pc-cases returned returned = inl refl
Pc-cases locking waiting = inr refl
Pc-cases locking returned = inr refl
Pc-cases waiting locking = inr refl
Pc-cases waiting returned = inr refl
Pc-cases returned locking = inr refl
Pc-cases returned waiting = inr refl

module _ {T : Type 0} where
  -- what the turn of a worker takes from the queue
  abbrev pub front : List T → Event T
  front [] = silent
  front (t ∷ tasks) = taken t

  -- the pool after worker `i` has become `w`
  abbrev pub put : ℕ → Worker T → Pool T → Pool T
  put i w p = record p { workers = set p.workers i w }

  -- No thread calls `Submit` once the destructor runs.
  pub data Step (p : Pool T) : Event T → Pool T → Type 0 where
    turn :
        (i : ℕ) (w : Worker T)
        → get_elem? p.workers i ≡ some w
        → w.pc ≡ locking
        → Step p (front p.tasks) (record (put i (worker_turn p.tasks p.stop w).0 p) {
          tasks = (worker_turn p.tasks p.stop w).1;
        })
    -- a wake-up that no notification has caused
    spurious :
        (i : ℕ) (w : Worker T)
        → get_elem? p.workers i ≡ some w
        → w.pc ≡ waiting
        → Step p silent (put i (wake w) p)
    enqueue : (t : T) → p.stop ≡ false → Step p (submitted t) (push t p)
    -- `notify_one` wakes a worker that sleeps, if there is one
    notify :
        (i n : ℕ) (w : Worker T)
        → p.owed ≡ suc n
        → get_elem? p.workers i ≡ some w
        → w.pc ≡ waiting
        → Step p silent (record (put i (wake w) p) { owed = n })
    notify_nobody :
        (n : ℕ)
        → p.owed ≡ suc n
        → ((i : ℕ) (w : Worker T) → get_elem? p.workers i ≡ some w → w.pc ≢ waiting)
        → Step p silent (record p { owed = n })
    stopping : p.stop ≡ false → Step p silent (shut p)
    notify_every : p.all_owed ≡ true → Step p silent (notify_all p)

  unfoldable pub count : Pc → List (Worker T) → ℕ
  count c [] = 0
  count c (w ∷ workers) = is_at c w.pc + count c workers

  pub count-set :
      (c : Pc) (workers : List (Worker T)) (i : ℕ) (w w' : Worker T)
      → get_elem? workers i ≡ some w
      → count c (set workers i w') + is_at c w.pc ≡ count c workers + is_at c w'.pc
  unfolding count
  count-set c [] i w w' h = absurd (cc h)
  count-set c (x ∷ workers) zero w w' h = ground (arith, h)
  count-set c (x ∷ workers) (suc i) w w' h = ground (arith, count-set c workers i w w' h)

  unfoldable pub Woken : List (Worker T) → Type 0
  Woken workers =
      (count waiting (map wake workers) ≡ 0)
      × (count locking (map wake workers) ≡ count locking workers + count waiting workers)
      × (count returned (map wake workers) ≡ count returned workers)

  count-wake_cons :
      (w : Worker T) (c : Pc)
      → w.pc ≡ c
      → (workers : List (Worker T)) → Woken workers
      → Woken (w ∷ workers)
  unfolding Woken count
  count-wake_cons w locking e workers h =
      (ground (arith, e, h), ground (arith, e, h), ground (arith, e, h))
  count-wake_cons w waiting e workers h =
      (ground (arith, e, h), ground (arith, e, h), ground (arith, e, h))
  count-wake_cons w returned e workers h =
      (ground (arith, e, h), ground (arith, e, h), ground (arith, e, h))

  -- `notify_all` leaves no worker asleep, and all others where they are.
  pub count-wake : (workers : List (Worker T)) → Woken workers
  unfolding Woken count
  count-wake [] = (refl, refl, refl)
  count-wake (w ∷ workers) = count-wake_cons w w.pc refl workers (count-wake workers)

  -- At the start each worker is before the mutex.
  pub count-replicate :
      (n : ℕ) (h : Option T)
      → let workers = replicate {A = Worker T} n (record { pc = locking; held = h }) in
        (count locking workers ≡ n) × (count waiting workers ≡ 0) × (count returned workers ≡ 0)
  unfolding count
  count-replicate zero h = (refl, refl, refl)
  count-replicate (suc n) h = omega (arith, count-replicate n h)

  -- Some worker stands where one is counted.
  pub count-some :
      (c : Pc) (workers : List (Worker T))
      → 0 < count c workers
      → (i : ℕ) × (w : Worker T) × (get_elem? workers i ≡ some w) × (w.pc ≡ c)
  unfolding count
  count-some c [] h = absurd (omega arith)
  count-some c (w ∷ workers) h = elim (Pc-cases c w.pc) [
    | inl e ↦ (0, w, refl, e)
    | inr e ↦ let (i, v, g, q) = count-some c workers (omega (arith, e)) in (suc i, v, g, q)
  ]

  -- The tasks submitted and taken so far, the first ones first.
  abbrev pub after_event : List T × List T → Event T → List T × List T
  after_event (s, t) silent = (s, t)
  after_event (s, t) (submitted x) = (s ++ x ∷ [], t)
  after_event (s, t) (taken x) = (s, t ++ x ∷ [])

  pub data Reach (n : ℕ) : List T × List T → Pool T → Type 0 where
    start : Reach n ([], []) (new n)
    later :
        {l : List T × List T} {p p' : Pool T} {e : Event T}
        → Reach n l p
        → Step p e p'
        → Reach n (after_event l e) p'
