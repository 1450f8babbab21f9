-- ===== src/Server/ThreadPool/Wakeups.antt =====
-- src/server/thread_pool.h: no wake-up is lost.
use kvmemo.Base.{
  ℕ, suc, ◌+◌, ◌≤◌, ◌<◌, List, [], ◌∷◌, ◌≡◌, ◌≢◌, refl, none, some, Bool, true, false, arith,
  length, length-append, get_elem?,
}
use kvmemo.Server.ThreadPool.{
  Pc, locking, waiting, returned, Worker, Pool, worker_turn, push, wake, shut, notify_all,
}
use kvmemo.Server.ThreadPool.Steps.{
  Event, Step, turn, spurious, enqueue, notify, notify_nobody, stopping, notify_every, count,
  count-set, count-wake, Woken, count-replicate, Reach, start, later, put,
}

-- While a worker sleeps there are as many workers awake and notifications to come as tasks; once
-- all were notified of the stop, none sleeps; a worker returns when no task is left to come.
pub record IsAwake {T : Type 0} (n : ℕ) (p : Pool T) : Type 0 where
  pub all : count locking p.workers + count waiting p.workers + count returned p.workers ≡ n
  pub hears : 0 < count waiting p.workers → length p.tasks ≤ p.owed + count locking p.workers
  pub told : p.stop ≡ true → p.all_owed ≡ false → count waiting p.workers ≡ 0
  pub early : p.stop ≡ false → p.all_owed ≡ false
  pub done : 0 < count returned p.workers → (p.stop ≡ true) × (p.tasks ≡ [])

module _ {T : Type 0} (n : ℕ) where
  turn-IsAwake :
      (p : Pool T) (i : ℕ) (w : Worker T)
      → get_elem? p.workers i ≡ some w
      → w.pc ≡ locking
      → (tasks : List T) → p.tasks ≡ tasks
      → (stop : Bool) → p.stop ≡ stop
      → IsAwake n p
      → IsAwake n
          (record (put i (worker_turn tasks stop w).0 p) { tasks = (worker_turn tasks stop w).1 })
  unfolding worker_turn
  turn-IsAwake p i w h c (t ∷ tasks) e stop s v = ground (
    arith,
    count-set locking p.workers i w (record w { held = some t }) h,
    count-set waiting p.workers i w (record w { held = some t }) h,
    count-set returned p.workers i w (record w { held = some t }) h,
  )
  turn-IsAwake p i w h c [] e true s v = ground (
    arith,
    count-set locking p.workers i w (record w { pc = returned }) h,
    count-set waiting p.workers i w (record w { pc = returned }) h,
    count-set returned p.workers i w (record w { pc = returned }) h,
  )
  turn-IsAwake p i w h c [] e false s v = ground (
    arith,
    count-set locking p.workers i w (record w { pc = waiting }) h,
    count-set waiting p.workers i w (record w { pc = waiting }) h,
    count-set returned p.workers i w (record w { pc = waiting }) h,
  )

  wake-IsAwake :
      (p : Pool T) (i m : ℕ) (w : Worker T)
      → get_elem? p.workers i ≡ some w
      → w.pc ≡ waiting
      → p.owed ≤ m + 1
      → IsAwake n p
      → IsAwake n (record (put i (wake w) p) { owed = m })
  wake-IsAwake p i m w h c o v = ground (
    arith,
    count-set locking p.workers i w (wake w) h,
    count-set waiting p.workers i w (wake w) h,
    count-set returned p.workers i w (wake w) h,
  )

  nobody :
      (workers : List (Worker T))
      → ((i : ℕ) (w : Worker T) → get_elem? workers i ≡ some w → w.pc ≢ waiting)
      → count waiting workers ≡ 0
  unfolding count
  nobody [] h = refl
  nobody (w ∷ workers) h = go w.pc refl (nobody workers (λ i v g. h (suc i) v g))
    where
      go : (c : Pc) → w.pc ≡ c → count waiting workers ≡ 0 → count waiting (w ∷ workers) ≡ 0
      go locking e r = ground (arith, e, r)
      go returned e r = ground (arith, e, r)
      go waiting e r = absurd (h 0 w refl e)

  -- Every step keeps the invariant.
  pub Step-IsAwake : {p p' : Pool T} {e : Event T} → Step p e p' → IsAwake n p → IsAwake n p'
  unfolding push shut notify_all Woken
  Step-IsAwake {p} (turn i w h c) v = turn-IsAwake p i w h c p.tasks refl p.stop refl v
  Step-IsAwake {p} (spurious i w h c) v = wake-IsAwake p i p.owed w h c (omega arith) v
  Step-IsAwake {p} (enqueue t s) v = ground (arith, length-append p.tasks (t ∷ []))
  Step-IsAwake {p} (notify i m w o h c) v = wake-IsAwake p i m w h c (omega arith) v
  Step-IsAwake {p} (notify_nobody m o h) v = ground (arith, nobody p.workers h)
  Step-IsAwake {p} (stopping s) v = ground arith
  Step-IsAwake {p} (notify_every o) v = ground (arith, count-wake p.workers)

  pub Reach-IsAwake : {l : List T × List T} {p : Pool T} → Reach n l p → IsAwake n p
  Reach-IsAwake start = ground (arith, count-replicate {T = T} n none)
  Reach-IsAwake (later r s) = Step-IsAwake s (Reach-IsAwake r)

  -- In every reachable pool with a worker, while the queue holds a task and no notification is to
  -- come, some worker is awake.
  pub no_lost_wakeup :
      {l : List T × List T} {p : Pool T}
      → Reach n l p
      → 0 < length p.tasks
      → p.owed ≡ 0
      → 0 < n
      → 0 < count locking p.workers
  no_lost_wakeup {l} {p} r t o c = ground (arith, Reach-IsAwake r)
