-- ===== src/Server/ThreadPool/Shutdown.antt =====
-- src/server/thread_pool.h: the destructor's `join` of every worker returns.
use kvmemo.Base.{
  ℕ, zero, suc, ◌+◌, ◌≤◌, ◌<◌, List, [], ◌∷◌, ◌≡◌, ◌⊎◌, inl, inr, refl, some, Bool, true, false,
  arith, length, get_elem?, set,
}
use kvmemo.Server.ThreadPool.{Pc, locking, waiting, returned, Worker, Pool, worker_turn}
use kvmemo.Server.ThreadPool.Steps.{
  Event, Step, turn, spurious, enqueue, notify, notify_nobody, stopping, notify_every, count,
  count-set, count-some, Reach, front,
}
use kvmemo.Server.ThreadPool.Wakeups.{IsAwake, Reach-IsAwake, Step-IsAwake}

-- The destructor has stopped the pool and has notified all workers.
abbrev pub IsDown : {T : Type 0} → Pool T → Type 0
IsDown p = (p.stop ≡ true) × (p.all_owed ≡ false)

-- What is left to do: tasks to take, workers to return, and notifications to send.
abbrev pub measure : {T : Type 0} → Pool T → ℕ
measure p = length p.tasks + count locking p.workers + p.owed

-- So many steps.
pub data Trace {T : Type 0} (p : Pool T) : ℕ → Pool T → Type 0 where
  here : Trace p 0 p
  step : {n : ℕ} {q r : Pool T} {e : Event T} → Trace p n q → Step q e r → Trace p (suc n) r

module _ {T : Type 0} (n : ℕ) where
  turn_down :
      (p : Pool T) (i : ℕ) (w : Worker T)
      → get_elem? p.workers i ≡ some w
      → w.pc ≡ locking
      → (tasks : List T) → p.tasks ≡ tasks
      → (stop : Bool) → stop ≡ true
      → let (w', rest) = worker_turn tasks stop w in
        length rest + count locking (set p.workers i w') < length p.tasks + count locking p.workers
  unfolding worker_turn
  turn_down p i w h c (t ∷ tasks) e stop s =
      ground (arith, e, count-set locking p.workers i w (record w { held = some t }) h)
  turn_down p i w h c [] e true s =
      ground (arith, e, count-set locking p.workers i w (record w { pc = returned }) h)
  turn_down p i w h c [] e false s = absurd (cc s)

  count_pos :
      (c : Pc) (workers : List (Worker T)) (i : ℕ) (w : Worker T)
      → get_elem? workers i ≡ some w
      → w.pc ≡ c
      → 0 < count c workers
  unfolding count
  count_pos c [] i w h e = absurd (cc h)
  count_pos locking (x ∷ workers) zero w h e = ground (arith, h, e)
  count_pos waiting (x ∷ workers) zero w h e = ground (arith, h, e)
  count_pos returned (x ∷ workers) zero w h e = ground (arith, h, e)
  count_pos c (x ∷ workers) (suc i) w h e = omega (arith, count_pos c workers i w h e)

  -- After the notification each step leaves less to do.
  pub Step-measure :
      {p p' : Pool T} {e : Event T}
      → Step p e p'
      → IsAwake n p
      → IsDown p
      → IsDown p' × (measure p' < measure p)
  Step-measure {p} (turn i w h c) v d =
      (d, omega (arith, turn_down p i w h c p.tasks refl p.stop d.0))
  Step-measure {p} (spurious i w h c) v d =
      absurd (omega (arith, v.told d.0 d.1, count_pos waiting p.workers i w h c))
  Step-measure {p} (enqueue t s) v d = absurd (ground (arith, s, d))
  Step-measure {p} (notify i m w o h c) v d =
      absurd (omega (arith, v.told d.0 d.1, count_pos waiting p.workers i w h c))
  Step-measure {p} (notify_nobody m o h) v d = (d, omega arith)
  Step-measure {p} (stopping s) v d = absurd (ground (arith, s, d))
  Step-measure {p} (notify_every o) v d = absurd (ground (arith, o, d))

  Trace-measure :
      {p p' : Pool T} {k : ℕ}
      → Trace p k p'
      → IsAwake n p
      → IsDown p
      → IsAwake n p' × IsDown p' × (k + measure p' ≤ measure p)
  Trace-measure here v d = (v, d, omega arith)
  Trace-measure (step r s) v d =
      let (v', d', m) = Trace-measure r v d in
      let (d'', l) = Step-measure s v' d' in (Step-IsAwake n s v', d'', omega arith)

  -- Some step is possible, or all workers have returned and no task is left.
  enabled :
      (p : Pool T)
      → IsAwake n p
      → IsDown p
      → 0 < n
      → ((e : Event T) × (p' : Pool T) × Step p e p')
        ⊎ ((count returned p.workers ≡ n) × (p.tasks ≡ []))
  enabled p v d pos = elim (Zero-cases (count locking p.workers)) [
    | inl e ↦
        inr
          (omega (arith, v.all, v.told d.0 d.1), (v.done (omega (arith, v.all, v.told d.0 d.1))).1)
    | inr e ↦
        let (i, w, h, c) = count-some locking p.workers e in inl (front p.tasks, _, turn i w h c)
  ]
    where
      Zero-cases : (m : ℕ) → (m ≡ 0) ⊎ (0 < m)
      Zero-cases zero = inl refl
      Zero-cases (suc m) = inr (omega arith)

  -- The destructor ends: of a reachable pool with a worker that has been stopped, with all workers
  -- notified, every run takes no more steps than tasks, awake workers and notifications are left,
  -- and where no step is possible all workers have returned and the queue is empty.
  pub shutdown_ends :
      {l : List T × List T} {p p' : Pool T} {k : ℕ}
      → Reach n l p
      → 0 < n
      → IsDown p
      → Trace p k p'
      → (k ≤ measure p)
        × (((e : Event T) × (q : Pool T) × Step p' e q)
            ⊎ ((count returned p'.workers ≡ n) × (p'.tasks ≡ [])))
  shutdown_ends {l} {p} {p'} r pos d path =
      let (v, d', m) = Trace-measure path (Reach-IsAwake n r) d in
      (omega arith, enabled p' v d' pos)
