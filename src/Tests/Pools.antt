-- ===== src/Tests/Pools.antt =====
-- A pool of one worker: it takes a task and sleeps, and is stopped.
use kvmemo.Base.{ℕ, ◌≤◌, ◌<◌, [], ◌∷◌, ◌++◌, ◌≡◌, ◌⊎◌, refl, none, some, true, arith}
use kvmemo.Server.ThreadPool.{
  Pool, locking, waiting, returned, new, worker_turn, push, shut, notify_all,
}
use kvmemo.Server.ThreadPool.Steps.{
  Event, Step, Reach, start, later, turn, enqueue, notify, stopping, notify_every, count,
}
use kvmemo.Server.ThreadPool.Shutdown
use kvmemo.Server.ThreadPool.Shutdown.{Trace, here, step, measure}
use kvmemo.Server.ThreadPool.Wakeups
use kvmemo.Server.ThreadPool.Order

-- The worker sleeps.
abbrev asleep : Pool ℕ
asleep = record (new 1) { workers = record { pc = waiting; held = none } ∷ [] }

asleep-Reach : Reach 1 ([], []) asleep
unfolding worker_turn
asleep-Reach = later start (turn 0 (record { pc = locking; held = none }) refl refl)

-- The task 7 was pushed, and the worker was notified.
abbrev notified : Pool ℕ
notified = record (new 1) { tasks = 7 ∷ [] }

notified-Reach : Reach 1 (7 ∷ [], []) notified
unfolding push
notified-Reach =
    later (later asleep-Reach (enqueue 7 refl))
      (notify 0 0 (record { pc = waiting; held = none }) refl refl refl)

no_lost_wakeup_example : 0 < count {T = ℕ} locking notified.workers
no_lost_wakeup_example = Wakeups.no_lost_wakeup 1 notified-Reach (omega arith) refl (omega arith)

-- The worker has taken the task, and the queue is empty.
abbrev busy : Pool ℕ
busy = record (new 1) { workers = record { pc = locking; held = some 7 } ∷ [] }

busy-Reach : Reach 1 (7 ∷ [], 7 ∷ []) busy
unfolding worker_turn
busy-Reach = later notified-Reach (turn 0 (record { pc = locking; held = none }) refl refl)

tasks_fifo_example : 7 ∷ [] ≡ [] ++ notified.tasks
tasks_fifo_example = Order.tasks_fifo notified-Reach

-- The destructor has stopped the pool with the task in the queue.
abbrev down : Pool ℕ
down = record notified { stop = true }

down-Reach : Reach 1 (7 ∷ [], []) down
unfolding shut notify_all
down-Reach = later (later notified-Reach (stopping refl)) (notify_every refl)

abbrev last : Pool ℕ
last = record busy { stop = true }

last-Trace : Trace down 1 last
unfolding worker_turn
last-Trace = step here (turn 0 (record { pc = locking; held = none }) refl refl)

shutdown_ends_example :
    (1 ≤ measure down)
    × (((e : Event ℕ) × (q : Pool ℕ) × Step last e q)
        ⊎ ((count returned last.workers ≡ 1) × (last.tasks ≡ [])))
shutdown_ends_example = Shutdown.shutdown_ends 1 down-Reach (omega arith) (refl, refl) last-Trace
