-- ===== src/Server/ThreadPool.antt =====
-- src/server/thread_pool.h: `ThreadPool`, workers that share a queue under a mutex and a condition
-- variable. A step is what one thread does while it holds the mutex, or one notification. A worker
-- pops a task into its local variable; the loop of the code has no call of it.
pub mod Steps
pub mod Wakeups
pub mod Shutdown
pub mod Order
use kvmemo.Base.{ℕ, ◌+◌, List, [], ◌∷◌, ◌++◌, Option, none, some, Bool, true, false, map, replicate}

-- Where a worker stands: before it takes the mutex, in `condition_.wait`, or returned.
pub data Pc : Type 0 where
  locking waiting returned : Pc

-- `held` is the local variable `task`.
pub record Worker (T : Type 0) : Type 0 where
  pub pc : Pc
  pub held : Option T

-- `owed` counts the calls of `Submit` between the push and `notify_one`; `all_owed` holds in the
-- destructor between the assignment to `stop_` and `notify_all`.
pub record Pool (T : Type 0) : Type 0 where
  pub workers : List (Worker T)
  pub tasks : List T
  pub stop : Bool
  pub owed : ℕ
  pub all_owed : Bool

abbrev pub woken : Pc → Pc
woken waiting = locking
woken pc = pc

module _ {T : Type 0} where
  abbrev pub new : ℕ → Pool T
  new thread_count = record {
    workers = replicate thread_count (record { pc = locking; held = none });
    tasks = [];
    stop = false;
    owed = 0;
    all_owed = false;
  }

  -- One round of `WorkerLoop` with the mutex held: the queue and `stop_`, the worker and the queue
  -- after it. A worker for which the predicate of the wait fails gives the mutex back and sleeps.
  unfoldable pub worker_turn : List T → Bool → Worker T → Worker T × List T
  worker_turn (t ∷ tasks) stop w = (record w { held = some t }, tasks)
  worker_turn [] true w = (record w { pc = returned }, [])
  worker_turn [] false w = (record w { pc = waiting }, [])

  unfoldable pub push : T → Pool T → Pool T
  push t p = record p { tasks = p.tasks ++ t ∷ []; owed = p.owed + 1 }

  abbrev pub wake : Worker T → Worker T
  wake w = record w { pc = woken w.pc }

  -- `stop_ = true`
  unfoldable pub shut : Pool T → Pool T
  shut p = record p { stop = true; all_owed = true }

  unfoldable pub notify_all : Pool T → Pool T
  notify_all p = record p { workers = map wake p.workers; all_owed = false }
