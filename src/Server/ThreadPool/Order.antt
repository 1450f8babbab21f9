-- ===== src/Server/ThreadPool/Order.antt =====
-- src/server/thread_pool.h: the order in which the tasks are taken.
use kvmemo.Base.{ℕ, List, [], ◌∷◌, ◌++◌, ◌≡◌, refl, sym, ap, ◌∙◌, Bool, true, false}
use mathlib.Core.List.{append_assoc}
use kvmemo.Server.ThreadPool.{Pool, Worker, worker_turn, push, shut, notify_all}
use kvmemo.Server.ThreadPool.Steps.{
  Event, Step, turn, spurious, enqueue, notify, notify_nobody, stopping, notify_every, front,
  after_event, Reach, start, later,
}

module _ {T : Type 0} where
  -- the tasks that were submitted are those that were taken and those in the queue
  abbrev IsFifo : List T × List T → List T → Type 0
  IsFifo (s, t) tasks = s ≡ t ++ tasks

  turn-IsFifo :
      (l : List T × List T) (tasks : List T) (stop : Bool) (w : Worker T)
      → IsFifo l tasks
      → IsFifo (after_event l (front tasks)) (worker_turn tasks stop w).1
  unfolding worker_turn
  turn-IsFifo (s, t) (x ∷ tasks) stop w h = h ∙ sym (append_assoc t (x ∷ []) tasks)
  turn-IsFifo (s, t) [] true w h = h
  turn-IsFifo (s, t) [] false w h = h

  Step-IsFifo :
      {p p' : Pool T} {e : Event T}
      → Step p e p'
      → (l : List T × List T) → IsFifo l p.tasks
      → IsFifo (after_event l e) p'.tasks
  unfolding push shut notify_all
  Step-IsFifo {p} (turn i w h c) l f = turn-IsFifo l p.tasks p.stop w f
  Step-IsFifo (spurious i w h c) (s, t) f = f
  Step-IsFifo {p} (enqueue x q) (s, t) f = ap (λ l. l ++ x ∷ []) f ∙ append_assoc t p.tasks (x ∷ [])
  Step-IsFifo (notify i m w o h c) (s, t) f = f
  Step-IsFifo (notify_nobody m o h) (s, t) f = f
  Step-IsFifo (stopping q) (s, t) f = f
  Step-IsFifo (notify_every o) (s, t) f = f

  -- In every reachable pool the tasks were taken in the order in which they were submitted, each
  -- one once, and those that are not taken yet are in the queue.
  pub tasks_fifo : {n : ℕ} {l : List T × List T} {p : Pool T} → Reach n l p → l.0 ≡ l.1 ++ p.tasks
  tasks_fifo start = refl
  tasks_fifo (later {l} r s) = Step-IsFifo s l (tasks_fifo r)
