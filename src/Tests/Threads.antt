-- ===== src/Tests/Threads.antt =====
-- Several threads with one engine, and with one latency tracker.
use kvmemo.Base.{
  ℕ, ◌%◌, Str, Str_eq, str, [], ◌∷◌, List, ◌≡◌, refl, none, some, Option, returns, length, arith,
  u64_mod, false, contains, lookup, insert, Str-discrete,
}
use kvmemo.Core.Engine
use kvmemo.Core.Entry.{is_expired, without_ttl}
use kvmemo.Core.Lru
use kvmemo.Core.Manager
use kvmemo.Core.Shard
use kvmemo.Core.Engine.{Engine}
use kvmemo.Core.Engine.History.{Model, Reach, begin, did_set, meant, lose}
use kvmemo.Core.Engine.Replies as Replies
use kvmemo.Core.Engine.Replies.{reply, lost}
use kvmemo.Core.Engine.Room
use kvmemo.Core.Engine.Room.{unbounded}
use kvmemo.Core.Engine.Threads as Threads
use kvmemo.Core.Engine.Threads.{
  Place, Call, done, called, get_noting, turn, at, effect, fixed_answer,
}
use kvmemo.Core.Engine.Threads.Linear
use kvmemo.Core.Engine.Threads.Race
use kvmemo.Core.Engine.Threads.Race.{take_turns, crossing, two_sets, in_turn}
use kvmemo.Core.Lru.{LruCache}
use kvmemo.Eviction.Policy.{lru_policy}
use kvmemo.Metrics.Latency.{sum, greatest, least}
use kvmemo.Metrics.Latency.Threads as Recorders
use kvmemo.Metrics.Latency.Threads.{Tracker}
use kvmemo.Metrics.Latency.Totals
use kvmemo.Tests.Engines.{hash, one, one-IsValid, start}

-- Thread 1 gets `a` after the first turn of thread 0, which sets it.
abbrev set_a : Call
set_a = Threads.set (str "a") (str "1") none

abbrev get_a : Call
get_a = Threads.get (str "a")

abbrev noting : Place
noting = get_noting (str "a") (some (str "1"))

abbrev e1 : Engine LruCache
e1 = (turn hash lru_policy 0 5 (called set_a) start).1

abbrev e2 : Engine LruCache
e2 = (turn hash lru_policy 0 6 (called get_a) e1).1

abbrev e3 : Engine LruCache
e3 = (turn hash lru_policy 0 7 noting e2).1

noting-get_a : (turn hash lru_policy 0 6 (called get_a) e1).0 ≡ noting
unfolding turn Manager.set_key Manager.get Manager.on_shard Manager.index_of Shard.set Shard.get
    Lru.touch lookup insert is_expired without_ttl Str-discrete
noting-get_a = refl

-- where the threads stand at first, after both have called, and after one turn of each
abbrev p0 : ℕ → Place
p0 i = done (returns none)

abbrev p1 : ℕ → Place
p1 = at (at p0 0 (called set_a)) 1 (called get_a)

abbrev p2 : ℕ → Place
p2 =
    at (at p1 0 (turn hash lru_policy 0 5 (called set_a) start).0) 1
      (turn hash lru_policy 0 6 (called get_a) e1).0

abbrev p3 : ℕ → Place
p3 = at p2 1 (done (returns (some (str "1"))))

abbrev model : Model
model = insert (str "a") (str "1", none) (lose (lost hash (str "a") start) [])

abbrev a2 : ℕ → Option Str
a2 = at (at (λ i. none) 0 none) 1 (meant 6 (str "a") model)

threads_Reach : Threads.Reach hash lru_policy 2 2 7 model (at a2 1 (meant 6 (str "a") model)) e3 p3
unfolding turn
threads_Reach =
    Threads.turns 1 0 7 noting
      (Threads.turns 1 0 6 (called get_a)
        (Threads.turns 0 0 5 (called set_a)
          (Threads.calls 1 get_a (Threads.calls 0 set_a (Threads.begin start.eviction_manager) tt)
            tt)
          refl (omega arith) tt)
        refl (omega arith) tt)
      noting-get_a (omega arith) tt

interleaved_example :
    (returns (some (str "1")) ≡ returns (at a2 1 (meant 6 (str "a") model) 1))
    × Replies.IsValid hash e3
    × (reply hash 9 (str "a") e3 ≡ meant 9 (str "a") model)
interleaved_example =
    Linear.interleaved hash lru_policy 2 2 (omega arith) (omega arith) 9 (str "a") 1
      (returns (some (str "1"))) threads_Reach (omega arith) refl

crossed_sets_example :
    let (e', places) =
      take_turns hash lru_policy 7 crossing (one, two_sets (str "b") (str "2") (str "3") 4) in
    (places 0 ≡ done (returns none))
    × (places 1 ≡ done (returns none))
    × (reply hash 9 (str "b") e' ≡ some (str "3"))
    × (reply hash 9 (str "b") (Engine.process_expired hash lru_policy 20 e').1 ≡ none)
    × (reply hash 9
          (str "b")
          (Engine.process_expired hash lru_policy 20
            (in_turn hash lru_policy 7 4 (str "b") (str "2") (str "3") one)).1
        ≡ some (str "3"))
crossed_sets_example =
    Race.crossed_sets hash lru_policy 7 4 9 20 (str "b") (str "2") (str "3") one one-IsValid
      (omega arith) (omega arith) (omega arith)

-- Two keys, in shards that hold two each.
abbrev two_keys : List Str
two_keys = str "a" ∷ str "b" ∷ []

abbrev filled : Engine LruCache
filled =
    (Engine.set hash lru_policy 6 6 (str "b") (str "2") none
      (Engine.set hash lru_policy 5 5 (str "a") (str "1") none start).1).1

abbrev filled_model : Model
filled_model =
    insert (str "b") (str "2", none)
      (lose (lost hash (str "b") (Engine.set hash lru_policy 5 5 (str "a") (str "1") none start).1)
        (insert (str "a") (str "1", none) (lose (lost hash (str "a") start) [])))

filled-Reach : Reach hash lru_policy 2 2 6 filled_model filled
filled-Reach =
    did_set 6 6 (str "b") (str "2")
      (did_set 5 5 (str "a") (str "1") (begin start.eviction_manager) (omega arith)) (omega arith)

get-unbounded_example :
    (Engine.get hash lru_policy 9 (str "a") filled).0
    ≡ returns (
        meant 9
          (str "a")
          (unbounded hash lru_policy two_keys 2 2 (omega arith) (omega arith) filled-Reach))
unfolding contains filled-Reach Str-discrete
get-unbounded_example =
    Room.get-unbounded hash lru_policy two_keys 2 2 (omega arith) (omega arith) (omega arith) 9
      (str "a") filled-Reach (refl, (refl, tt)) (omega arith)

-- Two threads record 5 and 7, thread 1 between the first two parts of thread 0.
abbrev latencies : List ℕ
latencies = 7 ∷ 5 ∷ []

abbrev recorded : Tracker
recorded = record {
  stats = record {
    total_operations = 2;
    total_latency_ns = 12;
    min_latency_ns = 5;
    max_latency_ns = 7;
  };
  locked = false;
}

recorded_Reach : Recorders.Reach 2 latencies recorded (Recorders.idle ∷ Recorders.idle ∷ [])
unfolding Recorders.turn
recorded_Reach =
    Recorders.turns 0 (Recorders.comparing 5)
      (Recorders.turns 1 (Recorders.comparing 7)
        (Recorders.turns 0 (Recorders.adding 5)
          (Recorders.turns 1 (Recorders.adding 7)
            (Recorders.turns 1 (Recorders.counting 7)
              (Recorders.records 1 7 Recorders.idle
                (Recorders.turns 0 (Recorders.counting 5)
                  (Recorders.records 0 5 Recorders.idle Recorders.begin refl tt) refl)
                refl tt)
              refl)
            refl)
          refl)
        refl)
      refl

record_totals_example :
    (recorded.stats.total_operations ≡ length latencies % u64_mod)
    × (recorded.stats.total_latency_ns ≡ sum latencies % u64_mod)
    × (recorded.stats.max_latency_ns ≡ greatest latencies)
    × (recorded.stats.min_latency_ns ≡ least 7 (5 ∷ []))
record_totals_example =
    Totals.record_totals 7 (5 ∷ []) recorded_Reach (tt, (tt, tt)) (omega arith, (omega arith, tt))
