-- ===== src/Tests/Engines.antt =====
-- An engine of two shards that hold two keys each, with the LRU policy and a limit of 250 bytes.
use kvmemo.Base.{
  ℕ, Unique, ◌+◌, insert, Str, Str_eq, str, [], ◌≡◌, none, some, ite, arith, length, leb, returns,
  if◌then◌else◌, add64, lookup, contains, take,
}
use kvmemo.Core.Engine
use kvmemo.Core.Engine.{Engine}
use kvmemo.Core.Engine.History.{
  Model, lose, Reach, begin, did_set_with_ttl, did_get, did_expire, meant,
}
use kvmemo.Core.Engine.Meaning
use kvmemo.Core.Engine.Replies
use kvmemo.Core.Engine.Replies.{reply, lost}
use kvmemo.Core.Engine.Evictions
use kvmemo.Core.Engine.Expiry
use kvmemo.Core.Engine.Expiry.{IsLate}
use kvmemo.Core.Lru
use kvmemo.Core.Lru.Order.{recent}
use kvmemo.Core.Lru.Back.{oldest}
use kvmemo.Core.Lru.{LruCache}
use kvmemo.Core.Manager
use kvmemo.Core.Manager.{ShardManager}
use kvmemo.Core.Manager.Routing
use kvmemo.Core.Manager.Replies.{find}
use kvmemo.Core.Manager.Store
use kvmemo.Core.Manager.Listing
use kvmemo.Core.Shard.Writes.{unless_victim}
use kvmemo.Core.Ttl
use kvmemo.Core.Ttl.{collect_expired}
use kvmemo.Core.Ttl.Index
use kvmemo.Core.Ttl.Index.{time_of}
use kvmemo.Core.Ttl.Collect.{is_due}
use kvmemo.Eviction.Manager.Victims.{Evicted, excess}
use kvmemo.Eviction.Policy.{lru_policy}
use kvmemo.Tests.Indexes.{three, three-IsValid, three-lem}

abbrev pub hash : Str → ℕ
hash k = length k

abbrev shards : ShardManager
shards = Store.empty hash 2 2

shards-IsValid : Routing.IsValid hash shards
shards-IsValid = Store.empty-IsValid hash 2 2 (omega arith) (omega arith)

abbrev pub start : Engine LruCache
start = record {
  shard_manager = shards;
  ttl_index = Ttl.new;
  eviction_manager = record {
    memory_tracker = record { max_memory_bytes = 250; current_memory_bytes = 0 };
    policy = Lru.empty 2;
  };
}

pub start-IsValid : Replies.IsValid hash start
start-IsValid = record { shards = shards-IsValid; ttl = Index.new-IsValid }

start-IsLate : IsLate hash start
unfolding lookup
start-IsLate k t later h le = absurd (cc h)

-- `a` has the value 1 from time 5 to time 15.
abbrev pub one : Engine LruCache
one = (Engine.set hash lru_policy 5 6 (str "a") (str "1") (some 10) start).1

pub one-IsValid : Replies.IsValid hash one
one-IsValid =
    (Replies.set_with_ttl-reply hash lru_policy 5 6 0 10 (str "a") (str "1") [] start start-IsValid
      (omega arith) (omega arith)).1

one-IsLate : IsLate hash one
one-IsLate =
    Expiry.set_with_ttl-IsLate hash lru_policy 5 6 10 (str "a") (str "1") start start-IsValid
      start-IsLate (omega arith) (omega arith) (omega arith)

set_with_ttl-reply_example :
    let (r, e') = Engine.set hash lru_policy 7 7 (str "b") (str "2") (some 4) one in
    (r ≡ returns tt)
    × Replies.IsValid hash e'
    × (reply hash 9 (str "b") e'
        ≡ ite
            (Str_eq.dec (str "b") (str "b"))
            (if leb (7 + 4) 9 then none else some (str "2"))
            (unless_victim (lost hash (str "b") one) (str "b") (reply hash 9 (str "b") one)))
    × (time_of e'.ttl_index (str "b")
        ≡ ite (Str_eq.dec (str "b") (str "b")) (some (add64 7 4)) (time_of one.ttl_index (str "b")))
set_with_ttl-reply_example =
    Replies.set_with_ttl-reply hash lru_policy 7 7 9 4 (str "b") (str "2") (str "b") one one-IsValid
      (omega arith) (omega arith)

set-reply_example :
    let (r, e') = Engine.set hash lru_policy 7 7 (str "b") (str "2") none one in
    (r ≡ returns tt)
    × Replies.IsValid hash e'
    × (reply hash 9 (str "a") e'
        ≡ ite
            (Str_eq.dec (str "b") (str "a"))
            (some (str "2"))
            (unless_victim (lost hash (str "b") one) (str "a") (reply hash 9 (str "a") one)))
    × (time_of e'.ttl_index (str "a")
        ≡ ite (Str_eq.dec (str "b") (str "a")) none (time_of one.ttl_index (str "a")))
set-reply_example =
    Replies.set-reply hash lru_policy 7 7 9 (str "b") (str "2") (str "a") one one-IsValid

get-reply_example :
    let (r, e') = Engine.get hash lru_policy 7 (str "a") one in
    (r ≡ returns (reply hash 7 (str "a") one))
    × Replies.IsValid hash e'
    × (reply hash 9 (str "a") e' ≡ reply hash 9 (str "a") one)
    × (time_of e'.ttl_index (str "a") ≡ time_of one.ttl_index (str "a"))
get-reply_example =
    Replies.get-reply hash lru_policy 7 9 (str "a") (str "a") one one-IsValid (omega arith)

delete-reply_example :
    let (r, e') = Engine.delete hash lru_policy (str "a") one in
    (r ≡ returns tt)
    × Replies.IsValid hash e'
    × (reply hash 9 (str "a") e'
        ≡ ite (Str_eq.dec (str "a") (str "a")) none (reply hash 9 (str "a") one))
    × (time_of e'.ttl_index (str "a")
        ≡ ite (Str_eq.dec (str "a") (str "a")) none (time_of one.ttl_index (str "a")))
delete-reply_example = Replies.delete-reply hash lru_policy 9 (str "a") (str "a") one one-IsValid

process_expired-reply_example :
    let (r, e') = Engine.process_expired hash lru_policy 20 one in
    let due = is_due 20 (time_of one.ttl_index (str "a")) in
    (r ≡ returns tt)
    × Replies.IsValid hash e'
    × (reply hash 9 (str "a") e' ≡ (if due then none else reply hash 9 (str "a") one))
    × (time_of e'.ttl_index (str "a") ≡ (if due then none else time_of one.ttl_index (str "a")))
process_expired-reply_example =
    Expiry.process_expired-reply hash lru_policy 20 9 (str "a") one one-IsValid

process_expired_unnoticed_example :
    reply hash 21 (str "a") (Engine.process_expired hash lru_policy 20 one).1
    ≡ reply hash 21 (str "a") one
process_expired_unnoticed_example =
    Expiry.process_expired_unnoticed hash lru_policy 20 21 (str "a") one one-IsValid one-IsLate
      (omega arith)

abbrev noon : ℕ → ℕ → ℕ
noon i j = 12

get_all_keys-find_example :
    Unique (Manager.get_all_keys noon one.shard_manager)
    × (find hash 12 (str "a") one.shard_manager ≡ some (str "1")
        → lookup (str "a") (Manager.get_all_keys noon one.shard_manager) ≡ some (str "1"))
    × (lookup (str "a") (Manager.get_all_keys noon one.shard_manager) ≡ some (str "1")
        → find hash 12 (str "a") one.shard_manager ≡ some (str "1"))
get_all_keys-find_example =
    Listing.get_all_keys-find hash noon 12 12 (str "a") (str "1") one.shard_manager
      one-IsValid.shards (λ i j. (omega arith, omega arith))

-- The policy knows three keys of 100 bytes each, and the limit is 250 bytes.
abbrev crowded : Engine LruCache
crowded = record one { eviction_manager = three }

crowded-IsValid : Replies.IsValid hash crowded
crowded-IsValid = record { shards = one-IsValid.shards; ttl = one-IsValid.ttl }

process_evictions-reply_example :
    let victims = take (excess three) (oldest (recent three.policy)) in
    (e' : Engine LruCache) × (Engine.process_evictions hash lru_policy 9 crowded
      ≡ some (returns tt, e'))
    × Replies.IsValid hash e'
    × (reply hash 9 (str "a") e'
        ≡ (if contains (str "a") victims then none else reply hash 9 (str "a") crowded))
    × (time_of e'.ttl_index (str "a")
        ≡ (if contains (str "a") victims then none else time_of crowded.ttl_index (str "a")))
    × Evicted (excess three) (oldest (recent three.policy)) three e'.eviction_manager
process_evictions-reply_example =
    Evictions.process_evictions-reply hash 9 9 (str "a") crowded crowded-IsValid three-IsValid
      (ground (arith, three-lem)) (ground (arith, three-lem)) (ground (arith, three-lem))
      (ground (arith, three-lem))

-- `a` gets a value with a TTL, is read, and is swept at a time when it is not due.
abbrev swept : Engine LruCache
swept = (Engine.process_expired hash lru_policy 9 (Engine.get hash lru_policy 7 (str "a") one).1).1

abbrev swept_model : Model
swept_model = insert (str "a") (str "1", some (5 + 10)) (lose (lost hash (str "a") start) [])

swept-Reach : Reach hash lru_policy 2 2 9 swept_model swept
swept-Reach =
    did_expire 9
      (did_get 7 (str "a")
        (did_set_with_ttl 5 6 10 (str "a") (str "1") (begin start.eviction_manager) (omega arith)
          (omega arith) (omega arith) (omega arith))
        (omega arith))
      (omega arith)

get-meant_example :
    (Engine.get hash lru_policy 12 (str "a") swept).0 ≡ returns (meant 12 (str "a") swept_model)
get-meant_example =
    Meaning.get-meant hash lru_policy 2 2 (omega arith) (omega arith) 12 (str "a") swept-Reach
      (omega arith)
