-- ===== src/Tests/Shards.antt =====
-- A shard of two keys.
use kvmemo.Base.{
  ℕ, Str_eq, Str-discrete, str, [], ◌≡◌, ◌≢◌, refl, returns, is_some, ite, none, some, true, false,
  arith, lookup, insert,
}
use kvmemo.Core.Entry.{with_ttl, has_ttl, is_expired}
use kvmemo.Core.Entry.Lifetime
use kvmemo.Core.Lru.{back, touch}
use kvmemo.Core.Ttl
use kvmemo.Core.Ttl.{upsert, push_key}
use kvmemo.Core.Ttl.Index.{time_of}
use kvmemo.Core.Shard
use kvmemo.Core.Shard.{Shard}
use kvmemo.Core.Shard.Invariant.{IsValid}
use kvmemo.Core.Shard.Replies
use kvmemo.Core.Shard.Sweep
use kvmemo.Core.Shard.Sweep.{IsTracked}
use kvmemo.Core.Shard.Tracked
use kvmemo.Core.Shard.Writes
use kvmemo.Core.Shard.Writes.{unless_victim}

-- `a` has the value 1 from time 5 to time 15, and `b` has the value 2 for ever.
abbrev one : Shard
one = (Shard.set_with_ttl 5 (str "a") (str "1") 10 (Writes.empty 2)).1

abbrev two : Shard
two = (Shard.set 6 (str "b") (str "2") one).1

empty-IsValid : IsValid (Writes.empty 2)
empty-IsValid = Writes.empty-IsValid 2 (omega arith)

one-IsValid : IsValid one
one-IsValid =
    (Replies.get-set_with_ttl 5 0 (str "a") (str "1") [] (Writes.empty 2) empty-IsValid 10
      (omega arith) (omega arith)).1

two-IsValid : IsValid two
two-IsValid = (Replies.get-set 6 0 (str "b") (str "2") [] one one-IsValid).1

empty-IsTracked : IsTracked (Writes.empty 2)
unfolding lookup
empty-IsTracked k = refl

fifteen : (with_ttl 5 (str "1") 10).expire_at ≢ 0
unfolding with_ttl
fifteen e = omega arith

one-IsTracked : IsTracked one
one-IsTracked =
    Tracked.set_with_ttl-IsTracked 5 10 (str "a") (str "1") (Writes.empty 2) empty-IsValid
      empty-IsTracked fifteen

two-IsTracked : IsTracked two
two-IsTracked = Tracked.set-IsTracked 6 (str "b") (str "2") one one-IsValid one-IsTracked

set_full_example :
    let (r, s') = Shard.set 7 (str "c") (str "3") two in
    (r ≡ returns tt)
    × ((Shard.get 8 (str "b") s').0
        ≡ ite
            (Str_eq.dec (str "c") (str "b"))
            (some (str "3"))
            (ite (Str_eq.dec (str "a") (str "b")) none (Shard.get 8 (str "b") two).0))
    × (is_some (lookup (str "a") two.store) ≡ true)
    × (is_some (lookup (str "a") s'.store) ≡ false)
unfolding Shard.set Shard.set_with_ttl touch lookup insert Str-discrete Shard.size back
set_full_example =
    Replies.set_full 7 8 (str "c") (str "a") (str "3") (str "b") two two-IsValid refl refl refl

get-cleanup_expired_example :
    (Shard.get 21 (str "a") (Shard.cleanup_expired 20 two)).0 ≡ (Shard.get 21 (str "a") two).0
get-cleanup_expired_example =
    Sweep.get-cleanup_expired 20 21 (str "a") two two-IsValid two-IsTracked (omega arith)

one-time : time_of one.ttl_index (str "a") ≡ some 15
unfolding Shard.set_with_ttl touch lookup insert Str-discrete with_ttl has_ttl upsert Ttl.remove
    push_key
one-time = refl

stale_ttl_example :
    ((Shard.get 20 (str "a") (Shard.set_with_ttl 8 (str "a") (str "4") 0 one).1).0 ≡ some (str "4"))
    × ((Shard.get 20
          (str "a")
          (Shard.cleanup_expired 20 (Shard.set_with_ttl 8 (str "a") (str "4") 0 one).1)).0
        ≡ none)
stale_ttl_example =
    Tracked.stale_ttl 8 20 15 (str "a") (str "4") one one-IsValid one-time (omega arith)

-- the largest TTL
abbrev longest : ℕ
longest = 18446744073709551615

with_ttl_wraps_example : is_expired 5 (with_ttl 5 (str "1") longest) ≡ true
with_ttl_wraps_example =
    Lifetime.with_ttl_wraps 5 longest (str "1") (omega arith) (omega arith) (omega arith)
