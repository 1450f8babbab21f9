-- ===== src/Core/Engine/Room.antt =====
-- src/core/kv_engine.h: a history that sets no more keys than a shard has room for.
mod Loops
use kvmemo.Base.{
  ℕ, ◌+◌, ◌≤◌, ◌<◌, Str, Str_eq, List, [], ◌∷◌, ◌≡◌, refl, sym, ap, ◌∙◌, Option, none, some,
  Outcome, returns, throws, true, arith, lookup, insert, erase, contains, length, subst, inl, inr,
  Option-cases,
}
use kvmemo.Core.Engine
use kvmemo.Core.Engine.{
  Engine, get, delete, process_expired, process_evictions, expire_each, evict_each, evict_victims,
  note_read,
}
use kvmemo.Core.Engine.History.{
  Model, meant, lose, lose_all, victims_of, Reach, begin, did_set, did_set_with_ttl, did_get,
  did_delete, did_expire, did_evict,
}
use kvmemo.Core.Engine.Meaning.{Reach-IsValid, get-meant}
use kvmemo.Core.Engine.Replies.{IsValid, then_do-returns}
use kvmemo.Core.Manager as Shards
use kvmemo.Core.Manager.{ShardManager}
use kvmemo.Core.Manager.Room.{
  Fits, empty-Fits, evicted-none, set_key-Fits, set_with_ttl-Fits, delete-Fits, get-Fits,
}
use kvmemo.Core.Manager.Store as Store
use kvmemo.Core.Ttl
use kvmemo.Core.Ttl.{collect_expired}
use kvmemo.Core.Ttl.Collect.{collect_expired-IsValid}
use kvmemo.Core.Ttl.Index as Index
use kvmemo.Eviction.Manager as Eviction
use kvmemo.Eviction.Manager.{EvictionManager, collect}
use kvmemo.Eviction.Policy.{EvictionPolicy}
use kvmemo.Core.Engine.Room.Loops.{expire_each-Stays, process_evictions-Fits}

module _ (hash : Str → ℕ) {P : Type 0} (policy : EvictionPolicy P) (keys : List Str)
    (capacity : ℕ) where
  note_read-shards :
      (k : Str) (o : Option Str) (e : Engine P)
      → (note_read hash policy k o e).shard_manager ≡ e.shard_manager
  note_read-shards k none e = refl
  note_read-shards k (some v) e = refl

  module _ (shards : ℕ) (some_shards : 0 < shards) (some_room : 0 < capacity) where
    -- All keys that the history sets are in the list.
    abbrev pub SetsOnly :
        {t : ℕ} {m : Model} {e : Engine P} → Reach hash policy shards capacity t m e → Type 0
    SetsOnly (begin manager) = Unit
    SetsOnly (did_set now now' key value r le) = (contains key keys ≡ true) × SetsOnly r
    SetsOnly (did_set_with_ttl now now' ttl key value r le seq pos fits) =
        (contains key keys ≡ true) × SetsOnly r
    SetsOnly (did_get now key r le) = SetsOnly r
    SetsOnly (did_delete key r) = SetsOnly r
    SetsOnly (did_expire now r le) = SetsOnly r
    SetsOnly (did_evict fuel o r h) = SetsOnly r

    -- What the history means if no write evicts anything.
    unfoldable pub unbounded :
        {t : ℕ} {m : Model} {e : Engine P} → Reach hash policy shards capacity t m e → Model
    unbounded (begin manager) = []
    unbounded (did_set now now' key value r le) = insert key (value, none) (unbounded r)
    unbounded (did_set_with_ttl now now' ttl key value r le seq pos fits) =
        insert key (value, some (now + ttl)) (unbounded r)
    unbounded (did_get now key r le) = unbounded r
    unbounded (did_delete key r) = erase key (unbounded r)
    unbounded (did_expire now r le) = unbounded r
    unbounded (did_evict {e} fuel o r h) =
        lose_all (victims_of (collect policy fuel e.eviction_manager [])) (unbounded r)

    Reach-Fits :
        {t : ℕ} {m : Model} {e : Engine P} (r : Reach hash policy shards capacity t m e)
        → SetsOnly r
        → Fits hash keys capacity e.shard_manager
    unfolding Engine.set get delete process_expired
    Reach-Fits (begin manager) h = empty-Fits hash keys capacity shards
    Reach-Fits (did_set {e} now now' key value r le) h =
        let v = (Reach-IsValid hash policy shards capacity some_shards some_room r).shards in
        let s = Store.set_key-find hash now 0 key value [] e.shard_manager v in
        rw (then_do-returns (Shards.set_key hash now key value e.shard_manager) tt e _ s.0)
          (set_key-Fits hash keys capacity e.shard_manager v (Reach-Fits r h.1) now key value h.0)
    Reach-Fits (did_set_with_ttl {e} now now' ttl key value r le seq pos fits) h =
        let v = (Reach-IsValid hash policy shards capacity some_shards some_room r).shards in
        let s = Store.set_with_ttl-IsValid hash now ttl key value e.shard_manager v in
        rw (then_do-returns (Shards.set_with_ttl hash now key value ttl e.shard_manager) tt e _ s.0)
          (set_with_ttl-Fits hash keys capacity e.shard_manager v (Reach-Fits r h.1) now ttl key
            value h.0)
    Reach-Fits (did_get {e} now key r le) h =
        let v = (Reach-IsValid hash policy shards capacity some_shards some_room r).shards in
        let s = Store.get-find_after hash now now key [] e.shard_manager v (omega arith) in
        rw (then_do-returns (Shards.get hash now key e.shard_manager) _ e _ s.0) (
          subst (Fits hash keys capacity) (sym (note_read-shards key _ _))
            (get-Fits hash keys capacity e.shard_manager v (Reach-Fits r h) now key))
    Reach-Fits (did_delete {e} key r) h =
        let v = (Reach-IsValid hash policy shards capacity some_shards some_room r).shards in
        let s = Store.delete-find hash 0 key [] e.shard_manager v in
        rw (then_do-returns (Shards.delete hash key e.shard_manager) tt e _ s.0)
          (delete-Fits hash keys capacity e.shard_manager v (Reach-Fits r h) key)
    Reach-Fits (did_expire {e} now r le) h =
        let v = Reach-IsValid hash policy shards capacity some_shards some_room r in
        (expire_each-Stays hash policy keys capacity (collect_expired now e.ttl_index).0
          (record e { ttl_index = (collect_expired now e.ttl_index).1 })
          (
            record { shards = v.shards; ttl = collect_expired-IsValid now e.ttl_index v.ttl },
            Reach-Fits r h,
          )).1
    Reach-Fits (did_evict {e} {e'} fuel o r eq) h =
        process_evictions-Fits hash policy keys capacity fuel e e' o
          (Reach-IsValid hash policy shards capacity some_shards some_room r, Reach-Fits r h) eq

    module _ (fits : length keys ≤ capacity) where
      Reach-unbounded :
          {t : ℕ} {m : Model} {e : Engine P} (r : Reach hash policy shards capacity t m e)
          → SetsOnly r
          → m ≡ unbounded r
      unfolding unbounded
      Reach-unbounded (begin manager) h = refl
      Reach-unbounded (did_set {m} {e} now now' key value r le) h =
          let v = (Reach-IsValid hash policy shards capacity some_shards some_room r).shards in
          let f = Reach-Fits r h.1 in
          let none_lost = evicted-none hash keys capacity key e.shard_manager v f fits h.0 in
          ap (insert key (value, none)) (ap (λ w. lose w m) none_lost ∙ Reach-unbounded r h.1)
      Reach-unbounded (did_set_with_ttl {m} {e} now now' ttl key value r le seq pos ends) h =
          let v = (Reach-IsValid hash policy shards capacity some_shards some_room r).shards in
          let f = Reach-Fits r h.1 in
          let none_lost = evicted-none hash keys capacity key e.shard_manager v f fits h.0 in
          ap (insert key (value, some (now + ttl)))
            (ap (λ w. lose w m) none_lost ∙ Reach-unbounded r h.1)
      Reach-unbounded (did_get now key r le) h = Reach-unbounded r h
      Reach-unbounded (did_delete key r) h = ap (erase key) (Reach-unbounded r h)
      Reach-unbounded (did_expire now r le) h = Reach-unbounded r h
      Reach-unbounded (did_evict {e} fuel o r eq) h =
          ap (lose_all (victims_of (collect policy fuel e.eviction_manager [])))
            (Reach-unbounded r h)

      -- If the keys that a history sets are in a list that is no longer than the capacity of a
      -- shard, writes evict nothing: after any such history on a new engine, at a time not before
      -- its last command, `Get` returns what the history means with no victim of a write
      -- forgotten, and nothing forgotten at a call of `ProcessExpired`.
      pub get-unbounded :
          {t : ℕ} {m : Model} {e : Engine P} (now : ℕ) (key : Str)
          (r : Reach hash policy shards capacity t m e)
          → SetsOnly r
          → t ≤ now
          → (get hash policy now key e).0 ≡ returns (meant now key (unbounded r))
      get-unbounded now key r h le =
          get-meant hash policy shards capacity some_shards some_room now key r le
          ∙ ap (λ m. returns (meant now key m)) (Reach-unbounded r h)
