-- ===== src/Core/Engine/Threads/Calls.antt =====
-- src/core/kv_engine.h: the turns that make a call of the shards.
use kvmemo.Base.{
  ℕ, ◌+◌, ◌≤◌, ◌<◌, Str, Str_eq, [], ◌≡◌, sym, ap, ◌∙◌, none, some, Outcome, returns, throws, arith,
  ite, if◌then◌else◌, leb, u64_mod, insert, erase,
}
use kvmemo.Core.Engine.{Engine}
use kvmemo.Core.Engine.History.{Model, meant, lose}
use kvmemo.Core.Engine.Meaning.{meant-write, meant-erase}
use kvmemo.Core.Engine.Replies.{IsValid, reply, lost}
use kvmemo.Core.Engine.Threads.{Place, set_indexing, get_noting, on_shards}
use kvmemo.Core.Manager as Shards
use kvmemo.Core.Manager.{ShardManager}
use kvmemo.Core.Manager.Routing as Routing
use kvmemo.Core.Manager.Replies.{find}
use kvmemo.Core.Manager.Store as Store
use kvmemo.Core.Shard.Writes.{unless_victim}
use kvmemo.Core.Ttl.Index as Index
use kvmemo.Eviction.Policy.{EvictionPolicy}

module _ (hash : Str → ℕ) {P : Type 0} (policy : EvictionPolicy P) where
  -- The engine stands for the abstract store from time `t` on.
  pub record Means (t : ℕ) (m : Model) (e : Engine P) : Type 0 where
    pub valid : IsValid hash e
    pub replies : (later : ℕ) (q : Str) → t ≤ later → reply hash later q e ≡ meant later q m

  -- A turn that leaves the shards alone.
  pub keep :
      (t now : ℕ) (m : Model) (e e' : Engine P)
      → Means t m e
      → t ≤ now
      → e'.shard_manager ≡ e.shard_manager
      → Index.IsValid e'.ttl_index
      → Means now m e'
  keep t now m e e' h le same index = record {
    valid = record { shards = rw same h.valid.shards; ttl = index };
    replies = λ later q l. ap (find hash later q) same ∙ h.replies later q (omega arith);
  }

  -- A turn that makes a call of the shards, from what the call does.
  call :
      {A : Type 0} (now : ℕ) (m' : Model) (e : Engine P) (r : Outcome A × ShardManager) (a : A)
      (k : A → Place)
      → IsValid hash e
      → r.0 ≡ returns a
      → Routing.IsValid hash r.1
      → ((later : ℕ) (q : Str) → now ≤ later → find hash later q r.1 ≡ meant later q m')
      → ((on_shards hash policy r k e).0 ≡ k a) × Means now m' (on_shards hash policy r k e).1
  call now m' e (throws x, s) a k v h ok f = absurd (cc h)
  call now m' e (returns b, s) a k v h ok f =
      (cc h, record { valid = record { shards = ok; ttl = v.ttl }; replies = f })

  pub set_turn :
      (t now : ℕ) (key value : Str) (m : Model) (e : Engine P)
      → Means t m e
      → t ≤ now
      → let r =
          on_shards hash policy
            (Shards.set_key hash now key value e.shard_manager)
            (λ _. set_indexing key none)
            e in
        (r.0 ≡ set_indexing key none)
        × Means now (insert key (value, none) (lose (lost hash key e) m)) r.1
  set_turn t now key value m e h le =
      let s = λ (later : ℕ) (q : Str).
        Store.set_key-find hash now later key value q e.shard_manager h.valid.shards in
      call now _ e (Shards.set_key hash now key value e.shard_manager) tt
        (λ _. set_indexing key none) h.valid (s 0 []).0 (s 0 []).1
        λ later q l.
          (s later q).2
          ∙ ap (λ o. ite (Str_eq.dec key q) (some value) (unless_victim (lost hash key e) q o))
              (h.replies later q (omega arith))
          ∙ sym (meant-write later key q value none (lost hash key e) m)

  pub set_with_ttl_turn :
      (t now ttl : ℕ) (key value : Str) (m : Model) (e : Engine P)
      → Means t m e
      → t ≤ now
      → 0 < ttl
      → now + ttl < u64_mod
      → let r =
          on_shards hash policy
            (Shards.set_with_ttl hash now key value ttl e.shard_manager)
            (λ _. set_indexing key (some ttl))
            e in
        (r.0 ≡ set_indexing key (some ttl))
        × Means now (insert key (value, some (now + ttl)) (lose (lost hash key e) m)) r.1
  set_with_ttl_turn t now ttl key value m e h le pos fits =
      let s = λ (later : ℕ) (q : Str).
        Store.set_with_ttl-find hash now later ttl key value q e.shard_manager h.valid.shards pos
          fits in
      call now _ e (Shards.set_with_ttl hash now key value ttl e.shard_manager) tt
        (λ _. set_indexing key (some ttl)) h.valid (s 0 []).0 (s 0 []).1
        λ later q l.
          (s later q).2
          ∙ ap
              (λ o.
                ite (Str_eq.dec key q) (if leb (now + ttl) later then none else some value)
                  (unless_victim (lost hash key e) q o))
              (h.replies later q (omega arith))
          ∙ sym (meant-write later key q value (some (now + ttl)) (lost hash key e) m)

  pub get_turn :
      (t now : ℕ) (key : Str) (m : Model) (e : Engine P)
      → Means t m e
      → t ≤ now
      → let r =
          on_shards hash policy (Shards.get hash now key e.shard_manager) (get_noting key) e in
        (r.0 ≡ get_noting key (meant now key m)) × Means now m r.1
  get_turn t now key m e h le =
      let s = λ (later : ℕ) (q : Str) (l : now ≤ later).
        Store.get-find_after hash now later key q e.shard_manager h.valid.shards l in
      let first = s now [] (omega arith) in
      let r =
        call now m e (Shards.get hash now key e.shard_manager) (reply hash now key e)
          (get_noting key) h.valid first.0 first.1
          λ later q l. (s later q l).2 ∙ h.replies later q (omega arith) in
      (r.0 ∙ ap (get_noting key) (h.replies now key le), r.1)

  -- `Delete` of the shards, in a call that goes on at `next`.
  pub delete_turn :
      (t now : ℕ) (key : Str) (next : Place) (m : Model) (e : Engine P)
      → Means t m e
      → t ≤ now
      → let r = on_shards hash policy (Shards.delete hash key e.shard_manager) (λ _. next) e in
        (r.0 ≡ next) × Means now (erase key m) r.1
  delete_turn t now key next m e h le =
      let s = λ (later : ℕ) (q : Str).
        Store.delete-find hash later key q e.shard_manager h.valid.shards in
      call now _ e (Shards.delete hash key e.shard_manager) tt (λ _. next) h.valid (s 0 []).0
        (s 0 []).1
        λ later q l.
          (s later q).2
          ∙ ap (ite (Str_eq.dec key q) none) (h.replies later q (omega arith))
          ∙ sym (meant-erase later key q m)
