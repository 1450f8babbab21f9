-- ===== src/Core/Engine/Meaning.antt =====
-- src/core/kv_engine.h: the engine gives exactly the values that its history means.
use kvmemo.Base.{
  ℕ, ◌+◌, ◌≤◌, ◌<◌, Str, Str_eq, List, [], ◌∷◌, sym, ◌≡◌, inl, inr, refl, ap, ◌∙◌, Option, none,
  some, Outcome, returns, throws, arith, ite, if◌then◌else◌, leb, lookup, insert, erase,
  Option-cases, contains, get_elem?, replicate, get_elem?-replicate,
}
use kvmemo.Base.Assoc
use kvmemo.Core.Engine.{Engine, get, process_evictions, evict_victims}
use kvmemo.Core.Engine.Evictions.{evict_each-reply, process_evictions-IsLate}
use kvmemo.Core.Engine.Expiry.{
  IsLate, set-IsLate, set_with_ttl-IsLate, delete-IsLate, get-IsLate, process_expired-IsLate,
  process_expired-reply, process_expired_unnoticed,
}
use kvmemo.Core.Engine.History.{
  Model, meant, live_at, lose, lose_all, victims_of, Reach, fresh, begin, did_set, did_set_with_ttl,
  did_get, did_delete, did_expire, did_evict,
}
use kvmemo.Core.Engine.Replies.{
  IsValid, reply, lost, set-reply, set_with_ttl-reply, delete-reply, get-reply,
}
use kvmemo.Core.Manager.{index_of}
use kvmemo.Core.Manager.Replies.{find}
use kvmemo.Core.Manager.Store as Store
use kvmemo.Core.Shard.Writes as Writes
use kvmemo.Core.Shard.Writes.{unless_victim, get-live}
use kvmemo.Core.Ttl.Index
use kvmemo.Core.Ttl.Index.{time_of}
use kvmemo.Eviction.Manager.{EvictionManager, collect}
use kvmemo.Eviction.Policy.{EvictionPolicy}

meant-insert :
    (now : ℕ) (k q : Str) (v : Str) (end : Option ℕ) (m : Model)
    → meant now q (insert k (v, end) m)
      ≡ ite (Str_eq.dec k q) (live_at now (some (v, end))) (meant now q m)
meant-insert now k q v end m = ground (arith, Assoc.lookup-insert k q (v, end) m)

pub meant-erase :
    (now : ℕ) (k q : Str) (m : Model)
    → meant now q (erase k m) ≡ ite (Str_eq.dec k q) none (meant now q m)
meant-erase now k q m = ground (arith, Assoc.lookup-erase k q m)

meant-lose :
    (now : ℕ) (w : Option Str) (q : Str) (m : Model)
    → meant now q (lose w m) ≡ unless_victim w q (meant now q m)
meant-lose now none q m = refl
meant-lose now (some w) q m = meant-erase now w q m

meant-lose_all :
    (now : ℕ) (q : Str) (keys : List Str) (m : Model)
    → meant now q (lose_all keys m) ≡ (if contains q keys then none else meant now q m)
unfolding lose_all contains
meant-lose_all now q [] m = refl
meant-lose_all now q (k ∷ keys) m =
    ground (arith, meant-lose_all now q keys (erase k m), meant-erase now k q m)

-- What a write of the key means, with its victim forgotten.
pub meant-write :
    (now : ℕ) (k q : Str) (v : Str) (end : Option ℕ) (w : Option Str) (m : Model)
    → meant now q (insert k (v, end) (lose w m))
      ≡ ite (Str_eq.dec k q) (live_at now (some (v, end))) (unless_victim w q (meant now q m))
meant-write now k q v end w m =
    meant-insert now k q v end (lose w m)
    ∙ ap (ite (Str_eq.dec k q) (live_at now (some (v, end)))) (meant-lose now w q m)

module _ (hash : Str → ℕ) {P : Type 0} (policy : EvictionPolicy P) where
  evict_victims-reply :
      (later : ℕ) (q : Str) (e : Engine P) (o : Outcome (List Str) × EvictionManager P)
      → IsValid hash e
      → IsValid hash (evict_victims hash policy e o).1
        × (reply hash later q (evict_victims hash policy e o).1
            ≡ (if contains q (victims_of (some o)) then none else reply hash later q e))
  unfolding contains
  evict_victims-reply later q e (throws x, m) v = (record { shards = v.shards; ttl = v.ttl }, refl)
  evict_victims-reply later q e (returns victims, m) v =
      let r =
        evict_each-reply hash policy later q victims (record e { eviction_manager = m })
          (record { shards = v.shards; ttl = v.ttl }) in
      (r.1, r.2)

  pub fresh-reply :
      (shards capacity later : ℕ) (q : Str) (manager : EvictionManager P)
      → 0 < shards
      → 0 < capacity
      → reply hash later q (fresh hash policy shards capacity manager) ≡ none
  unfolding find lookup
  fresh-reply shards capacity later q manager s c =
      elim (Option-cases (
        get_elem? (replicate shards (Writes.empty capacity))
          (index_of hash q (Store.empty hash shards capacity)))) [
            | inl e ↦ ground (arith, e)
            | inr (t, e) ↦ ground (
              arith,
              e,
              get_elem?-replicate shards (index_of hash q (Store.empty hash shards capacity))
                  (Writes.empty capacity) t e,
              get-live later q t,
            )
          ]

  process_evictions_lem :
      (fuel later : ℕ) (q : Str) (e e' : Engine P) (r : Outcome (Unit {0}))
      → IsValid hash e
      → process_evictions hash policy fuel e ≡ some (r, e')
      → IsValid hash e'
        × (reply hash later q e' ≡ (
            if contains q (victims_of (collect policy fuel e.eviction_manager []))
            then none
            else reply hash later q e))
  unfolding process_evictions
  process_evictions_lem fuel later q e e' r v h =
      elim (Option-cases (collect policy fuel e.eviction_manager [])) [
        | inl n ↦ absurd (ground (arith, n, h))
        | inr (o, c) ↦
            let done = evict_victims-reply later q e o v in
            let same : (evict_victims hash policy e o).1 ≡ e' = ground (arith, c, h) in
            rw (c, ← same) done
      ]

  module _ (shards capacity : ℕ) (some_shards : 0 < shards) (some_room : 0 < capacity) where
    pub Reach-IsValid :
        {t : ℕ} {m : Model} {e : Engine P}
        → Reach hash policy shards capacity t m e
        → IsValid hash e
    Reach-IsValid (begin manager) = record {
      shards = Store.empty-IsValid hash shards capacity some_shards some_room;
      ttl = Index.new-IsValid;
    }
    Reach-IsValid (did_set {t} {m} {e} now now' key value r le) =
        (set-reply hash policy now now' 0 key value [] e (Reach-IsValid r)).1
    Reach-IsValid (did_set_with_ttl {t} {m} {e} now now' ttl key value r le seq pos fits) =
        (set_with_ttl-reply hash policy now now' 0 ttl key value [] e (Reach-IsValid r) pos
          (omega arith)).1
    Reach-IsValid (did_get {t} {m} {e} now key r le) =
        (get-reply hash policy now now key [] e (Reach-IsValid r) (omega arith)).1
    Reach-IsValid (did_delete {t} {m} {e} key r) =
        (delete-reply hash policy 0 key [] e (Reach-IsValid r)).1
    Reach-IsValid (did_expire {t} {m} {e} now r le) =
        (process_expired-reply hash policy now 0 [] e (Reach-IsValid r)).1
    Reach-IsValid (did_evict {t} {m} {e} {e'} fuel o r h) =
        (process_evictions_lem fuel 0 [] e e' o (Reach-IsValid r) h).0

    -- The index is never early, after any history.
    Reach-IsLate :
        {t : ℕ} {m : Model} {e : Engine P} → Reach hash policy shards capacity t m e → IsLate hash e
    unfolding lookup
    Reach-IsLate (begin manager) = λ k t later h le. absurd (cc h)
    Reach-IsLate (did_set {t} {m} {e} now now' key value r le) =
        set-IsLate hash policy now now' key value e (Reach-IsValid r) (Reach-IsLate r)
    Reach-IsLate (did_set_with_ttl {t} {m} {e} now now' ttl key value r le seq pos fits) =
        set_with_ttl-IsLate hash policy now now' ttl key value e (Reach-IsValid r) (Reach-IsLate r)
          seq pos fits
    Reach-IsLate (did_get {t} {m} {e} now key r le) =
        get-IsLate hash policy now key e (Reach-IsValid r) (Reach-IsLate r)
    Reach-IsLate (did_delete {t} {m} {e} key r) =
        delete-IsLate hash policy key e (Reach-IsValid r) (Reach-IsLate r)
    Reach-IsLate (did_expire {t} {m} {e} now r le) =
        process_expired-IsLate hash policy now e (Reach-IsValid r) (Reach-IsLate r)
    Reach-IsLate (did_evict {t} {m} {e} {e'} fuel o r h) =
        process_evictions-IsLate hash policy fuel e e' o (Reach-IsValid r) (Reach-IsLate r) h

    -- The replies after a history are what it means.
    Reach-reply :
        {t : ℕ} {m : Model} {e : Engine P} (later : ℕ) (q : Str)
        → Reach hash policy shards capacity t m e
        → t ≤ later
        → reply hash later q e ≡ meant later q m
    unfolding lookup
    Reach-reply later q (begin manager) le =
        fresh-reply shards capacity later q manager some_shards some_room
    Reach-reply later q (did_set {t} {m} {e} now now' key value r le) before =
        (set-reply hash policy now now' later key value q e (Reach-IsValid r)).2
        ∙ ap (λ o. ite (Str_eq.dec key q) (some value) (unless_victim (lost hash key e) q o))
            (Reach-reply later q r (omega arith))
        ∙ sym (meant-write later key q value none (lost hash key e) m)
    Reach-reply later q (did_set_with_ttl {t} {m} {e} now now' ttl key value r le seq pos fits)
          before =
        (set_with_ttl-reply hash policy now now' later ttl key value q e (Reach-IsValid r) pos
          (omega arith)).2
        ∙ ap
            (λ o.
              ite (Str_eq.dec key q) (if leb (now + ttl) later then none else some value)
                (unless_victim (lost hash key e) q o))
            (Reach-reply later q r (omega arith))
        ∙ sym (meant-write later key q value (some (now + ttl)) (lost hash key e) m)
    Reach-reply later q (did_get {t} {m} {e} now key r le) before =
        (get-reply hash policy now later key q e (Reach-IsValid r) before).2
        ∙ Reach-reply later q r (omega arith)
    Reach-reply later q (did_delete {t} {m} {e} key r) before =
        (delete-reply hash policy later key q e (Reach-IsValid r)).2
        ∙ ap (ite (Str_eq.dec key q) none) (Reach-reply later q r before)
        ∙ sym (meant-erase later key q m)
    Reach-reply later q (did_expire {t} {m} {e} now r le) before =
        process_expired_unnoticed hash policy now later q e (Reach-IsValid r) (Reach-IsLate r)
          before
        ∙ Reach-reply later q r (omega arith)
    Reach-reply later q (did_evict {t} {m} {e} {e'} fuel o r h) before =
        let victims = victims_of (collect policy fuel e.eviction_manager []) in
        (process_evictions_lem fuel later q e e' o (Reach-IsValid r) h).1
        ∙ ap (λ x. if contains q victims then none else x) (Reach-reply later q r before)
        ∙ sym (meant-lose_all later q victims m)

    -- After any history of sets, gets, deletes, sweeps and evictions on a new engine with at least
    -- one shard and room for one key in each, no command before the one before it, with positive
    -- TTLs that end below 2 ^ 64 and, in each `Set` with a TTL, the reading of the clock for the
    -- index not before the one for the entry, `Get` returns and gives exactly what the history
    -- means: the last value set, if its time is not over and the key was since then not deleted,
    -- not the victim of a write and not one that `CollectEvictionCandidates` returned to
    -- `ProcessEvictions`. A call of `ProcessExpired` changes nothing of what the history means.
    pub get-meant :
        {t : ℕ} {m : Model} {e : Engine P} (now : ℕ) (key : Str)
        → Reach hash policy shards capacity t m e
        → t ≤ now
        → (get hash policy now key e).0 ≡ returns (meant now key m)
    get-meant {t} {m} {e} now key r le =
        (get-reply hash policy now now key key e (Reach-IsValid r) (omega arith)).0
        ∙ ap (λ o. returns o) (Reach-reply now key r le)
