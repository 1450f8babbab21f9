-- ===== src/Core/Engine/Threads/Linear.antt =====
-- src/core/kv_engine.h: however the turns of the threads are interleaved, every call acts as if it
-- were made whole at one of its turns.
use kvmemo.Base.{
  ℕ, ◌≤◌, ◌<◌, Str, Str_eq, ◌≡◌, refl, Option, Outcome, returns, lookup, subst, ◌==◌, Bool-cases,
  inl, inr,
}
use kvmemo.Core.Engine.{Engine}
use kvmemo.Core.Engine.History.{Model, meant}
use kvmemo.Core.Engine.Meaning.{fresh-reply}
use kvmemo.Core.Engine.Replies.{IsValid, reply}
use kvmemo.Core.Engine.Threads.{Call, Place, called, done, at, Reach, begin, calls, turns}
use kvmemo.Core.Manager.Store as Store
use kvmemo.Core.Ttl.Index as Index
use kvmemo.Eviction.Policy.{EvictionPolicy}
use kvmemo.Core.Engine.Threads.Calls.{Means}
use kvmemo.Core.Engine.Threads.Turns.{Agrees, turn-Means, turn-Agrees}

module _ (hash : Str → ℕ) {P : Type 0} (policy : EvictionPolicy P) where
  -- A turn, or a call, of one thread leaves what is known of the others.
  at-Agrees :
      (places : ℕ → Place) (answers : ℕ → Option Str) (i : ℕ) (p : Place) (a : Option Str)
      → ((j : ℕ) → Agrees (places j) (answers j))
      → Agrees p a
      → (j : ℕ) → Agrees (at places i p j) (at answers i a j)
  at-Agrees places answers i p a h g j = elim (Bool-cases (i == j)) [
    | inl same ↦ rw same g
    | inr other ↦ rw other (h j)
  ]

  call-Agrees :
      (places : ℕ → Place) (answers : ℕ → Option Str) (i : ℕ) (c : Call)
      → ((j : ℕ) → Agrees (places j) (answers j))
      → (j : ℕ) → Agrees (at places i (called c) j) (answers j)
  call-Agrees places answers i c h j = elim (Bool-cases (i == j)) [
    | inl same ↦ rw same tt
    | inr other ↦ rw other (h j)
  ]

  module _ (shards capacity : ℕ) (some_shards : 0 < shards) (some_room : 0 < capacity) where
    Reach-Means :
        {t : ℕ} {m : Model} {answers : ℕ → Option Str} {e : Engine P} {places : ℕ → Place}
        → Reach hash policy shards capacity t m answers e places
        → Means hash policy t m e
    unfolding lookup
    Reach-Means (begin manager) = record {
      valid = record {
        shards = Store.empty-IsValid hash shards capacity some_shards some_room;
        ttl = Index.new-IsValid;
      };
      replies = λ later q l.
          fresh-reply hash policy shards capacity later q manager some_shards some_room;
    }
    Reach-Means (calls i c r idle) = Reach-Means r
    Reach-Means (turns {t} {m} {answers} {e} {threads} i fuel now p r stands le ok) =
        turn-Means hash policy t now fuel p m e (Reach-Means r) le ok

    Reach-Agrees :
        {t : ℕ} {m : Model} {answers : ℕ → Option Str} {e : Engine P} {places : ℕ → Place}
        → Reach hash policy shards capacity t m answers e places
        → (j : ℕ) → Agrees (places j) (answers j)
    Reach-Agrees (begin manager) j = refl
    Reach-Agrees (calls {answers} {threads} i c r idle) j =
        call-Agrees threads answers i c (Reach-Agrees r) j
    Reach-Agrees (turns {t} {m} {answers} {e} {threads} i fuel now p r stands le ok) j =
        at-Agrees threads answers i _ _ (Reach-Agrees r)
          (turn-Agrees hash policy t now fuel p m (answers i) e (Reach-Means r) le ok
            (rw (← stands) (Reach-Agrees r i)))
          j

    -- However the turns of any number of threads are interleaved on a new engine with at least one
    -- shard and room for one key in each, with readings of the clock that do not go back and
    -- positive TTLs that end below 2 ^ 64, where each call of a shard, of the index and of the
    -- eviction manager is indivisible: a thread that stands at the end of a call other than
    -- `GetAllKeys` or an abandoned `ProcessEvictions` has returned the result that was fixed at
    -- its call of the shards, for `Get` what the abstract store meant then; the engine is valid,
    -- and its replies are what the abstract store means.
    pub interleaved :
        {t : ℕ} {m : Model} {answers : ℕ → Option Str} {e : Engine P} {threads : ℕ → Place}
        (later : ℕ) (q : Str) (i : ℕ) (o : Outcome (Option Str))
        → Reach hash policy shards capacity t m answers e threads
        → t ≤ later
        → threads i ≡ done o
        → (o ≡ returns (answers i)) × IsValid hash e × (reply hash later q e ≡ meant later q m)
    interleaved {answers} later q i o r le stands =
        let h = Reach-Means r in
        let g = subst (λ p. Agrees p (answers i)) stands (Reach-Agrees r i) in
        (g, h.valid, h.replies later q le)
