-- ===== src/Core/Engine/Expiry.antt =====
-- src/core/kv_engine.h: `ProcessExpired`, and the TTL index of the engine.
use kvmemo.Base.{
  ℕ, ◌+◌, ◌≤◌, ◌<◌, Str, Str_eq, List, [], ◌∷◌, ◌≡◌, refl, sym, ap, ◌∙◌, Option, none, some,
  returns, arith, ite, if◌then◌else◌, leb, u64_mod, add64, contains, Option-cases, inl, inr,
  Bool-cases, Bool,
}
use kvmemo.Core.Manager as Shards
use kvmemo.Core.Manager.Store as Store
use kvmemo.Core.Shard.Writes.{unless_victim}
use kvmemo.Core.Ttl.{collect_expired}
use kvmemo.Core.Ttl.Index.{time_of}
use kvmemo.Core.Ttl.Collect.{
  is_due, contains-collect_expired, time_of-collect_expired, collect_expired-IsValid,
}
use kvmemo.Core.Engine
use kvmemo.Core.Engine.{Engine, get, delete, expire_each, process_expired}
use kvmemo.Core.Engine.Replies.{
  IsValid, reply, lost, then_do-returns, set-reply, set_with_ttl-reply, delete-reply, get-reply,
  note_read-same,
}
use kvmemo.Core.Manager.Replies.{find}
use kvmemo.Eviction.Manager as Eviction
use kvmemo.Eviction.Policy.{EvictionPolicy}

-- From the time that the index gives a key on, the key cannot be read.
abbrev pub IsLate : (Str → ℕ) → {P : Type 0} → Engine P → Type 0
IsLate hash e =
    (k : Str) (t later : ℕ)
    → time_of e.ttl_index k ≡ some t
    → t ≤ later
    → reply hash later k e ≡ none

unless_victim-none : (w : Option Str) (q : Str) → unless_victim w q none ≡ none
unless_victim-none none q = refl
unless_victim-none (some w) q = ground arith

-- A reply and a time after a write of `k`, from those before it.
late_write :
    (k q : Str) (w r o o' : Option Str) (x y x' : Option ℕ) (t : ℕ)
    → o' ≡ ite (Str_eq.dec k q) r (unless_victim w q o)
    → x' ≡ ite (Str_eq.dec k q) y x
    → x' ≡ some t
    → (y ≡ some t → r ≡ none)
    → (x ≡ some t → o ≡ none)
    → o' ≡ none
late_write k q w r o o' x y x' t ho hx h new old =
    ground (arith, ho, hx, h, new, old, unless_victim-none w q)

-- A reply and a time after a call that removes some keys, from those before it.
pub lost_late :
    (b : Bool) (o o' : Option Str) (x x' : Option ℕ) (t : ℕ)
    → o' ≡ (if b then none else o)
    → x' ≡ (if b then none else x)
    → x' ≡ some t
    → (x ≡ some t → o ≡ none)
    → o' ≡ none
lost_late b o o' x x' t ho hx h old = ground (arith, ho, hx, h, old)

module _ (hash : Str → ℕ) {P : Type 0} (policy : EvictionPolicy P) where
  pub set-IsLate :
      (now now' : ℕ) (k v : Str) (e : Engine P)
      → IsValid hash e
      → IsLate hash e
      → IsLate hash (Engine.set hash policy now now' k v none e).1
  set-IsLate now now' k v e valid l q t later h le =
      let r = set-reply hash policy now now' later k v q e valid in
      late_write k q (lost hash k e) (some v) (reply hash later q e) _ (time_of e.ttl_index q) none
        _ t r.2 r.3 h (λ y. cc y) (λ x. l q t later x le)

  -- `Set` with a positive TTL on a valid engine keeps the index from being early, if the engine
  -- reads the clock not before the entry does and the end is below 2 ^ 64.
  pub set_with_ttl-IsLate :
      (now now' ttl : ℕ) (k v : Str) (e : Engine P)
      → IsValid hash e
      → IsLate hash e
      → now ≤ now'
      → 0 < ttl
      → now' + ttl < u64_mod
      → IsLate hash (Engine.set hash policy now now' k v (some ttl) e).1
  set_with_ttl-IsLate now now' ttl k v e valid l seq pos fits q t later h le =
      let r = set_with_ttl-reply hash policy now now' later ttl k v q e valid pos (omega arith) in
      late_write k q (lost hash k e) (if leb (now + ttl) later then none else some v)
        (reply hash later q e) _ (time_of e.ttl_index q) (some (add64 now' ttl)) _ t r.2 r.3 h
        (λ y. ground (arith, y, seq, fits, le)) (λ x. l q t later x le)

  pub delete-IsLate :
      (k : Str) (e : Engine P)
      → IsValid hash e
      → IsLate hash e
      → IsLate hash (delete hash policy k e).1
  delete-IsLate k e valid l q t later h le =
      let r = delete-reply hash policy later k q e valid in
      late_write k q none none (reply hash later q e) _ (time_of e.ttl_index q) none _ t r.2 r.3 h
        (λ y. refl) (λ x. l q t later x le)

  -- No write in between: a key keeps its time, or loses its time or its value.
  pub get-IsLate :
      (now : ℕ) (k : Str) (e : Engine P)
      → IsValid hash e
      → IsLate hash e
      → IsLate hash (get hash policy now k e).1
  unfolding get
  get-IsLate now k e valid l q t later h le =
      let s = Store.get-find_after hash now now k q e.shard_manager valid.shards (omega arith) in
      let r = get-reply hash policy now now k q e valid (omega arith) in
      let gone =
        Store.get-find_gone hash now later k q e.shard_manager valid.shards
          (l q t later (sym r.3 ∙ h) le) in
      rw (then_do-returns (Shards.get hash now k e.shard_manager) (reply hash now k e) e _ s.0) (
        ap (find hash later q)
          (note_read-same hash policy k (reply hash now k e)
            (record e { shard_manager = (Shards.get hash now k e.shard_manager).1 })).0
        ∙ gone)

  -- The shards and the replies after the loop of `ProcessExpired`.
  expire_each-reply :
      (later : ℕ) (q : Str) (keys : List Str) (e : Engine P)
      → IsValid hash e
      → let (r, e') = expire_each hash policy keys e in
        (r ≡ returns tt)
        × IsValid hash e'
        × (reply hash later q e' ≡ (if contains q keys then none else reply hash later q e))
        × (e'.ttl_index ≡ e.ttl_index)
  unfolding expire_each contains
  expire_each-reply later q [] e valid = (refl, valid, refl, refl)
  expire_each-reply later q (k ∷ keys) e valid =
      let s = Store.delete-find hash later k q e.shard_manager valid.shards in
      let e' = record e {
        shard_manager = (Shards.delete hash k e.shard_manager).1;
        eviction_manager = Eviction.delete policy k e.eviction_manager;
      } in
      let r = expire_each-reply later q keys e' (record { shards = s.1; ttl = valid.ttl }) in
      rw (then_do-returns (Shards.delete hash k e.shard_manager) tt e _ s.0)
        (r.0, r.1, ground (arith, r.2, s.2), r.3)

  -- On a valid engine `ProcessExpired` returns and keeps the invariant. The keys that are due in
  -- the index can no longer be read and have no time, and all other replies and times stay.
  pub process_expired-reply :
      (now later : ℕ) (q : Str) (e : Engine P)
      → IsValid hash e
      → let (r, e') = process_expired hash policy now e in
        let due = is_due now (time_of e.ttl_index q) in
        (r ≡ returns tt)
        × IsValid hash e'
        × (reply hash later q e' ≡ (if due then none else reply hash later q e))
        × (time_of e'.ttl_index q ≡ (if due then none else time_of e.ttl_index q))
  unfolding process_expired
  process_expired-reply now later q e valid =
      let index = (collect_expired now e.ttl_index).1 in
      let keys = (collect_expired now e.ttl_index).0 in
      let r =
        expire_each-reply later q keys (record e { ttl_index = index })
          (record {
            shards = valid.shards;
            ttl = collect_expired-IsValid now e.ttl_index valid.ttl;
          }) in
      (
        r.0,
        r.1,
        ground (arith, r.2, contains-collect_expired now e.ttl_index valid.ttl q),
        ap (λ x. time_of x q) r.3 ∙ time_of-collect_expired now e.ttl_index valid.ttl q,
      )

  -- On a valid engine whose index is never early, `ProcessExpired` changes no reply at its own
  -- time or later.
  pub process_expired_unnoticed :
      (now later : ℕ) (q : Str) (e : Engine P)
      → IsValid hash e
      → IsLate hash e
      → now ≤ later
      → reply hash later q (process_expired hash policy now e).1 ≡ reply hash later q e
  process_expired_unnoticed now later q e valid l le =
      let r = process_expired-reply now later q e valid in
      r.2 ∙ elim (Option-cases (time_of e.ttl_index q)) [
        | inl n ↦ rw n refl
        | inr (t, n) ↦ elim (Bool-cases (leb t now)) [
          | inl d ↦ rw (n, d) (sym (l q t later n (ground (arith, d, le))))
          | inr d ↦ rw (n, d) refl
        ]
      ]

  pub process_expired-IsLate :
      (now : ℕ) (e : Engine P)
      → IsValid hash e
      → IsLate hash e
      → IsLate hash (process_expired hash policy now e).1
  process_expired-IsLate now e valid l q t later h le =
      let r = process_expired-reply now later q e valid in
      lost_late (is_due now (time_of e.ttl_index q)) (reply hash later q e) _
        (time_of e.ttl_index q) _ t r.2 r.3 h (λ x. l q t later x le)
