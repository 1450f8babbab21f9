-- ===== src/Core/Engine/Threads/Race.antt =====
-- src/core/kv_engine.h: two calls of `Set` for one key whose turns cross.
use kvmemo.Base.{
  ℕ, ◌+◌, ◌≤◌, ◌<◌, Str, Str_eq, List, [], ◌∷◌, ◌≡◌, refl, ap, none, some, returns, arith,
  if◌then◌else◌, u64_mod, add64, ◌==◌,
}
use kvmemo.Core.Engine
use kvmemo.Core.Engine.{Engine, process_expired}
use kvmemo.Core.Engine.Expiry.{process_expired-reply}
use kvmemo.Core.Engine.Replies.{IsValid, reply, set-reply, set_with_ttl-reply}
use kvmemo.Core.Engine.Threads.{set, Place, called, done, turn, at}
use kvmemo.Core.Manager as Shards
use kvmemo.Core.Manager.{ShardManager}
use kvmemo.Core.Manager.Store as Store
use kvmemo.Core.Ttl
use kvmemo.Core.Ttl.{upsert}
use kvmemo.Core.Ttl.Index as Index
use kvmemo.Core.Ttl.Index.{time_of}
use kvmemo.Eviction.Manager as Eviction
use kvmemo.Eviction.Policy.{EvictionPolicy}

-- Thread 0 sets a value with a TTL, and thread 1 one without.
abbrev pub two_sets : Str → Str → Str → ℕ → ℕ → Place
two_sets key v w ttl i = if i == 0 then called (set key v (some ttl)) else called (set key w none)

-- Thread 0 takes its first turn, thread 1 makes its whole call, and thread 0 ends its own.
abbrev pub crossing : List ℕ
crossing = 0 ∷ 1 ∷ 1 ∷ 1 ∷ 0 ∷ 0 ∷ []

module _ (hash : Str → ℕ) {P : Type 0} (policy : EvictionPolicy P) where
  -- The threads of the list take one turn each, all at one time.
  unfoldable pub take_turns : ℕ → List ℕ → Engine P × (ℕ → Place) → Engine P × (ℕ → Place)
  take_turns now [] (e, places) = (e, places)
  take_turns now (i ∷ schedule) (e, places) =
      let (p, e') = turn hash policy 0 now (places i) e in
      take_turns now schedule (e', at places i p)

  -- The same calls, the second after the end of the first.
  abbrev pub in_turn : ℕ → ℕ → Str → Str → Str → Engine P → Engine P
  in_turn now ttl key v w e =
      (Engine.set hash policy now now key w none
        (Engine.set hash policy now now key v (some ttl) e).1).1

  abbrev crossed : ℕ → Str → ℕ → ShardManager → Engine P → Engine P
  crossed now key ttl m e = record {
    shard_manager = m;
    ttl_index = upsert key (add64 now ttl) (Ttl.remove key e.ttl_index);
    eviction_manager = Eviction.write policy key (Eviction.write policy key e.eviction_manager);
  }

  take_turns-crossing :
      (now ttl : ℕ) (key v w : Str) (e : Engine P) (m m' : ShardManager)
      → Shards.set_with_ttl hash now key v ttl e.shard_manager ≡ (returns tt, m)
      → Shards.set_key hash now key w m ≡ (returns tt, m')
      → let r = take_turns now crossing (e, two_sets key v w ttl) in
        (r.0 ≡ crossed now key ttl m' e)
        × (r.1 0 ≡ done (returns none))
        × (r.1 1 ≡ done (returns none))
  unfolding take_turns turn
  take_turns-crossing now ttl key v w e m m' h h' = rw (h, h') (refl, refl, refl)

  -- On a valid engine let one thread set a key with a positive TTL, whose end is below 2 ^ 64,
  -- another one set it without a TTL, and let the second make its whole call after the call of the
  -- shards by the first. Both return, and the key has its second value at every time, yet
  -- `ProcessExpired` at the end of the TTL or later deletes it. If the second call starts after
  -- the end of the first, `ProcessExpired` keeps the value.
  pub crossed_sets :
      (now ttl later due : ℕ) (key v w : Str) (e : Engine P)
      → IsValid hash e
      → 0 < ttl
      → now + ttl < u64_mod
      → now + ttl ≤ due
      → let (e', places) = take_turns now crossing (e, two_sets key v w ttl) in
        (places 0 ≡ done (returns none))
        × (places 1 ≡ done (returns none))
        × (reply hash later key e' ≡ some w)
        × (reply hash later key (process_expired hash policy due e').1 ≡ none)
        × (reply hash later key (process_expired hash policy due (in_turn now ttl key v w e)).1
            ≡ some w)
  crossed_sets now ttl later due key v w e valid pos fits over =
      let a = Store.set_with_ttl-IsValid hash now ttl key v e.shard_manager valid.shards in
      let m = (Shards.set_with_ttl hash now key v ttl e.shard_manager).1 in
      let b = Store.set_key-find hash now later key w key m a.1 in
      let m' = (Shards.set_key hash now key w m).1 in
      let r =
        take_turns-crossing now ttl key v w e m m' (ap (λ o. (o, m)) a.0) (ap (λ o. (o, m')) b.0) in
      let removed = Index.remove-IsValid key e.ttl_index valid.ttl in
      let e' = crossed now key ttl m' e in
      let valid' : IsValid hash e' = record {
        shards = b.1;
        ttl = Index.upsert-IsValid key (add64 now ttl) (Ttl.remove key e.ttl_index) removed;
      } in
      let time = Index.time_of-upsert key key (add64 now ttl) (Ttl.remove key e.ttl_index) in
      let first = set_with_ttl-reply hash policy now now later ttl key v key e valid pos fits in
      let e1 = (Engine.set hash policy now now key v (some ttl) e).1 in
      let second = set-reply hash policy now now later key w key e1 first.1 in
      let kept =
        process_expired-reply hash policy due later key (in_turn now ttl key v w e) second.1 in
      let swept = process_expired-reply hash policy due later key e' valid' in
      (
        r.1,
        r.2,
        rw r.0 (ground (arith, b.2)),
        rw r.0 (ground (arith, swept.2, time)),
        ground (arith, kept.2, second.2, second.3),
      )
