-- ===== src/Core/Engine/Threads/Turns.antt =====
-- src/core/kv_engine.h: every turn keeps what the engine stands for and the results that are fixed.
use kvmemo.Base.{
  ℕ, ◌≤◌, Str, Str_eq, List, [], ◌∷◌, ◌≡◌, refl, Option, none, some, Outcome, returns, throws,
  add64, get_elem?,
}
use kvmemo.Core.Shard.{Shard}
use kvmemo.Core.Engine.{Engine}
use kvmemo.Core.Engine.History.{Model}
use kvmemo.Core.Engine.Threads.{
  set, get, delete, get_all_keys, listing, listed, list_shard, process_expired, process_evictions,
  Place, called, set_indexing, set_noting, get_noting, delete_indexing, delete_noting, expiring,
  expire_noting, evicting, evict_indexing, done, abandoned, collected, turn, effect, fixed_answer,
  Allowed,
}
use kvmemo.Core.Ttl.Index as Index
use kvmemo.Core.Ttl.Collect.{collect_expired-IsValid}
use kvmemo.Eviction.Manager.{EvictionManager, collect}
use kvmemo.Eviction.Policy.{EvictionPolicy}
use kvmemo.Core.Engine.Threads.Calls.{
  Means, keep, set_turn, set_with_ttl_turn, get_turn, delete_turn,
}

-- What is known of the result of a call at its place: it returns what was fixed.
abbrev pub Agrees : Place → Option Str → Type 0
Agrees (called c) a = Unit
Agrees (get_noting key value) a = value ≡ a
Agrees (done o) a = o ≡ returns a
Agrees (abandoned x) a = Unit
Agrees _ a = a ≡ none

module _ (hash : Str → ℕ) {P : Type 0} (policy : EvictionPolicy P) where
  -- Every turn keeps what the engine stands for.
  pub turn-Means :
      (t now fuel : ℕ) (p : Place) (m : Model) (e : Engine P)
      → Means hash policy t m e
      → t ≤ now
      → Allowed now p
      → Means hash policy now (effect hash policy now p e m) (turn hash policy fuel now p e).1
  unfolding turn
  turn-Means t now fuel (called (set key value (some ttl))) m e h le ok =
      (set_with_ttl_turn hash policy t now ttl key value m e h le ok.0 ok.1).1
  turn-Means t now fuel (called (set key value none)) m e h le ok =
      (set_turn hash policy t now key value m e h le).1
  turn-Means t now fuel (called (get key)) m e h le ok = (get_turn hash policy t now key m e h le).1
  turn-Means t now fuel (called (delete key)) m e h le ok =
      (delete_turn hash policy t now key (delete_indexing key) m e h le).1
  turn-Means t now fuel (called process_expired) m e h le ok =
      keep hash policy t now m e _ h le refl (collect_expired-IsValid now e.ttl_index h.valid.ttl)
  turn-Means t now fuel (called process_evictions) m e h le ok =
      collected_turn (collect policy fuel e.eviction_manager [])
    where
      collected_turn :
          (c : Option (Outcome (List Str) × EvictionManager P))
          → Means hash policy now m (collected hash policy c e).1
      collected_turn none = keep hash policy t now m e _ h le refl h.valid.ttl
      collected_turn (some (throws x, a)) = keep hash policy t now m e _ h le refl h.valid.ttl
      collected_turn (some (returns v, a)) = keep hash policy t now m e _ h le refl h.valid.ttl
  turn-Means t now fuel (set_indexing key (some ttl)) m e h le ok =
      keep hash policy t now m e _ h le refl
        (Index.upsert-IsValid key (add64 now ttl) e.ttl_index h.valid.ttl)
  turn-Means t now fuel (set_indexing key none) m e h le ok =
      keep hash policy t now m e _ h le refl (Index.remove-IsValid key e.ttl_index h.valid.ttl)
  turn-Means t now fuel (set_noting key) m e h le ok =
      keep hash policy t now m e _ h le refl h.valid.ttl
  turn-Means t now fuel (get_noting key none) m e h le ok =
      keep hash policy t now m e _ h le refl h.valid.ttl
  turn-Means t now fuel (get_noting key (some v)) m e h le ok =
      keep hash policy t now m e _ h le refl h.valid.ttl
  turn-Means t now fuel (delete_indexing key) m e h le ok =
      keep hash policy t now m e _ h le refl (Index.remove-IsValid key e.ttl_index h.valid.ttl)
  turn-Means t now fuel (delete_noting key) m e h le ok =
      keep hash policy t now m e _ h le refl h.valid.ttl
  turn-Means t now fuel (expiring []) m e h le ok =
      keep hash policy t now m e _ h le refl h.valid.ttl
  turn-Means t now fuel (expiring (key ∷ keys)) m e h le ok =
      (delete_turn hash policy t now key (expire_noting key keys) m e h le).1
  turn-Means t now fuel (expire_noting key keys) m e h le ok =
      keep hash policy t now m e _ h le refl h.valid.ttl
  turn-Means t now fuel (evicting []) m e h le ok =
      keep hash policy t now m e _ h le refl h.valid.ttl
  turn-Means t now fuel (evicting (key ∷ keys)) m e h le ok =
      (delete_turn hash policy t now key (evict_indexing key keys) m e h le).1
  turn-Means t now fuel (evict_indexing key keys) m e h le ok =
      keep hash policy t now m e _ h le refl (Index.remove-IsValid key e.ttl_index h.valid.ttl)
  turn-Means t now fuel (called get_all_keys) m e h le ok =
      keep hash policy t now m e _ h le refl h.valid.ttl
  turn-Means t now fuel (listing n pairs) m e h le ok =
      keep hash policy t now m e _ h le refl h.valid.ttl
  turn-Means t now fuel (listed pairs) m e h le ok =
      keep hash policy t now m e _ h le refl h.valid.ttl
  turn-Means t now fuel (done o) m e h le ok = keep hash policy t now m e _ h le refl h.valid.ttl
  turn-Means t now fuel (abandoned x) m e h le ok =
      keep hash policy t now m e _ h le refl h.valid.ttl

  -- Every turn keeps to the result that is fixed.
  pub turn-Agrees :
      (t now fuel : ℕ) (p : Place) (m : Model) (a : Option Str) (e : Engine P)
      → Means hash policy t m e
      → t ≤ now
      → Allowed now p
      → Agrees p a
      → Agrees (turn hash policy fuel now p e).0 (fixed_answer now p m a)
  unfolding turn
  turn-Agrees t now fuel (called (set key value (some ttl))) m a e h le ok g =
      rw (set_with_ttl_turn hash policy t now ttl key value m e h le ok.0 ok.1).0 refl
  turn-Agrees t now fuel (called (set key value none)) m a e h le ok g =
      rw (set_turn hash policy t now key value m e h le).0 refl
  turn-Agrees t now fuel (called (get key)) m a e h le ok g =
      rw (get_turn hash policy t now key m e h le).0 refl
  turn-Agrees t now fuel (called (delete key)) m a e h le ok g =
      rw (delete_turn hash policy t now key (delete_indexing key) m e h le).0 refl
  turn-Agrees t now fuel (called process_expired) m a e h le ok g = refl
  turn-Agrees t now fuel (called process_evictions) m a e h le ok g =
      collected_turn (collect policy fuel e.eviction_manager [])
    where
      collected_turn :
          (c : Option (Outcome (List Str) × EvictionManager P))
          → Agrees (collected hash policy c e).0 none
      collected_turn none = tt
      collected_turn (some (throws x, b)) = tt
      collected_turn (some (returns v, b)) = refl
  turn-Agrees t now fuel (set_indexing key (some ttl)) m a e h le ok g = g
  turn-Agrees t now fuel (set_indexing key none) m a e h le ok g = g
  turn-Agrees t now fuel (set_noting key) m a e h le ok g = cc g
  turn-Agrees t now fuel (get_noting key none) m a e h le ok g = cc g
  turn-Agrees t now fuel (get_noting key (some v)) m a e h le ok g = cc g
  turn-Agrees t now fuel (delete_indexing key) m a e h le ok g = g
  turn-Agrees t now fuel (delete_noting key) m a e h le ok g = cc g
  turn-Agrees t now fuel (expiring []) m a e h le ok g = cc g
  turn-Agrees t now fuel (expiring (key ∷ keys)) m a e h le ok g =
      rw (delete_turn hash policy t now key (expire_noting key keys) m e h le).0 g
  turn-Agrees t now fuel (expire_noting key keys) m a e h le ok g = g
  turn-Agrees t now fuel (evicting []) m a e h le ok g = cc g
  turn-Agrees t now fuel (evicting (key ∷ keys)) m a e h le ok g =
      rw (delete_turn hash policy t now key (evict_indexing key keys) m e h le).0 g
  turn-Agrees t now fuel (evict_indexing key keys) m a e h le ok g = g
  turn-Agrees t now fuel (called get_all_keys) m a e h le ok g = refl
  turn-Agrees t now fuel (listing n pairs) m a e h le ok g =
      list_turn (get_elem? e.shard_manager.shards n)
    where
      list_turn : (s : Option Shard) → Agrees (list_shard hash policy now n pairs s) a
      list_turn none = g
      list_turn (some s) = g
  turn-Agrees t now fuel (listed pairs) m a e h le ok g = g
  turn-Agrees t now fuel (done o) m a e h le ok g = g
  turn-Agrees t now fuel (abandoned x) m a e h le ok g = tt
