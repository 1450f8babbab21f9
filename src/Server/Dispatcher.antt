-- ===== src/Server/Dispatcher.antt =====
-- src/server/dispatcher.h: `Dispatcher`, which turns a request into a call of the engine. What the
-- engine throws passes through.
pub mod Invariant
pub mod Replies
use kvmemo.Base.{
  ℕ, Str, str, Str_eq, List, [], ◌∷◌, ◌++◌, Option, none, some, Bool, true, false, Outcome, returns,
  throws, Exn, ite, ◌==◌, if◌then◌else◌, length,
}
use kvmemo.Core.Engine
use kvmemo.Core.Engine.{Engine}
use kvmemo.Core.Lru.{pop_back}
use kvmemo.Eviction.Policy.{EvictionPolicy}
use kvmemo.Protocol.Decimal.{stoull}
use kvmemo.Protocol.Request.{Request}
use kvmemo.Protocol.Response.{Response, ok, error}

-- The readings of the clock during one call: by the entry, by the engine, and for each entry of
-- each shard that is listed.
pub record Times : Type 0 where
  pub entry_time : ℕ
  pub engine_time : ℕ
  pub list_time : ℕ → ℕ → ℕ

-- the response to what a call of the engine returns
abbrev pub answer :
    {P A : Type 0} → (A → Response) → Outcome A × Engine P → Outcome Response × Engine P
answer f (returns a, e) = (returns (f a), e)
answer f (throws x, e) = (throws x, e)

abbrev pub found : Option Str → Response
found none = error (str "Key not found")
found (some v) = ok v

-- `ttl_ms`, or the response that refuses it
pub data Ttl : Type 0 where
  refused : Response → Ttl
  accepted : ℕ → Ttl

abbrev pub checked_ttl : Outcome ℕ → Ttl
checked_ttl (throws x) = refused (error (str "SETEX ttl_ms must be a valid integer"))
checked_ttl (returns n) =
    if n == 0 then refused (error (str "SETEX ttl_ms must be a positive integer")) else accepted n

unfoldable pub read_ttl : Str → Ttl
read_ttl [] = checked_ttl (stoull [])
read_ttl (c ∷ s) =
    if c == b'-'
    then refused (error (str "SETEX ttl_ms must be a positive integer"))
    else checked_ttl (stoull (c ∷ s))

-- `key:value` on a line for each pair
unfoldable pub lines : List (Str × Str) → Str
lines [] = []
lines ((key, value) ∷ pairs) = key ++ b':' ∷ (value ++ b'\n' ∷ lines pairs)

module _ (hash : Str → ℕ) {P : Type 0} (policy : EvictionPolicy P) (t : Times) where
  unfoldable pub handle_set : List Str → Engine P → Outcome Response × Engine P
  handle_set [] e = (returns (error (str "SET requires key and value")), e)
  handle_set (key ∷ []) e = (returns (error (str "SET requires key and value")), e)
  handle_set (key ∷ value ∷ _) e =
      answer (λ _. ok []) (Engine.set hash policy t.entry_time t.engine_time key value none e)

  unfoldable pub handle_get : List Str → Engine P → Outcome Response × Engine P
  handle_get [] e = (returns (error (str "Get requires key")), e)
  handle_get (key ∷ _) e = answer found (Engine.get hash policy t.entry_time key e)

  unfoldable pub handle_delete : List Str → Engine P → Outcome Response × Engine P
  handle_delete [] e = (returns (error (str "DEL requires key")), e)
  handle_delete (key ∷ _) e = answer (λ _. ok []) (Engine.delete hash policy key e)

  abbrev pub set_ex : Str → Str → Ttl → Engine P → Outcome Response × Engine P
  set_ex key value (refused r) e = (returns r, e)
  set_ex key value (accepted n) e =
      answer (λ _. ok []) (Engine.set hash policy t.entry_time t.engine_time key value (some n) e)

  unfoldable pub handle_set_ex : List Str → Engine P → Outcome Response × Engine P
  unfolding read_ttl
  handle_set_ex [] e = (returns (error (str "SETEX requires key, ttl_ms and value")), e)
  handle_set_ex (key ∷ []) e = (returns (error (str "SETEX requires key, ttl_ms and value")), e)
  handle_set_ex (key ∷ ttl_str ∷ []) e =
      (returns (error (str "SETEX requires key, ttl_ms and value")), e)
  handle_set_ex (key ∷ ttl_str ∷ value ∷ _) e = set_ex key value (read_ttl ttl_str) e

  -- without the newline of the last line
  unfoldable pub handle_keys : List Str → Engine P → Outcome Response × Engine P
  unfolding lines
  handle_keys [] e = (returns (ok (pop_back (lines (Engine.get_all_keys t.list_time e)))), e)
  handle_keys (_ ∷ _) e = (returns (error (str "KEYS takes no arguments")), e)

  unfoldable pub handle_ping : List Str → Engine P → Outcome Response × Engine P
  handle_ping [] e = (returns (ok (Engine.ping e)), e)
  handle_ping (_ ∷ _) e = (returns (error (str "PING takes no arguments")), e)

  abbrev choose : {A : Type 0} → Str → Str → A → A → A
  choose cmd name a b = ite (Str_eq.dec cmd name) a b

  unfoldable pub dispatch : Request → Engine P → Outcome Response × Engine P
  unfolding handle_set handle_get handle_delete handle_set_ex handle_keys handle_ping
  dispatch r e = elim r.command [
    | [] ↦ (returns (error (str "Empty Command")), e)
    | c ∷ cs ↦
        let cmd = c ∷ cs in
        choose cmd (str "SET") (handle_set r.args e) (
          choose cmd (str "GET") (handle_get r.args e) (
            choose cmd (str "DEL") (handle_delete r.args e) (
              choose cmd (str "SETEX") (handle_set_ex r.args e) (
                choose cmd (str "KEYS") (handle_keys r.args e) (
                  choose cmd (str "PING") (handle_ping r.args e)
                    (returns (error (str "Unknown command")), e))))))
  ]
