-- ===== src/Server/Dispatcher/Replies.antt =====
-- src/server/dispatcher.h: what a client reads after it has written.
use kvmemo.Base.{
  ℕ, ◌+◌, ◌<◌, Str, str, Str_eq, Str-discrete, List, [], ◌∷◌, ◌≡◌, refl, ap, ◌∙◌, none, some,
  returns, arith, u64_mod, leb, if◌then◌else◌, if_pos,
}
use kvmemo.Core.Engine
use kvmemo.Core.Engine.{Engine}
use kvmemo.Core.Engine.Replies
use kvmemo.Core.Engine.Replies.{reply}
use kvmemo.Eviction.Policy.{EvictionPolicy}
use kvmemo.Protocol.Decimal as Decimal
use kvmemo.Protocol.Decimal.{stoull-print, print-digit, is_digit}
use kvmemo.Protocol.Request.{Request}
use kvmemo.Protocol.Response.{ok, error}
use kvmemo.Server.Dispatcher.{
  Times, accepted, found, read_ttl, handle_set, handle_get, handle_delete, handle_set_ex, dispatch,
}
use kvmemo.Server.Dispatcher.Invariant.{answer-returns}

-- `SETEX` accepts each checked_ttl number below 2 ^ 64 that is written in decimal.
pub read_ttl-print : (n : ℕ) → 0 < n → n < u64_mod → read_ttl (Decimal.print n) ≡ accepted n
unfolding read_ttl
read_ttl-print n p h =
    let (c, l, e, d) = print-digit (n + 1) n [] (omega arith) in
    ground (arith, e, d, p, stoull-print n h)

abbrev pub request : Str → List Str → Request
request c args = record { command = c; args = args }

module _ (hash : Str → ℕ) {P : Type 0} (policy : EvictionPolicy P) where
  -- `GET` answers with the reply of the engine.
  pub dispatch-get :
      (t : Times) (k : Str) (e : Engine P)
      → Replies.IsValid hash e
      → (dispatch hash policy t (request (str "GET") (k ∷ [])) e).0
        ≡ returns (found (reply hash t.entry_time k e))
  unfolding dispatch handle_get Str-discrete
  dispatch-get t k e v =
      let r = Replies.get-reply hash policy t.entry_time t.entry_time k k e v (omega arith) in
      ap (λ p. p.0) (answer-returns hash found (reply hash t.entry_time k e) _ r.0)

  -- On a valid engine `SET` answers OK, and a `GET` of the key right after it answers with the
  -- value, at any time.
  pub get-set_dispatch :
      (t t' : Times) (k v : Str) (e : Engine P)
      → Replies.IsValid hash e
      → let (r, e') = dispatch hash policy t (request (str "SET") (k ∷ v ∷ [])) e in
        (r ≡ returns (ok []))
        × ((dispatch hash policy t' (request (str "GET") (k ∷ [])) e').0 ≡ returns (ok v))
  unfolding dispatch handle_set Str-discrete
  get-set_dispatch t t' k v e valid =
      let r =
        Replies.set-reply hash policy t.entry_time t.engine_time t'.entry_time k v k e valid in
      rw
        (answer-returns hash (λ _. ok []) tt
          (Engine.set hash policy t.entry_time t.engine_time k v none e) r.0)
        (
          refl,
          dispatch-get t' k _ r.1
              ∙ ap (λ o. returns (found o)) (r.2 ∙ if_pos (Str_eq.dec k k) refl _ _),
        )

  -- On a valid engine `SETEX` with a positive TTL in decimal, whose end is below 2 ^ 64, answers
  -- OK, and a `GET` right after it answers with the value before creation time plus TTL, and from
  -- then on with the error that the key is not found.
  pub get-set_ex_dispatch :
      (t t' : Times) (k v : Str) (n : ℕ) (e : Engine P)
      → Replies.IsValid hash e
      → 0 < n
      → t.entry_time + n < u64_mod
      → let (r, e') =
          dispatch hash policy t (request (str "SETEX") (k ∷ Decimal.print n ∷ v ∷ [])) e in
        (r ≡ returns (ok []))
        × ((dispatch hash policy t' (request (str "GET") (k ∷ [])) e').0
            ≡ returns (found (if leb (t.entry_time + n) t'.entry_time then none else some v)))
  unfolding dispatch handle_set_ex Str-discrete
  get-set_ex_dispatch t t' k v n e valid p h =
      let r =
        Replies.set_with_ttl-reply hash policy t.entry_time t.engine_time t'.entry_time n k v k e
          valid p h in
      rw
        (
          read_ttl-print n p (omega arith),
          answer-returns hash (λ _. ok []) tt
              (Engine.set hash policy t.entry_time t.engine_time k v (some n) e) r.0,
        )
        (
          refl,
          dispatch-get t' k _ r.1
              ∙ ap (λ o. returns (found o)) (r.2 ∙ if_pos (Str_eq.dec k k) refl _ _),
        )

  -- On a valid engine `DEL` answers OK, and a `GET` of the key right after it answers that the key
  -- is not found.
  pub get-delete_dispatch :
      (t t' : Times) (k : Str) (e : Engine P)
      → Replies.IsValid hash e
      → let (r, e') = dispatch hash policy t (request (str "DEL") (k ∷ [])) e in
        (r ≡ returns (ok []))
        × ((dispatch hash policy t' (request (str "GET") (k ∷ [])) e').0
            ≡ returns (error (str "Key not found")))
  unfolding dispatch handle_delete Str-discrete
  get-delete_dispatch t t' k e valid =
      let r = Replies.delete-reply hash policy t'.entry_time k k e valid in
      rw (answer-returns hash (λ _. ok []) tt (Engine.delete hash policy k e) r.0) (
        refl,
        dispatch-get t' k _ r.1
            ∙ ap (λ o. returns (found o)) (r.2 ∙ if_pos (Str_eq.dec k k) refl _ _),
      )
