-- ===== src/Server/Dispatcher/Invariant.antt =====
-- src/server/dispatcher.h: no request makes the dispatcher throw or breaks the engine.
use kvmemo.Base.{
  ℕ, Str, str, Str_eq, List, [], ◌∷◌, ◌≡◌, refl, Outcome, returns, throws, ite, arith,
}
use kvmemo.Core.Engine.{Engine}
use kvmemo.Core.Engine.Replies
use kvmemo.Eviction.Policy.{EvictionPolicy}
use kvmemo.Protocol.Request.{Request}
use kvmemo.Protocol.Response.{Response, ok}
use kvmemo.Server.Dispatcher.{
  Times, Ttl, refused, accepted, answer, found, read_ttl, handle_set, handle_get, handle_delete,
  handle_set_ex, handle_keys, handle_ping, set_ex, dispatch,
}

module _ (hash : Str → ℕ) {P : Type 0} where
  -- There is a response, and the engine is valid.
  abbrev pub Answers : Outcome Response × Engine P → Type 0
  Answers p = (r : Response) × (p.0 ≡ returns r) × Replies.IsValid hash p.1

  pub answer-returns :
      {A : Type 0} (f : A → Response) (a : A) (p : Outcome A × Engine P)
      → p.0 ≡ returns a
      → answer f p ≡ (returns (f a), p.1)
  answer-returns f a (throws x, e) h = absurd (cc h)
  answer-returns f a (returns b, e) h = cc h

  answer-Answers :
      {A : Type 0} (f : A → Response) (a : A) (p : Outcome A × Engine P)
      → p.0 ≡ returns a
      → Replies.IsValid hash p.1
      → Answers (answer f p)
  answer-Answers f a p h v = rw (answer-returns f a p h) (f a, refl, v)

  ite-Answers :
      {Q : Type 0} (d : Dec Q) (p q : Outcome Response × Engine P)
      → Answers p
      → Answers q
      → Answers (ite d p q)
  ite-Answers (yes _) p q a b = a
  ite-Answers (no _) p q a b = b

  module _ (policy : EvictionPolicy P) (t : Times) (e : Engine P) (v : Replies.IsValid hash e) where
    refusal : (r : Response) → Answers (returns r, e)
    refusal r = (r, refl, v)

    handle_set-Answers : (args : List Str) → Answers (handle_set hash policy t args e)
    unfolding handle_set
    handle_set-Answers [] = refusal _
    handle_set-Answers (k ∷ []) = refusal _
    handle_set-Answers (k ∷ x ∷ _) =
        let r = Replies.set-reply hash policy t.entry_time t.engine_time 0 k x k e v in
        answer-Answers (λ _. ok []) tt _ r.0 r.1

    handle_get-Answers : (args : List Str) → Answers (handle_get hash policy t args e)
    unfolding handle_get
    handle_get-Answers [] = refusal _
    handle_get-Answers (k ∷ _) =
        let r = Replies.get-reply hash policy t.entry_time t.entry_time k k e v (omega arith) in
        answer-Answers found _ _ r.0 r.1

    handle_delete-Answers : (args : List Str) → Answers (handle_delete hash policy t args e)
    unfolding handle_delete
    handle_delete-Answers [] = refusal _
    handle_delete-Answers (k ∷ _) =
        let r = Replies.delete-reply hash policy 0 k k e v in
        answer-Answers (λ _. ok []) tt _ r.0 r.1

    set_ex-Answers : (k x : Str) (ttl : Ttl) → Answers (set_ex hash policy t k x ttl e)
    set_ex-Answers k x (refused r) = refusal r
    set_ex-Answers k x (accepted n) =
        let r = Replies.set_with_ttl-IsValid hash policy t.entry_time t.engine_time n k x e v in
        answer-Answers (λ _. ok []) tt _ r.0 r.1

    handle_set_ex-Answers : (args : List Str) → Answers (handle_set_ex hash policy t args e)
    unfolding handle_set_ex
    handle_set_ex-Answers [] = refusal _
    handle_set_ex-Answers (k ∷ []) = refusal _
    handle_set_ex-Answers (k ∷ s ∷ []) = refusal _
    handle_set_ex-Answers (k ∷ s ∷ x ∷ _) = set_ex-Answers k x (read_ttl s)

    handle_keys-Answers : (args : List Str) → Answers (handle_keys hash policy t args e)
    unfolding handle_keys
    handle_keys-Answers [] = refusal _
    handle_keys-Answers (_ ∷ _) = refusal _

    handle_ping-Answers : (args : List Str) → Answers (handle_ping hash policy t args e)
    unfolding handle_ping
    handle_ping-Answers [] = refusal _
    handle_ping-Answers (_ ∷ _) = refusal _

    choose-Answers :
        (cmd name : Str) (p q : Outcome Response × Engine P)
        → Answers p
        → Answers q
        → Answers (ite (Str_eq.dec cmd name) p q)
    choose-Answers cmd name p q a b = ite-Answers (Str_eq.dec cmd name) p q a b

    -- On a valid engine each request, whatever its command and arguments are, gets a response and
    -- no exception, and leaves the engine valid.
    pub dispatch-Answers : (r : Request) → Answers (dispatch hash policy t r e)
    unfolding dispatch
    dispatch-Answers r = go r.command r.args
      where
        go :
            (cmd : Str) (args : List Str)
            → Answers (dispatch hash policy t (record { command = cmd; args = args }) e)
        go [] args = refusal _
        go (c ∷ cs) args = choose-Answers (c ∷ cs) (str "SET") _ _ (handle_set-Answers args) (
            choose-Answers (c ∷ cs) (str "GET") _ _ (handle_get-Answers args) (
              choose-Answers (c ∷ cs) (str "DEL") _ _ (handle_delete-Answers args) (
                choose-Answers (c ∷ cs) (str "SETEX") _ _ (handle_set_ex-Answers args) (
                  choose-Answers (c ∷ cs) (str "KEYS") _ _ (handle_keys-Answers args) (
                    choose-Answers (c ∷ cs) (str "PING") _ _ (handle_ping-Answers args)
                      (refusal _))))))
