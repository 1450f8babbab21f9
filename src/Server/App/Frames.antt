-- ===== src/Server/App/Frames.antt =====
-- src/server/server_app.h: what a list of frames does to the engine, and the bytes that answer it.
use kvmemo.Base.{ℕ, suc, Str, List, [], ◌∷◌, ◌++◌, ◌≡◌, refl, Outcome, returns, throws}
use kvmemo.Core.Engine.{Engine}
use kvmemo.Core.Engine.Replies as EngineReplies
use kvmemo.Eviction.Policy.{EvictionPolicy}
use kvmemo.Protocol.Parser.{parse}
use kvmemo.Protocol.Request.{Request}
use kvmemo.Protocol.Response.{Response}
use kvmemo.Server.Dispatcher.{Times, dispatch}
use kvmemo.Server.Dispatcher.Invariant.{Answers, dispatch-Answers}
use kvmemo.Server.App.{answer_frame, execute, serialized}

module _ (hash : Str → ℕ) {P : Type 0} (policy : EvictionPolicy P) where
  -- The first frame that gives an exception ends the run.
  abbrev pub after_answer :
      (Engine P → Outcome (Unit {0}) × Str × Engine P)
      → Outcome Str × Engine P
      → Outcome (Unit {0}) × Str × Engine P
  after_answer rest (throws x, e) = (throws x, [], e)
  after_answer rest (returns wire, e) = let (r, out, e') = rest e in (r, wire ++ out, e')

  unfoldable pub run_frames :
      (ℕ → Times) → List Str → Engine P → Outcome (Unit {0}) × Str × Engine P
  run_frames times [] e = (returns tt, [], e)
  run_frames times (f ∷ frames) e =
      after_answer (run_frames (λ k. times (suc k)) frames) (answer_frame hash policy (times 0) f e)

  -- The request of a frame that has a word.
  abbrev pub HasRequest : Str → Type 0
  HasRequest f = (r : Request) × (parse f ≡ returns r)

  abbrev pub AllRequests : List Str → Type 0
  AllRequests [] = Unit
  AllRequests (f ∷ frames) = HasRequest f × AllRequests frames

  pub answer_frame-returns :
      (t : Times) (f : Str) (e : Engine P)
      → EngineReplies.IsValid hash e
      → HasRequest f
      → (wire : Str) × ((answer_frame hash policy t f e).0 ≡ returns wire)
        × EngineReplies.IsValid hash (answer_frame hash policy t f e).1
  unfolding answer_frame
  answer_frame-returns t f e v (q, h) =
      rw h (go (dispatch hash policy t q e) (dispatch-Answers hash policy t e v q))
    where
      go :
          (p : Outcome Response × Engine P)
          → Answers hash p
          → (wire : Str) × ((serialized p).0 ≡ returns wire)
            × EngineReplies.IsValid hash (serialized p).1
      go (throws x, e') (r, g, v') = absurd (cc g)
      go (returns r', e') (r, g, v') = (_, refl, v')

  after_answer-returns :
      (rest : Engine P → Outcome (Unit {0}) × Str × Engine P) (p : Outcome Str × Engine P)
      (wire : Str)
      → p.0 ≡ returns wire
      → after_answer rest p ≡ ((rest p.1).0, wire ++ (rest p.1).1, (rest p.1).2)
  after_answer-returns rest (throws x, e) wire h = absurd (cc h)
  after_answer-returns rest (returns w, e) wire h = cc h

  -- Frames that all have a word are answered, each one, and leave the engine valid.
  pub run_frames-returns :
      (times : ℕ → Times) (frames : List Str) (e : Engine P)
      → EngineReplies.IsValid hash e
      → AllRequests frames
      → ((run_frames times frames e).0 ≡ returns tt)
        × EngineReplies.IsValid hash (run_frames times frames e).2
  unfolding run_frames
  run_frames-returns times [] e v a = (refl, v)
  run_frames-returns times (f ∷ frames) e v a =
      let (wire, h, v') = answer_frame-returns (times 0) f e v a.0 in
      rw
        (after_answer-returns (run_frames (λ k. times (suc k)) frames)
          (answer_frame hash policy (times 0) f e) wire h)
        (run_frames-returns (λ k. times (suc k)) frames _ v' a.1)

  serialized-IsValid :
      (p : Outcome Response × Engine P)
      → EngineReplies.IsValid hash p.1
      → EngineReplies.IsValid hash (serialized p).1
  serialized-IsValid (throws x, e) v = v
  serialized-IsValid (returns r, e) v = v

  answer_frame-IsValid :
      (t : Times) (f : Str) (e : Engine P)
      → EngineReplies.IsValid hash e
      → EngineReplies.IsValid hash (answer_frame hash policy t f e).1
  unfolding answer_frame
  answer_frame-IsValid t f e v = go (parse f)
    where
      go : (o : Outcome Request) → EngineReplies.IsValid hash (execute hash policy t o e).1
      go (throws x) = v
      go (returns r) =
          serialized-IsValid (dispatch hash policy t r e) (dispatch-Answers hash policy t e v r).2

  -- Any frames leave the engine valid.
  pub run_frames-IsValid :
      (times : ℕ → Times) (frames : List Str) (e : Engine P)
      → EngineReplies.IsValid hash e
      → EngineReplies.IsValid hash (run_frames times frames e).2
  unfolding run_frames
  run_frames-IsValid times [] e v = v
  run_frames-IsValid times (f ∷ frames) e v =
      go (answer_frame hash policy (times 0) f e) (answer_frame-IsValid (times 0) f e v)
        (λ e' v'. run_frames-IsValid (λ k. times (suc k)) frames e' v')
    where
      go :
          (p : Outcome Str × Engine P)
          → EngineReplies.IsValid hash p.1
          → ((e' : Engine P)
              → EngineReplies.IsValid hash e'
              → EngineReplies.IsValid hash (run_frames (λ k. times (suc k)) frames e').2)
          → EngineReplies.IsValid hash (after_answer (run_frames (λ k. times (suc k)) frames) p).2
      go (throws x, e') w h = w
      go (returns wire, e') w h = h e' w
