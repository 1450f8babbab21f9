-- ===== src/Server/App/Cuts.antt =====
-- src/server/server_app.h: the answers do not depend on how the bytes of a session are cut.
use kvmemo.Base.{
  inl, inr, ℕ, suc, ◌<◌, ◌≤◌, Str, List, [], ◌∷◌, ◌++◌, ◌≡◌, refl, sym, ap, ◌∙◌, subst, some,
  Outcome, returns, throws, length, arith, length-append,
}
use mathlib.Core.List.{append_assoc}
use kvmemo.Core.Engine.{Engine}
use kvmemo.Eviction.Policy.{EvictionPolicy}
use kvmemo.Net.Connection.Pipe as Pipe
use kvmemo.Net.Sockets.{Sockets, SocketLaws}
use kvmemo.Protocol.Buffer.{append, readable}
use kvmemo.Protocol.Buffer.Queue.{readable-append}
use kvmemo.Protocol.Framing.Chunks.{frames, frames-append, length-frames}
use kvmemo.Server.Dispatcher.{Times}
use kvmemo.Server.App.{Session, serve, answer_frame}
use kvmemo.Server.App.Frames.{run_frames, after_answer}
use kvmemo.Server.App.Serving.{Unless, returned, Serves, session_output, serve-run_frames}

module _ (hash : Str → ℕ) {P : Type 0} (policy : EvictionPolicy P) where
  -- Two runs, one after the other.
  abbrev both :
      Outcome (Unit {0}) × Str × Engine P
      → (Engine P → Outcome (Unit {0}) × Str × Engine P)
      → Outcome (Unit {0}) × Str × Engine P
  both (throws x, out, e) rest = (throws x, out, e)
  both (returns _, out, e) rest = let (r, more, e') = rest e in (r, out ++ more, e')

  both_returns :
      (p : Outcome (Unit {0}) × Str × Engine P)
      (rest : Engine P → Outcome (Unit {0}) × Str × Engine P)
      → p.0 ≡ returns tt
      → both p rest ≡ ((rest p.2).0, p.1 ++ (rest p.2).1, (rest p.2).2)
  both_returns (throws x, out, e) rest h = absurd (cc h)
  both_returns (returns _, out, e) rest h = refl

  after_answer-both :
      (a : Outcome Str × Engine P)
      (full first rest : Engine P → Outcome (Unit {0}) × Str × Engine P)
      → ((e : Engine P) → full e ≡ both (first e) rest)
      → after_answer hash policy full a ≡ both (after_answer hash policy first a) rest
  after_answer-both (throws x, e) full first rest h = refl
  after_answer-both (returns wire, e) full first rest h =
      ap (λ (p : Outcome (Unit {0}) × Str × Engine P). (p.0, wire ++ p.1, p.2)) (h e) ∙ go (first e)
    where
      go :
          (p : Outcome (Unit {0}) × Str × Engine P)
          → ((both p rest).0, wire ++ (both p rest).1, (both p rest).2)
            ≡ both (p.0, wire ++ p.1, p.2) rest
      go (throws x, out, e') = refl
      go (returns _, out, e') =
          ap (λ l. ((rest e').0, l, (rest e').2)) (sym (append_assoc wire out (rest e').1))

  -- The readings of the clock for the commands behind those of the frames.
  unfoldable pub times_after : List Str → (ℕ → Times) → ℕ → Times
  times_after [] times = times
  times_after (f ∷ fs) times = times_after fs (λ k. times (suc k))

  run_frames-append :
      (times : ℕ → Times) (fs gs : List Str) (e : Engine P)
      → run_frames hash policy times (fs ++ gs) e
        ≡ both
            (run_frames hash policy times fs e)
            (run_frames hash policy (times_after fs times) gs)
  unfolding run_frames times_after
  run_frames-append times [] gs e = refl
  run_frames-append times (f ∷ fs) gs e =
      after_answer-both (answer_frame hash policy (times 0) f e) _ _ _
        (λ e'. run_frames-append (λ k. times (suc k)) fs gs e')

  -- The frames of both runs, if the first run answers all of its own.
  run_cut :
      (times : ℕ → Times) (fs gs : List Str) (e e1 : Engine P)
      → (run_frames hash policy times fs e).0 ≡ returns tt
      → e1 ≡ (run_frames hash policy times fs e).2
      → let (r, out, e2) = run_frames hash policy (times_after fs times) gs e1 in
        run_frames hash policy times (fs ++ gs) e
        ≡ (r, (run_frames hash policy times fs e).1 ++ out, e2)
  run_cut times fs gs e e1 done same =
      run_frames-append times fs gs e
      ∙ both_returns (run_frames hash policy times fs e)
          (run_frames hash policy (times_after fs times) gs) done
      ∙ ap
          (λ e'.
            let (r, out, e2) = run_frames hash policy (times_after fs times) gs e' in
            (r, (run_frames hash policy times fs e).1 ++ out, e2))
          (sym same)

-- The frames of all bytes are those of the first bytes, and those of the rest behind what these
-- have left.
frames_cut :
    (fuel : ℕ) (l xs ys m : Str)
    → length (l ++ (xs ++ ys)) ≤ fuel
    → m ≡ (frames fuel (l ++ xs)).1
    → frames fuel (l ++ (xs ++ ys))
      ≡ ((frames fuel (l ++ xs)).0 ++ (frames fuel (m ++ ys)).0, (frames fuel (m ++ ys)).1)
frames_cut fuel l xs ys m enough stays =
    ap (frames fuel) (sym (append_assoc l xs ys))
    ∙ frames-append fuel (l ++ xs) ys
        (subst (λ k. length k ≤ fuel) (sym (append_assoc l xs ys)) enough)
    ∙ ap (λ k. ((frames fuel (l ++ xs)).0 ++ (frames fuel (k ++ ys)).0, (frames fuel (k ++ ys)).1))
        (sym stays)

module _ (hash : Str → ℕ) {P W : Type 0} (policy : EvictionPolicy P) (sys : Sockets W)
    (laws : SocketLaws sys) where
  -- The session after some bytes have arrived.
  abbrev pub arrive : Str → Session P W → Session P W
  arrive bytes s = record s {
    connection = record s.connection { input_buffer = append bytes s.connection.input_buffer };
  }

  abbrev pub input : Session P W → Str
  input s = readable s.connection.input_buffer

  -- One run of the loop over the bytes that have arrived.
  arrive-Serves :
      (fuel : ℕ) (times : ℕ → Times) (bytes : Str) (s : Session P W)
      → Pipe.IsValid s.connection
      → length (input s ++ bytes) < fuel
      → Serves hash policy sys laws
          (arrive bytes s)
          (run_frames hash policy times (frames fuel (input s ++ bytes)).0 s.engine)
          (frames fuel (input s ++ bytes)).1
          (serve hash policy sys fuel times (arrive bytes s))
  arrive-Serves fuel times bytes s v enough =
      let added = readable-append bytes s.connection.input_buffer v.0 in
      subst
        (λ l.
          Serves hash policy sys laws (arrive bytes s)
            (run_frames hash policy times (frames fuel l).0 s.engine) (frames fuel l).1
            (serve hash policy sys fuel times (arrive bytes s)))
        added.0
        (serve-run_frames hash policy sys laws fuel times (arrive bytes s) (added.1, v.1)
          (subst (λ l. length l < fuel) (sym added.0) enough))

  -- If all frames of the bytes that come first to a valid connection are answered, the loop over
  -- these bytes and then over the rest ends as the loop over all bytes at once, with more fuel
  -- than bytes and the same readings of the clock: the outcome, the engine and the output are the
  -- same, and if it returns the bytes that stay are the same.
  pub serve_cut :
      (fuel : ℕ) (times : ℕ → Times) (xs ys : Str) (s : Session P W)
      → Pipe.IsValid s.connection
      → length (input s ++ (xs ++ ys)) < fuel
      → (run_frames hash policy times (frames fuel (input s ++ xs)).0 s.engine).0 ≡ returns tt
      → let later = times_after hash policy (frames fuel (input s ++ xs)).0 times in
        (s1 s2 s3 : Session P W) × (r : Outcome (Unit {0})) × (serve hash policy sys fuel times
            (arrive xs s)
          ≡ some (returns tt, s1))
        × (serve hash policy sys fuel later (arrive ys s1) ≡ some (r, s2))
        × (serve hash policy sys fuel times (arrive (xs ++ ys) s) ≡ some (r, s3))
        × (s2.engine ≡ s3.engine)
        × (session_output hash policy sys laws s2 ≡ session_output hash policy sys laws s3)
        × Unless r (input s2 ≡ input s3)
  serve_cut fuel times xs ys s v enough done =
      let l = input s in
      let fs = (frames fuel (l ++ xs)).0 in
      let left = (frames fuel (l ++ xs)).1 in
      let later = times_after hash policy fs times in
      let r1 = run_frames hash policy times fs s.engine in
      let (s1, e1, k1) = arrive-Serves fuel times xs s v (
        omega
          (arith, enough, length-append l (xs ++ ys), length-append xs ys, length-append l xs)) in
      let stays = returned r1.0 done k1.input_after in
      let (s2, e2, k2) = arrive-Serves fuel later ys s1 k1.valid (
        subst (λ m. length (m ++ ys) < fuel) (sym stays)
          (omega (
            arith,
            enough,
            length-append l (xs ++ ys),
            length-append xs ys,
            length-append l xs,
            length-append left ys,
            length-frames fuel (l ++ xs),
          ))) in
      let gs = (frames fuel (input s1 ++ ys)).0 in
      let (s3, e3, k3) = arrive-Serves fuel times (xs ++ ys) s v enough in
      let r2 = run_frames hash policy later (frames fuel (input s1 ++ ys)).0 s1.engine in
      let cut = frames_cut fuel l xs ys (input s1) (omega (arith, enough)) stays in
      let all =
        ap (λ (p : List Str × Str). run_frames hash policy times p.0 s.engine) cut
        ∙ run_cut hash policy times fs gs s.engine s1.engine done k1.engine_after in
      (
        s1,
        s2,
        s3,
        r2.0,
        e1 ∙ ap (λ r. some (r, s1)) done,
        e2,
        e3 ∙ ap (λ r. some (r, s3)) (ap (λ r. r.0) all),
        k2.engine_after ∙ sym (k3.engine_after ∙ ap (λ r. r.2) all),
        k2.output_after
            ∙ ap (λ o. o ++ r2.1) k1.output_after
            ∙ append_assoc (session_output hash policy sys laws s) r1.1 r2.1
            ∙ sym (
                k3.output_after
                ∙ ap
                    (λ (r : Outcome (Unit {0}) × Str × Engine P).
                      session_output hash policy sys laws s ++ r.1)
                    all),
        elim k2.input_after [
          | inl t ↦ inl t
          | inr a ↦ elim k3.input_after [
            | inl (x, t) ↦ inl (x, sym (ap (λ r. r.0) all) ∙ t)
            | inr b ↦ inr (a ∙ sym (b ∙ ap (λ r. r.1) cut))
          ]
        ],
      )
