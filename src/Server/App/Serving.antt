-- ===== src/Server/App/Serving.antt =====
-- src/server/server_app.h: the loop over the frames ends, and answers the frames of the input.
use kvmemo.Base.{
  Exn, ◌⊎◌, ℕ, zero, suc, ◌<◌, Str, ◌++◌, ◌≡◌, refl, sym, ap, ◌∙◌, subst, Option, some, Outcome,
  returns, throws, length, arith, Option-cases, inl, inr,
}
use mathlib.Core.List.{append_assoc, append-nil}
use kvmemo.Core.Engine.{Engine}
use kvmemo.Eviction.Policy.{EvictionPolicy}
use kvmemo.Net.Connection.{Connection, write_to_socket}
use kvmemo.Net.Connection.Pipe as Pipe
use kvmemo.Net.Connection.Pipe.{output, output-write_to_socket}
use kvmemo.Net.Sockets.{Sockets, SocketLaws}
use kvmemo.Protocol.Buffer.{append, readable}
use kvmemo.Protocol.Buffer.Queue as Queue
use kvmemo.Protocol.Buffer.Queue.{readable-append}
use kvmemo.Protocol.Framing.Split.{split, next_frame-none, next_frame-some}
use kvmemo.Protocol.Framing.Chunks.{frames, frames-none, frames-some, length-split}
use kvmemo.Server.Dispatcher.{Times}
use kvmemo.Server.App.{Session, answer_frame, serve, answered, flushed}
use kvmemo.Server.App.Frames.{run_frames, after_answer}

-- An exception, or what holds after a return.
abbrev pub Unless : Outcome (Unit {0}) → Type 0 → Type 0
Unless r q = ((x : Exn) × (r ≡ throws x)) ⊎ q

pub returned : {q : Type 0} (r : Outcome (Unit {0})) → r ≡ returns tt → Unless r q → q
returned r h (inl (x, t)) = absurd (cc (h, t))
returned r h (inr a) = a

module _ (hash : Str → ℕ) {P W : Type 0} (policy : EvictionPolicy P) (sys : Sockets W)
    (laws : SocketLaws sys) where
  -- What was sent over the connection of a session, and what is still to be sent.
  abbrev pub session_output : Session P W → Str
  session_output s = output sys laws s.connection s.world

  -- How the loop leaves a session, from what the frames do to the engine.
  pub record Served (s : Session P W) (r : Outcome (Unit {0})) (out : Str) (e : Engine P)
      (rest : Str) (s' : Session P W) : Type 0 where
    pub engine_after : s'.engine ≡ e
    pub output_after : session_output s' ≡ session_output s ++ out
    pub valid : Pipe.IsValid s'.connection
    pub same_fd : s'.connection.fd ≡ s.connection.fd
    -- the bytes behind the last frame stay
    pub input_after : Unless r (readable s'.connection.input_buffer ≡ rest)

  -- The loop ends with the outcome of the frames.
  abbrev pub Serves :
      Session P W
      → Outcome (Unit {0}) × Str × Engine P
      → Str
      → Option (Outcome (Unit {0}) × Session P W)
      → Type 0
  Serves s (r, out, e) rest o = (s' : Session P W) × (o ≡ some (r, s')) × Served s r out e rest s'

  Served-trans :
      {s s' s'' : Session P W} {r r' : Outcome (Unit {0})} {out more left left' : Str}
      {e e' : Engine P}
      → Served s r out e left s'
      → Served s' r' more e' left' s''
      → Served s r' (out ++ more) e' left' s''
  Served-trans {s} {s'} {s''} {r} {r'} {out} {more} a b = record {
    engine_after = b.engine_after;
    output_after =
        b.output_after
        ∙ ap (λ l. l ++ more) a.output_after
        ∙ append_assoc (session_output s) out more;
    valid = b.valid;
    same_fd = b.same_fd ∙ a.same_fd;
    input_after = b.input_after;
  }

  -- One response is appended and flushed, and the rest of the loop follows.
  answered-Serves :
      (s : Session P W) (c : Connection) (a : Outcome Str × Engine P)
      (rest : Session P W → Option (Outcome (Unit {0}) × Session P W))
      (spec : Engine P → Outcome (Unit {0}) × Str × Engine P) (left : Str)
      → Pipe.IsValid c
      → c.fd ≡ s.connection.fd
      → c.output_buffer ≡ s.connection.output_buffer
      → ((s' : Session P W)
          → Pipe.IsValid s'.connection
          → s'.connection.input_buffer ≡ c.input_buffer
          → Serves s' (spec s'.engine) left (rest s'))
      → Serves s (after_answer hash policy spec a) left (answered hash policy sys rest c s.world a)
  answered-Serves s c (throws x, e) rest spec left v f o h = (
    _,
    refl,
    record {
      engine_after = refl;
      output_after = rw (f, o) (sym (append-nil (session_output s)));
      valid = v;
      same_fd = f;
      input_after = inl (x, refl);
    },
  )
  answered-Serves s c (returns wire, e) rest spec left v f o h =
      go (write_to_socket sys c' s.world) refl
        (output-write_to_socket sys laws c' s.world (v.0, added.1))
    where
      c' : Connection
      c' = record c { output_buffer = append wire c.output_buffer }

      added :
          (readable (append wire c.output_buffer) ≡ readable c.output_buffer ++ wire)
          × Queue.IsValid (append wire c.output_buffer)
      added = readable-append wire c.output_buffer v.1

      go :
          (p : Outcome (Unit {0}) × Connection × W)
          → write_to_socket sys c' s.world ≡ p
          → (p.0 ≡ returns tt)
            × Pipe.IsValid p.1
            × (p.1.fd ≡ c'.fd)
            × (p.1.input_buffer ≡ c'.input_buffer)
            × (output sys laws p.1 p.2 ≡ output sys laws c' s.world)
          → Serves s
              (after_answer hash policy spec (returns wire, e))
              left
              (flushed hash policy sys rest e p)
      go (throws x, c'', w) q g = absurd (cc g.0)
      go (returns _, c'', w) q g =
          let s' : Session P W = record { connection = c''; engine = e; world = w } in
          let (s'', h', served) = h s' g.1 g.3 in
          (
            s'',
            h',
            Served-trans {s' = s'} {r = returns tt}
                (record {
                  engine_after = refl;
                  output_after =
                      g.4
                      ∙ ap (λ l. laws.sent c.fd s.world ++ l) added.0
                      ∙ sym (append_assoc (laws.sent c.fd s.world) (readable c.output_buffer) wire)
                      ∙ rw (f, o) refl;
                  valid = g.1;
                  same_fd = g.2 ∙ f;
                  input_after = inr refl;
                })
                served,
          )

  -- With more fuel than bytes the loop over the frames of a valid connection ends. It answers the
  -- frames of the input in their order: the engine and the outcome are those of the frames, what
  -- was sent and is to be sent grows by exactly the bytes of the responses, and if it returns the
  -- bytes behind the last frame stay in the input.
  pub serve-run_frames :
      (fuel : ℕ) (times : ℕ → Times) (s : Session P W)
      → Pipe.IsValid s.connection
      → length (readable s.connection.input_buffer) < fuel
      → Serves s
          (run_frames hash policy times
            (frames fuel (readable s.connection.input_buffer)).0
            s.engine)
          (frames fuel (readable s.connection.input_buffer)).1
          (serve hash policy sys fuel times s)
  unfolding serve run_frames
  serve-run_frames zero times s v h = absurd (omega arith)
  serve-run_frames (suc fuel) times s v h =
      elim (Option-cases (split (readable s.connection.input_buffer))) [
        | inl e ↦
            rw
              (
                frames-none (suc fuel) (readable s.connection.input_buffer) e,
                next_frame-none s.connection.input_buffer e,
              )
              (
                s,
                refl,
                record {
                  engine_after = refl;
                  output_after = sym (append-nil (session_output s));
                  valid = v;
                  same_fd = refl;
                  input_after = inr refl;
                },
              )
        | inr ((f, r), e) ↦
            let (b, next, left, vb) = next_frame-some s.connection.input_buffer f r v.0 e in
            rw (frames-some fuel (readable s.connection.input_buffer) f r e, next, ← left)
              (answered-Serves s (record s.connection { input_buffer = b })
                (answer_frame hash policy (times 0) f s.engine) _ _ _ (vb, v.1) refl refl
                (λ s' v' same.
                  subst
                    (λ i.
                      Serves s'
                        (run_frames hash policy (λ k. times (suc k)) (frames fuel (readable i)).0
                          s'.engine)
                        (frames fuel (readable i)).1
                        (serve hash policy sys fuel (λ k. times (suc k)) s'))
                    same
                    (serve-run_frames fuel (λ k. times (suc k)) s' v'
                      (omega (
                        arith,
                        h,
                        length-split (readable s.connection.input_buffer) f r e,
                        ap (λ i. length (readable i)) same,
                        ap (λ l. length l) left,
                      )))))
      ]
