-- ===== src/Server/App/Settled.antt =====
-- src/server/server_app.h: what one call does for its client, whatever `read` gives.
use kvmemo.Base.{
  ℕ, Str, [], ◌∷◌, ◌++◌, ◌≡◌, refl, sym, ap, ◌∙◌, Option, none, some, Outcome, returns, throws,
  arith, lookup, ℕ_eq, length-append,
}
use kvmemo.Base.Assoc
use kvmemo.Core.Engine.{Engine}
use kvmemo.Eviction.Policy.{EvictionPolicy}
use kvmemo.Net.Connection.{Connection, read_from_socket}
use kvmemo.Net.Connection.Pipe as Pipe
use kvmemo.Net.Connection.Pipe.{output}
use kvmemo.Net.Sockets.{Sockets, SocketLaws}
use kvmemo.Protocol.Buffer.{Buffer, readable}
use kvmemo.Protocol.Framing.Chunks.{frames}
use kvmemo.Server.Dispatcher.{Times}
use kvmemo.Server.App.{App, Session, finished, drop_connection, connection_safe_process}
use kvmemo.Server.App.Calls.{after_read, safe_process_read, served}
use kvmemo.Server.App.Frames.{run_frames}
use kvmemo.Server.App.Isolation.{handled-failed, with_session, drop_connection-gone}
use kvmemo.Server.App.Rounds.{handled-closed, HasFuel}
use kvmemo.Server.App.Serving.{Served, returned, session_output}

module _ (hash : Str → ℕ) {P W : Type 0} (policy : EvictionPolicy P) (sys : Sockets W)
    (laws : SocketLaws sys) where
  open laws use {sent}

  abbrev pub Gone : ℕ → App P → Type 0
  Gone fd a = lookup fd a.server.connections ≡ none

  -- The connection is kept, with its descriptor and the bytes behind the last frame, and what was
  -- sent and is to be sent has grown by the bytes `out`.
  abbrev pub Answered : ℕ → Connection → W → Str → Str → App P → W → Type 0
  Answered fd c w out left a' w' =
      (c' : Connection) × (lookup fd a'.server.connections ≡ some c')
      × (c'.fd ≡ c.fd)
      × (output sys laws c' w' ≡ output sys laws c w ++ out)
      × (readable c'.input_buffer ≡ left)

  -- After the frames: the client is answered, or one of its commands threw and it is gone.
  abbrev pub Outcomes :
      ℕ → Connection → W → Outcome (Unit {0}) × Str × Engine P → Str → App P → W → Type 0
  Outcomes fd c w (throws x, out, e) left a' w' = Gone fd a'
  Outcomes fd c w (returns u, out, e) left a' w' = Answered fd c w out left a' w'

  -- By what `read` gives: an error, the end of the stream, or bytes, of which each frame is
  -- executed on the engine `e`.
  abbrev pub Settled :
      ℕ → (ℕ → Times) → ℕ → Connection → W → Engine P → Option Str → App P → W → Type 0
  Settled fuel times fd c w e none a' w' = Gone fd a'
  Settled fuel times fd c w e (some []) a' w' = Gone fd a'
  Settled fuel times fd c w e (some (b ∷ bytes)) a' w' =
      let (fs, left) = frames fuel (readable c.input_buffer ++ b ∷ bytes) in
      Outcomes fd c w (run_frames hash policy times fs e) left a' w'

  -- It depends on the later state only by the connection and what was sent to it.
  Outcomes-later :
      (fd : ℕ) (c : Connection) (w : W) (spec : Outcome (Unit {0}) × Str × Engine P) (left : Str)
      (a1 a2 : App P) (w1 w2 : W)
      → lookup fd a2.server.connections ≡ lookup fd a1.server.connections
      → sent c.fd w2 ≡ sent c.fd w1
      → Outcomes fd c w spec left a1 w1
      → Outcomes fd c w spec left a2 w2
  Outcomes-later fd c w (throws x, out, e) left a1 a2 w1 w2 same s h = same ∙ h
  Outcomes-later fd c w (returns u, out, e) left a1 a2 w1 w2 same s (c', k, f, o, i) = (
    c',
    same ∙ k,
    f,
    ap (λ d. sent d w2 ++ readable c'.output_buffer) f
        ∙ ap (λ l. l ++ readable c'.output_buffer) s
        ∙ ap (λ d. sent d w1 ++ readable c'.output_buffer) (sym f)
        ∙ o,
    i,
  )

  pub Settled-later :
      (fuel : ℕ) (times : ℕ → Times) (fd : ℕ) (c : Connection) (w : W) (e : Engine P)
      (o : Option Str) (a1 a2 : App P) (w1 w2 : W)
      → lookup fd a2.server.connections ≡ lookup fd a1.server.connections
      → sent c.fd w2 ≡ sent c.fd w1
      → Settled fuel times fd c w e o a1 w1
      → Settled fuel times fd c w e o a2 w2
  Settled-later fuel times fd c w e none a1 a2 w1 w2 same s h = same ∙ h
  Settled-later fuel times fd c w e (some []) a1 a2 w1 w2 same s h = same ∙ h
  Settled-later fuel times fd c w e (some (b ∷ bytes)) a1 a2 w1 w2 same s h =
      Outcomes-later fd c w _ _ a1 a2 w1 w2 same s h

  module _ (overread : Buffer → Outcome (Unit {0}) × Buffer) (fuel : ℕ) (times : ℕ → Times) (fd : ℕ)
      (a : App P) (w : W) (c : Connection) (found : lookup fd a.server.connections ≡ some c)
      (v : Pipe.IsValid c) (enough : HasFuel hash fuel fd a) where
    abbrev pub Settles : Option Str → Type 0
    Settles o =
        (a' : App P) × (w' : W) × (connection_safe_process hash policy sys overread fuel times fd a
            w
          ≡ some (a', w'))
        × Settled fuel times fd c w a.engine o a' w'

    -- after the loop over the frames
    finished_outcome :
        (spec : Outcome (Unit {0}) × Str × Engine P) (left : Str) (s s' : Session P W)
        → session_output hash policy sys laws s ≡ output sys laws c w
        → s.connection.fd ≡ c.fd
        → Served hash policy sys laws s spec.0 spec.1 spec.2 left s'
        → (a' : App P) × (w' : W) × (finished hash policy sys fd a (some (spec.0, s'))
            ≡ some (a', w'))
          × Outcomes fd c w spec left a' w'
    finished_outcome (throws x, out, e) left s s' o f k =
        let a1 = with_session hash policy sys fd a s' in
        (_, _, refl, drop_connection-gone hash policy sys fd a1 s'.world)
    finished_outcome (returns u, out, e) left s s' o f k = (
      with_session hash policy sys fd a s',
      s'.world,
      refl,
      (
        s'.connection,
        ground (arith, Assoc.lookup-insert fd fd s'.connection a.server.connections),
        k.same_fd ∙ f,
        k.output_after ∙ ap (λ l. l ++ out) o,
        returned _ refl k.input_after,
      ),
    )

    dropped :
        (w1 : W)
        → connection_safe_process hash policy sys overread fuel times fd a w
          ≡ some (drop_connection hash policy sys fd a w1)
        → (a' : App P) × (w' : W) × (connection_safe_process hash policy sys overread fuel times fd
              a w
            ≡ some (a', w'))
          × Gone fd a'
    dropped w1 e = (
      (drop_connection hash policy sys fd a w1).0,
      (drop_connection hash policy sys fd a w1).1,
      e,
      drop_connection-gone hash policy sys fd a w1,
    )

    settles : (o : Option Str) → (sys.read c.fd 4096 w).0 ≡ o → Settles o
    unfolding connection_safe_process read_from_socket
    settles none r = dropped (sys.read c.fd 4096 w).1 (
        rw (found, connection_safe_process)
          (handled-failed hash policy sys overread fuel times fd a c w (sys.read c.fd 4096 w) r))
    settles (some []) r = dropped (sys.read c.fd 4096 w).1 (
        rw (found, connection_safe_process)
          (handled-closed hash policy sys overread laws fuel times fd a c (sys.read c.fd 4096 w) r))
    settles (some (b ∷ bytes)) r =
        let (s', serves, k) =
          served hash policy sys overread laws fuel times fd a w c b bytes found v r (
            omega (
              arith,
              enough c found,
              laws.length-read c.fd 4096 w (b ∷ bytes) r,
              length-append (readable c.input_buffer) (b ∷ bytes),
            )) in
        let s =
          after_read hash policy sys overread laws c (b ∷ bytes) a.engine
            (sys.read c.fd 4096 w).1 in
        let (a', w', p, done) =
          finished_outcome _ _ s s'
            (ap (λ l. l ++ readable c.output_buffer) (laws.sent-read c.fd 4096 w)) refl k in
        (
          a',
          w',
          safe_process_read hash policy sys overread laws fuel times fd a w c b bytes found r
              ∙ ap (finished hash policy sys fd a) serves
              ∙ p,
          done,
        )

    -- One call settles its client.
    pub connection_safe_process-Settled : Settles (sys.read c.fd 4096 w).0
    connection_safe_process-Settled = settles (sys.read c.fd 4096 w).0 refl
