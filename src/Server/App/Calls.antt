-- ===== src/Server/App/Calls.antt =====
-- src/server/server_app.h: what a client gets for the bytes that it has sent.
use kvmemo.Base.{
  ℕ, ◌<◌, Str, List, [], ◌∷◌, ◌++◌, ◌≡◌, refl, sym, ap, ◌∙◌, subst, Option, none, some, Outcome,
  throws, Exn, invalid_argument, length, arith, lookup, ℕ_eq,
}
use kvmemo.Base.Assoc
use kvmemo.Core.Engine.{Engine}
use kvmemo.Core.Engine.Replies as EngineReplies
use kvmemo.Eviction.Policy.{EvictionPolicy}
use kvmemo.Net.Connection.{Connection, read_from_socket, received}
use kvmemo.Net.Connection.Pipe as Pipe
use kvmemo.Net.Connection.Pipe.{output}
use kvmemo.Net.Sockets.{Sockets, SocketLaws}
use kvmemo.Protocol.Buffer.{Buffer, append, readable}
use kvmemo.Protocol.Buffer.Queue.{readable-append}
use kvmemo.Protocol.Framing.Chunks.{frames}
use kvmemo.Protocol.Parser.{parse, tokenize}
use kvmemo.Server.Dispatcher.{Times}
use kvmemo.Server.App.{
  App, Session, answer_frame, serve, finished, handled, drop_connection, connection_safe_process,
}
use kvmemo.Server.App.Frames.{run_frames, run_frames-returns, AllRequests}
use kvmemo.Server.App.Serving.{returned, Serves, serve-run_frames}
use kvmemo.Server.App.Isolation.{with_session, drop_connection-gone, drop_connection-engine}

module _ (hash : Str → ℕ) {P W : Type 0} (policy : EvictionPolicy P) (sys : Sockets W)
    (overread : Buffer → Outcome (Unit {0}) × Buffer) (laws : SocketLaws sys) where
  -- The session of a connection that has received some bytes.
  abbrev pub after_read : Connection → Str → Engine P → W → Session P W
  after_read c bytes e w = record {
    connection = record c { input_buffer = append bytes c.input_buffer };
    engine = e;
    world = w;
  }

  pub safe_process_read :
      (fuel : ℕ) (times : ℕ → Times) (fd : ℕ) (a : App P) (w : W) (c : Connection) (b : ℕ)
      (bytes : Str)
      → lookup fd a.server.connections ≡ some c
      → (sys.read c.fd 4096 w).0 ≡ some (b ∷ bytes)
      → connection_safe_process hash policy sys overread fuel times fd a w
        ≡ finished hash policy sys fd a (
            serve hash policy sys fuel times
              (after_read c (b ∷ bytes) a.engine (sys.read c.fd 4096 w).1))
  unfolding connection_safe_process read_from_socket
  safe_process_read fuel times fd a w c b bytes h r =
      rw (h, connection_safe_process) (go (sys.read c.fd 4096 w).0 r)
    where
      go :
          (o : Option Str)
          → o ≡ some (b ∷ bytes)
          → handled hash policy sys fuel times fd a
              ((received overread o c).0, (received overread o c).1, (sys.read c.fd 4096 w).1)
            ≡ finished hash policy sys fd a (
                serve hash policy sys fuel times
                  (after_read c (b ∷ bytes) a.engine (sys.read c.fd 4096 w).1))
      go o e = rw e refl

  module _ (fuel : ℕ) (times : ℕ → Times) (fd : ℕ) (a : App P) (w : W) (c : Connection) (b : ℕ)
      (bytes : Str) (h : lookup fd a.server.connections ≡ some c) (v : Pipe.IsValid c)
      (r : (sys.read c.fd 4096 w).0 ≡ some (b ∷ bytes))
      (enough : length (readable c.input_buffer ++ b ∷ bytes) < fuel) where
    -- The frames that the call finds.
    abbrev pub found_frames : List Str
    found_frames = (frames fuel (readable c.input_buffer ++ b ∷ bytes)).0

    -- The bytes behind them.
    abbrev pub left_bytes : Str
    left_bytes = (frames fuel (readable c.input_buffer ++ b ∷ bytes)).1

    abbrev pub session : Session P W
    session = after_read c (b ∷ bytes) a.engine (sys.read c.fd 4096 w).1

    pub served :
        Serves hash policy sys laws session
          (run_frames hash policy times found_frames a.engine)
          left_bytes
          (serve hash policy sys fuel times session)
    served =
        let added = readable-append (b ∷ bytes) c.input_buffer v.0 in
        subst
          (λ l.
            Serves hash policy sys laws session
              (run_frames hash policy times (frames fuel l).0 a.engine) (frames fuel l).1
              (serve hash policy sys fuel times session))
          added.0
          (serve-run_frames hash policy sys laws fuel times session (added.1, v.1)
            (subst (λ l. length l < fuel) (sym added.0) enough))

    -- If the bytes that arrive at a valid connection of a valid engine, behind those it held, make
    -- frames that all have a word, and the fuel is more than these bytes, the call ends and keeps
    -- the connection valid, with the bytes behind the last frame. The engine has done the commands
    -- of the frames and is valid, and the output of the connection has grown by exactly their
    -- responses.
    pub safe_process_answers :
        EngineReplies.IsValid hash a.engine
        → AllRequests hash policy found_frames
        → let spec = run_frames hash policy times found_frames a.engine in
          (a' : App P) × (w' : W) × (c' : Connection) × (connection_safe_process hash policy sys
              overread fuel times fd a w
            ≡ some (a', w'))
          × (lookup fd a'.server.connections ≡ some c')
          × (output sys laws c' w' ≡ output sys laws c w ++ spec.1)
          × (readable c'.input_buffer ≡ left_bytes)
          × Pipe.IsValid c'
          × (a'.engine ≡ spec.2)
          × EngineReplies.IsValid hash spec.2
    safe_process_answers ve all =
        let (s', e, q) = served in
        let ok = run_frames-returns hash policy times found_frames a.engine ve all in
        (
          with_session hash policy sys fd a s',
          s'.world,
          s'.connection,
          safe_process_read fuel times fd a w c b bytes h r ∙ rw (e, ok.0) refl,
          ground (arith, Assoc.lookup-insert fd fd s'.connection a.server.connections),
          q.output_after
              ∙ ap
                  (λ l.
                    l
                    ++ readable c.output_buffer
                    ++ (run_frames hash policy times found_frames a.engine).1)
                  (laws.sent-read c.fd 4096 w),
          returned _ ok.0 q.input_after,
          q.valid,
          q.engine_after,
          ok.1,
        )

    -- If the commands of the frames end with an exception, the call ends, the connection is gone,
    -- and the engine has done the commands before it.
    pub safe_process_drops :
        (x : Exn)
        → (run_frames hash policy times found_frames a.engine).0 ≡ throws x
        → (a' : App P) × (w' : W) × (connection_safe_process hash policy sys overread fuel times fd
              a w
            ≡ some (a', w'))
          × (lookup fd a'.server.connections ≡ none)
          × (a'.engine ≡ (run_frames hash policy times found_frames a.engine).2)
    safe_process_drops x t =
        let (s', e, q) = served in
        let a1 = with_session hash policy sys fd a s' in
        (
          (drop_connection hash policy sys fd a1 s'.world).0,
          (drop_connection hash policy sys fd a1 s'.world).1,
          safe_process_read fuel times fd a w c b bytes h r ∙ rw (e, t) refl,
          drop_connection-gone hash policy sys fd a1 s'.world,
          drop_connection-engine hash policy sys fd a1 s'.world ∙ q.engine_after,
        )

    run_blank :
        (f : Str) (rest : List Str)
        → tokenize f ≡ []
        → run_frames hash policy times (f ∷ rest) a.engine ≡ (throws invalid_argument, [], a.engine)
    unfolding run_frames answer_frame parse
    run_blank f rest t = rw t refl

    -- If bytes arrive at a valid connection, the fuel is more than the bytes it then holds, and
    -- their first frame has no word, as an empty line, the connection is dropped, and the engine
    -- is as it was.
    pub blank_line_drops :
        (f : Str) (rest : List Str)
        → found_frames ≡ f ∷ rest
        → tokenize f ≡ []
        → (a' : App P) × (w' : W) × (connection_safe_process hash policy sys overread fuel times fd
              a w
            ≡ some (a', w'))
          × (lookup fd a'.server.connections ≡ none)
          × (a'.engine ≡ a.engine)
    blank_line_drops f rest e t =
        let run = ap (λ l. run_frames hash policy times l a.engine) e ∙ run_blank f rest t in
        let (a', w', p, gone, same) = safe_process_drops invalid_argument (ap (λ q. q.0) run) in
        (a', w', p, gone, same ∙ ap (λ q. q.2) run)
