-- ===== src/Server/App/Rounds.antt =====
-- src/server/server_app.h: each call for a connection ends and leaves the server valid.
pub mod Loop
pub mod Quiet
pub mod Round
pub mod Clients
pub mod Keyed
pub mod Run
use kvmemo.Base.{
  ℕ, zero, suc, ◌+◌, ◌<◌, ◌≤◌, Str, List, [], ◌∷◌, ◌++◌, map, ◌≡◌, ◌≢◌, ◌⊎◌, refl, sym, ap, ◌∙◌,
  subst, Option, none, some, Outcome, returns, throws, length, arith, lookup, insert, erase, ℕ_eq,
  ite, if_pos, Option-cases, Bool-cases, inl, inr, Unique, Distinct, contains, is_some, Bool, true,
  false, length-append, if◌then◌else◌,
}
use kvmemo.Base.Assoc
use kvmemo.Core.Engine.{Engine}
use kvmemo.Core.Engine.Replies as EngineReplies
use kvmemo.Eviction.Policy.{EvictionPolicy}
use kvmemo.Net.Connection.{Connection, read_from_socket, received}
use kvmemo.Net.Connection.Pipe as Pipe
use kvmemo.Net.Connections as Manager
use kvmemo.Net.Sockets.{Fd, Sockets, SocketLaws}
use kvmemo.Protocol.Buffer.{Buffer, append, readable}
use kvmemo.Protocol.Framing.Chunks.{frames}
use kvmemo.Server.Dispatcher.{Times}
use kvmemo.Server.App.{
  App, Session, serve, finished, handled, drop_connection, connection_safe_process,
}
use kvmemo.Server.App.Select.{process_each, is_set, process_connections, selected, accepted}
use kvmemo.Server.App.Frames.{run_frames, run_frames-IsValid}
use kvmemo.Server.App.Serving.{Served, Serves}
use kvmemo.Server.App.Isolation.{
  handled-failed, Others, with_session, drop_connection-gone, drop_connection-engine,
  drop_connection-Others, connection_safe_process-Others, connection_safe_process_failed,
}
use kvmemo.Server.App.Calls.{found_frames, safe_process_read, served, after_read}

module _ (hash : Str → ℕ) {P : Type 0} where
  -- The engine and the connections are valid, and no two connections have the same key.
  pub record IsReady (a : App P) : Type 0 where
    pub engine_valid : EngineReplies.IsValid hash a.engine
    pub unique : Unique a.server.connections
    pub valid : (q : ℕ) (c : Connection) → lookup q a.server.connections ≡ some c → Pipe.IsValid c

  -- The fuel is more than the bytes that a connection can hold after one read.
  abbrev pub HasFuel : ℕ → ℕ → App P → Type 0
  HasFuel fuel q a =
      (c : Connection)
      → lookup q a.server.connections ≡ some c
      → length (readable c.input_buffer) + 4096 < fuel

  module _ {W : Type 0} (policy : EvictionPolicy P) (sys : Sockets W) where
    drop_connection-IsReady :
        (fd : ℕ) (a : App P) (w : W)
        → IsReady a
        → IsReady (drop_connection hash policy sys fd a w).0
    unfolding drop_connection Manager.remove
    drop_connection-IsReady fd a w v = elim (Option-cases (lookup fd a.server.connections)) [
      | inl e ↦ rw (e, drop_connection) v
      | inr (c, e) ↦
          rw (e, drop_connection)
            (record {
              engine_valid = v.engine_valid;
              unique = rw (e, Manager.remove) (Assoc.erase-Unique fd a.server.connections v.unique);
              valid = λ q d h.
                  v.valid q d (ground (arith, h, e, Assoc.lookup-erase fd q a.server.connections));
            })
    ]

    with_session-IsReady :
        (fd : ℕ) (a : App P) (s : Session P W)
        → IsReady a
        → EngineReplies.IsValid hash s.engine
        → Pipe.IsValid s.connection
        → IsReady (with_session hash policy sys fd a s)
    with_session-IsReady fd a s v ve vc = record {
      engine_valid = ve;
      unique = Assoc.insert-Unique fd s.connection a.server.connections v.unique;
      valid = λ q d h. elim (ℕ_eq.dec fd q) [
        | yes e ↦
            subst Pipe.IsValid {x = s.connection} {y = d}
              (ground (arith, h, e, Assoc.lookup-insert fd q s.connection a.server.connections)) vc
        | no n ↦
            v.valid q d
              (ground (arith, h, n, Assoc.lookup-insert fd q s.connection a.server.connections))
      ];
    }

    finished-IsReady :
        (fd : ℕ) (a : App P) (r : Outcome (Unit {0})) (s : Session P W)
        → IsReady a
        → EngineReplies.IsValid hash s.engine
        → Pipe.IsValid s.connection
        → (a' : App P) × (w' : W) × (finished hash policy sys fd a (some (r, s)) ≡ some (a', w'))
          × IsReady a'
    finished-IsReady fd a (returns _) s v ve vc = (_, _, refl, with_session-IsReady fd a s v ve vc)
    finished-IsReady fd a (throws x) s v ve vc = (
      _,
      _,
      refl,
      drop_connection-IsReady fd (with_session hash policy sys fd a s) s.world
          (with_session-IsReady fd a s v ve vc),
    )

    module _ (overread : Buffer → Outcome (Unit {0}) × Buffer) (laws : SocketLaws sys) where
      abbrev pub Ends : Option (App P × W) → Type 0
      Ends o = (a' : App P) × (w' : W) × (o ≡ some (a', w')) × IsReady a'

      dropped-Ends :
          (fd : ℕ) (a : App P) (w : W) (o : Option (App P × W))
          → IsReady a
          → o ≡ some (drop_connection hash policy sys fd a w)
          → Ends o
      dropped-Ends fd a w o v e = (
        (drop_connection hash policy sys fd a w).0,
        (drop_connection hash policy sys fd a w).1,
        e,
        drop_connection-IsReady fd a w v,
      )

      pub handled-closed :
          (fuel : ℕ) (times : ℕ → Times) (fd : ℕ) (a : App P) (c : Connection) (p : Option Str × W)
          → p.0 ≡ some []
          → handled hash policy sys fuel times fd a
              ((received overread p.0 c).0, (received overread p.0 c).1, p.1)
            ≡ some (drop_connection hash policy sys fd a p.1)
      handled-closed fuel times fd a c (o, w) h = rw h refl

      handled-Ends :
          (fuel : ℕ) (times : ℕ → Times) (fd : ℕ) (a : App P) (w : W) (c : Connection)
          → lookup fd a.server.connections ≡ some c
          → IsReady a
          → HasFuel fuel fd a
          → (o : Option Str) → (sys.read c.fd 4096 w).0 ≡ o
          → Ends (connection_safe_process hash policy sys overread fuel times fd a w)
      unfolding connection_safe_process read_from_socket
      handled-Ends fuel times fd a w c e v h none r =
          dropped-Ends fd a (sys.read c.fd 4096 w).1 _ v (
            rw (e, connection_safe_process)
              (handled-failed hash policy sys overread fuel times fd a c w (sys.read c.fd 4096 w)
                r))
      handled-Ends fuel times fd a w c e v h (some []) r =
          dropped-Ends fd a (sys.read c.fd 4096 w).1 _ v (
            rw (e, connection_safe_process)
              (handled-closed fuel times fd a c (sys.read c.fd 4096 w) r))
      handled-Ends fuel times fd a w c e v h (some (b ∷ bytes)) r =
          let vc = v.valid fd c e in
          let (s', served', k) =
            served hash policy sys overread laws fuel times fd a w c b bytes e vc r (
              omega (
                arith,
                h c e,
                laws.length-read c.fd 4096 w (b ∷ bytes) r,
                length-append (readable c.input_buffer) (b ∷ bytes),
              )) in
          let spec =
            run_frames hash policy times (frames fuel (readable c.input_buffer ++ b ∷ bytes)).0
              a.engine in
          let (a', w', p, q) =
            finished-IsReady fd a spec.0 s' v
              (subst (EngineReplies.IsValid hash) (sym k.engine_after)
                (run_frames-IsValid hash policy times _ a.engine v.engine_valid))
              k.valid in
          (
            a',
            w',
            safe_process_read hash policy sys overread laws fuel times fd a w c b bytes e r
                ∙ ap (finished hash policy sys fd a) served'
                ∙ p,
            q,
          )

      -- One call for a connection ends and leaves the server valid.
      pub connection_safe_process-Ends :
          (fuel : ℕ) (times : ℕ → Times) (fd : ℕ) (a : App P) (w : W)
          → IsReady a
          → HasFuel fuel fd a
          → Ends (connection_safe_process hash policy sys overread fuel times fd a w)
      unfolding connection_safe_process
      connection_safe_process-Ends fuel times fd a w v h =
          elim (Option-cases (lookup fd a.server.connections)) [
            | inl e ↦ dropped-Ends fd a w _ v (rw (e, connection_safe_process) refl)
            | inr (c, e) ↦ handled-Ends fuel times fd a w c e v h (sys.read c.fd 4096 w).0 refl
          ]
