-- ===== src/Server/App/Isolation.antt =====
-- src/server/server_app.h: one call for one connection, and what it leaves to the others.
use kvmemo.Base.{
  ℕ, zero, suc, Str, ◌≡◌, ◌≢◌, refl, sym, ◌∙◌, Option, none, some, Outcome, returns, throws, arith,
  lookup, insert, ℕ_eq, Option-cases, inl, inr,
}
use kvmemo.Base.Assoc
use kvmemo.Eviction.Policy.{EvictionPolicy}
use kvmemo.Net.Connection.{Connection, read_from_socket, received}
use kvmemo.Net.Connections as Manager
use kvmemo.Net.Sockets.{Sockets}
use kvmemo.Protocol.Buffer.{Buffer}
use kvmemo.Server.Dispatcher.{Times}
use kvmemo.Server.App.{App, Session, drop_connection, finished, handled, connection_safe_process}

module _ (hash : Str → ℕ) {P W : Type 0} (policy : EvictionPolicy P) (sys : Sockets W) where
  -- Every connection but `fd` is where it was.
  abbrev pub Others : ℕ → App P → App P → Type 0
  Others fd a a' = (q : ℕ) → fd ≢ q → lookup q a'.server.connections ≡ lookup q a.server.connections

  pub drop_connection-Others :
      (fd : ℕ) (a : App P) (w : W) → Others fd a (drop_connection hash policy sys fd a w).0
  unfolding drop_connection Manager.remove
  drop_connection-Others fd a w q n =
      ground (arith, n, Assoc.lookup-erase fd q a.server.connections)

  -- A dropped connection is gone.
  pub drop_connection-gone :
      (fd : ℕ) (a : App P) (w : W)
      → lookup fd (drop_connection hash policy sys fd a w).0.server.connections ≡ none
  unfolding drop_connection Manager.remove
  drop_connection-gone fd a w = ground (arith, Assoc.lookup-erase fd fd a.server.connections)

  pub drop_connection-engine :
      (fd : ℕ) (a : App P) (w : W) → (drop_connection hash policy sys fd a w).0.engine ≡ a.engine
  unfolding drop_connection
  drop_connection-engine fd a w = ground arith

  -- The state with the connection and the engine of a session.
  abbrev pub with_session : ℕ → App P → Session P W → App P
  with_session fd a s = record a {
    server = record a.server { connections = insert fd s.connection a.server.connections };
    engine = s.engine;
  }

  with_session-Others : (fd : ℕ) (a : App P) (s : Session P W) → Others fd a (with_session fd a s)
  with_session-Others fd a s q n =
      ground (arith, n, Assoc.lookup-insert fd q s.connection a.server.connections)

  finished-Others :
      (fd : ℕ) (a : App P) (o : Option (Outcome (Unit {0}) × Session P W)) (a' : App P) (w' : W)
      → finished hash policy sys fd a o ≡ some (a', w')
      → Others fd a a'
  finished-Others fd a none a' w' h q n = absurd (cc h)
  finished-Others fd a (some (returns _, s)) a' w' h q n =
      ground (arith, h, with_session-Others fd a s q n)
  finished-Others fd a (some (throws x, s)) a' w' h q n = ground (
    arith,
    h,
    with_session-Others fd a s q n,
    drop_connection-Others fd (with_session fd a s) s.world q n,
  )

  handled-Others :
      (fuel : ℕ) (times : ℕ → Times) (fd : ℕ) (a : App P) (p : Outcome (Option ℕ) × Connection × W)
      (a' : App P) (w' : W)
      → handled hash policy sys fuel times fd a p ≡ some (a', w')
      → Others fd a a'
  handled-Others fuel times fd a (throws x, c, w) a' w' h q n =
      ground (arith, h, drop_connection-Others fd a w q n)
  handled-Others fuel times fd a (returns none, c, w) a' w' h q n =
      ground (arith, h, drop_connection-Others fd a w q n)
  handled-Others fuel times fd a (returns (some zero), c, w) a' w' h q n =
      ground (arith, h, drop_connection-Others fd a w q n)
  handled-Others fuel times fd a (returns (some (suc k)), c, w) a' w' h q n =
      finished-Others fd a _ a' w' h q n

  module _ (overread : Buffer → Outcome (Unit {0}) × Buffer) where
    -- If a call for one connection ends, every other connection, with its buffers, is as it was.
    pub connection_safe_process-Others :
        (fuel : ℕ) (times : ℕ → Times) (fd : ℕ) (a : App P) (w : W) (a' : App P) (w' : W)
        → connection_safe_process hash policy sys overread fuel times fd a w ≡ some (a', w')
        → (q : ℕ) → fd ≢ q
        → lookup q a'.server.connections ≡ lookup q a.server.connections
    unfolding connection_safe_process
    connection_safe_process-Others fuel times fd a w a' w' h =
        elim (Option-cases (lookup fd a.server.connections)) [
          | inl e ↦ λ q n. ground (arith, h, e, drop_connection-Others fd a w q n)
          | inr (c, e) ↦
              handled-Others fuel times fd a (read_from_socket sys overread c w) a' w'
                (sym (step c e) ∙ h)
        ]
      where
        step :
            (c : Connection)
            → lookup fd a.server.connections ≡ some c
            → connection_safe_process hash policy sys overread fuel times fd a w
              ≡ handled hash policy sys fuel times fd a (read_from_socket sys overread c w)
        step c e = ground (arith, e)

    pub handled-failed :
        (fuel : ℕ) (times : ℕ → Times) (fd : ℕ) (a : App P) (c : Connection) (w : W)
        (p : Option Str × W)
        → p.0 ≡ none
        → handled hash policy sys fuel times fd a
            ((received overread p.0 c).0, (received overread p.0 c).1, p.1)
          ≡ some (drop_connection hash policy sys fd a p.1)
    handled-failed fuel times fd a c w (some bytes, w') h = absurd (cc h)
    handled-failed fuel times fd a c w (none, w') h = go (overread c.input_buffer) refl
      where
        go :
            (p : Outcome (Unit {0}) × Buffer)
            → overread c.input_buffer ≡ p
            → handled hash policy sys fuel times fd a
                ((received overread none c).0, (received overread none c).1, w')
              ≡ some (drop_connection hash policy sys fd a w')
        go (returns _, b) e = rw (e) refl
        go (throws x, b) e = rw (e) refl

    -- When `read` of a connection fails, and the read beyond the array that the code makes then
    -- returns or throws and touches only the input buffer, the call ends, the connection is gone,
    -- and the engine is as it was.
    pub connection_safe_process_failed :
        (fuel : ℕ) (times : ℕ → Times) (fd : ℕ) (a : App P) (w : W) (c : Connection)
        → lookup fd a.server.connections ≡ some c
        → (sys.read c.fd 4096 w).0 ≡ none
        → (a' : App P) × (w' : W) × (connection_safe_process hash policy sys overread fuel times fd
              a w
            ≡ some (a', w'))
          × (lookup fd a'.server.connections ≡ none)
          × (a'.engine ≡ a.engine)
    unfolding connection_safe_process read_from_socket
    connection_safe_process_failed fuel times fd a w c h r =
        let w1 = (sys.read c.fd 4096 w).1 in
        (
          (drop_connection hash policy sys fd a w1).0,
          (drop_connection hash policy sys fd a w1).1,
          rw (h, connection_safe_process)
              (handled-failed fuel times fd a c w (sys.read c.fd 4096 w) r),
          drop_connection-gone fd a w1,
          drop_connection-engine fd a w1,
        )
