-- ===== src/Server/App.antt =====
-- src/server/server_app.h: `ServerApp`, one thread that serves all connections, up to the call for
-- one connection. What the system does is in `W`. `overread` is what a read beyond an array does to
-- a buffer, and `times k` are the readings of the clock for the command `k` of a call.
pub mod Frames
pub mod Serving
pub mod Select
pub mod Calls
pub mod Rounds
pub mod Isolation
pub mod Apart
pub mod Settled
pub mod Startup
pub mod Cuts
pub mod EndToEnd
use kvmemo.Base.{
  ℕ, zero, suc, ◌*◌, Str, List, [], ◌∷◌, Option, none, some, Bool, true, false, Outcome, returns,
  throws, lookup, insert, ℕ_eq, if◌then◌else◌, map, ◌==◌, ◌||◌,
}
use kvmemo.Core.Engine.{Engine}
use kvmemo.Core.Lru
use kvmemo.Core.Lru.{LruCache}
use kvmemo.Core.Manager as Shards
use kvmemo.Core.Ttl
use kvmemo.Eviction.Memory
use kvmemo.Eviction.Policy.{EvictionPolicy}
use kvmemo.Net.Connection as Connection
use kvmemo.Net.Connection.{Connection, read_from_socket, write_to_socket}
use kvmemo.Net.Connections as Manager
use kvmemo.Net.Sockets.{Fd, Sockets}
use kvmemo.Net.TcpServer
use kvmemo.Net.TcpServer.{TcpServer}
use kvmemo.Protocol.Buffer.{Buffer, append}
use kvmemo.Protocol.Framing.{next_frame}
use kvmemo.Protocol.Parser.{parse}
use kvmemo.Protocol.Request.{Request}
use kvmemo.Protocol.Response.{Response}
use kvmemo.Protocol.Serializer.{serialize}
use kvmemo.Server.Dispatcher.{Times, dispatch}

pub record App (P : Type 0) : Type 0 where
  pub server : TcpServer
  pub engine : Engine P
  pub active_fds : List ℕ

-- The members are made in turn, and the constructor throws what the first one throws that fails.
unfoldable pub new : ℕ → Outcome (App LruCache)
new port = elim (Shards.new 64 10000) [
  | throws x ↦ throws x
  | returns shards ↦ elim (Memory.new (256 * 1024 * 1024)) [
    | throws x ↦ throws x
    | returns tracker ↦ elim (Lru.new 10000) [
      | throws x ↦ throws x
      | returns lru ↦ returns (record {
        server = TcpServer.new port;
        engine = record {
          shard_manager = shards;
          ttl_index = Ttl.new;
          eviction_manager = record { memory_tracker = tracker; policy = lru };
        };
        active_fds = [];
      })
    ]
  ]
]

-- What the loop over the frames of one connection works on.
pub record Session (P W : Type 0) : Type 0 where
  pub connection : Connection
  pub engine : Engine P
  pub world : W

abbrev pub serialized : {P : Type 0} → Outcome Response × Engine P → Outcome Str × Engine P
serialized (throws x, e) = (throws x, e)
serialized (returns r, e) = (returns (serialize r), e)

module _ (hash : Str → ℕ) {P : Type 0} (policy : EvictionPolicy P) where
  abbrev pub execute : Times → Outcome Request → Engine P → Outcome Str × Engine P
  execute t (throws x) e = (throws x, e)
  execute t (returns r) e = serialized (dispatch hash policy t r e)

  -- The bytes of the response to a frame.
  unfoldable pub answer_frame : Times → Str → Engine P → Outcome Str × Engine P
  answer_frame t frame e = execute t (parse frame) e

module _ (hash : Str → ℕ) {P W : Type 0} (policy : EvictionPolicy P) (sys : Sockets W) where
  -- after `WriteToSocket`
  abbrev pub flushed :
      (Session P W → Option (Outcome (Unit {0}) × Session P W))
      → Engine P
      → Outcome (Unit {0}) × Connection × W
      → Option (Outcome (Unit {0}) × Session P W)
  flushed rest e (throws x, c, w) =
      some (throws x, record { connection = c; engine = e; world = w })
  flushed rest e (returns _, c, w) = rest (record { connection = c; engine = e; world = w })

  -- after the answer to a frame
  abbrev pub answered :
      (Session P W → Option (Outcome (Unit {0}) × Session P W))
      → Connection
      → W
      → Outcome Str × Engine P
      → Option (Outcome (Unit {0}) × Session P W)
  answered rest c w (throws x, e) =
      some (throws x, record { connection = c; engine = e; world = w })
  answered rest c w (returns wire, e) =
      flushed rest e
        (write_to_socket sys (record c { output_buffer = append wire c.output_buffer }) w)

  -- after `NextFrame`
  abbrev pub framed :
      (Session P W → Option (Outcome (Unit {0}) × Session P W))
      → Times
      → Session P W
      → Outcome (Option Str) × Buffer
      → Option (Outcome (Unit {0}) × Session P W)
  framed rest t s (throws x, b) =
      some (throws x, record s { connection = record s.connection { input_buffer = b } })
  framed rest t s (returns none, b) =
      some (returns tt, record s { connection = record s.connection { input_buffer = b } })
  framed rest t s (returns (some frame), b) =
      answered rest (record s.connection { input_buffer = b }) s.world
        (answer_frame hash policy t frame s.engine)

  -- The loop `while (NextFrame(...))`; `none` if the fuel runs out.
  unfoldable pub serve : ℕ → (ℕ → Times) → Session P W → Option (Outcome (Unit {0}) × Session P W)
  unfolding answer_frame
  serve zero times s = none
  serve (suc fuel) times s =
      framed (serve fuel (λ k. times (suc k))) (times 0) s (next_frame s.connection.input_buffer)

  -- `Remove` of a connection, which is destroyed and so closed.
  unfoldable pub drop_connection : ℕ → App P → W → App P × W
  drop_connection fd a w = elim (lookup fd a.server.connections) [
    | none ↦ (a, w)
    | some c ↦ (
      record a {
        server = record a.server { connections = Manager.remove fd a.server.connections };
      },
      (Connection.close sys c w).1,
    )
  ]

  -- after the loop: the connection has changed in place
  abbrev pub finished : ℕ → App P → Option (Outcome (Unit {0}) × Session P W) → Option (App P × W)
  finished fd a none = none
  finished fd a (some (r, s)) =
      let a' = record a {
        server = record a.server { connections = insert fd s.connection a.server.connections };
        engine = s.engine;
      } in
      elim r [ returns _ ↦ some (a', s.world) | throws _ ↦ some (drop_connection fd a' s.world) ]

  -- after `ReadFromSocket`
  abbrev pub handled :
      ℕ → (ℕ → Times) → ℕ → App P → Outcome (Option ℕ) × Connection × W → Option (App P × W)
  handled fuel times fd a (throws x, c, w) = some (drop_connection fd a w)
  handled fuel times fd a (returns none, c, w) = some (drop_connection fd a w)
  handled fuel times fd a (returns (some zero), c, w) = some (drop_connection fd a w)
  handled fuel times fd a (returns (some (suc n)), c, w) =
      finished fd a (serve fuel times (record { connection = c; engine = a.engine; world = w }))

  module _ (overread : Buffer → Outcome (Unit {0}) × Buffer) where
    unfoldable pub connection_safe_process : ℕ → (ℕ → Times) → ℕ → App P → W → Option (App P × W)
    unfolding serve drop_connection
    connection_safe_process fuel times fd a w = elim (lookup fd a.server.connections) [
      | none ↦ some (drop_connection fd a w)
      | some c ↦ handled fuel times fd a (read_from_socket sys overread c w)
    ]
