-- ===== src/Tests/Sessions.antt =====
-- A server with one connection, on descriptor 5, whose peer has sent some lines.
use kvmemo.Base.{
  ℕ, ◌<◌, Str, str, [], ◌∷◌, ◌++◌, ◌≡◌, refl, Option, none, some, returns, arith, length, lookup,
  ℕ_eq, ℕ_discrete,
}
use kvmemo.Core.Engine.Replies as EngineReplies
use kvmemo.Core.Lru.{LruCache}
use kvmemo.Eviction.Policy.{lru_policy}
use kvmemo.Net.Connection as Connection
use kvmemo.Net.Connection.{Connection, write_to_socket}
use kvmemo.Net.Connection.Pipe as Pipe
use kvmemo.Net.Connection.Pipe.{output}
use kvmemo.Protocol.Buffer.{readable}
use kvmemo.Protocol.Framing.Chunks.{frames}
use kvmemo.Protocol.Framing.Split.{split}
use kvmemo.Protocol.Parser.{parse, tokenize, scan}
use kvmemo.Server.Dispatcher.{Times}
use kvmemo.Server.App.{App, Session, serve, connection_safe_process}
use kvmemo.Server.App.Frames.{run_frames, AllRequests}
use kvmemo.Server.App.Serving
use kvmemo.Server.App.Serving.{Serves, session_output}
use kvmemo.Server.App.Calls
use kvmemo.Server.App.Calls.{found_frames}
use kvmemo.Server.App.Isolation
use kvmemo.Tests.Engines.{hash, one, one-IsValid}
use kvmemo.Tests.Sockets.{World, peer, peer_laws, overread}

abbrev pub sends : Option Str → World
sends bytes = record { incoming = bytes; outgoing = []; ready = some 5 ∷ []; next = none }

abbrev pub noon : ℕ → Times
noon k = record { entry_time = 12; engine_time = 12; list_time = λ i j. 12 }

abbrev pub link : Connection
link = Connection.new (some 5)

pub link-IsValid : Pipe.IsValid link
link-IsValid = (omega arith, omega arith)

abbrev pub serving : App LruCache
serving = record {
  server = record { port = 6379; listen_fd = some 3; connections = (5, link) ∷ [] };
  engine = one;
  active_fds = [];
}

pub serving-link : lookup 5 serving.server.connections ≡ some link
unfolding lookup ℕ_discrete
serving-link = refl

-- A response of 7 bytes waits to be sent.
abbrev pending : Connection
pending = record link { output_buffer = record { storage = str "$1\r\n1\r\n"; read_pos = 0 } }

output-write_to_socket_example :
    let (r, c', w') = write_to_socket peer pending (sends none) in
    (r ≡ returns tt)
    × Pipe.IsValid c'
    × (c'.fd ≡ some 5)
    × (c'.input_buffer ≡ pending.input_buffer)
    × (output peer peer_laws c' w' ≡ output peer peer_laws pending (sends none))
output-write_to_socket_example =
    Pipe.output-write_to_socket peer peer_laws pending (sends none) (omega arith, omega arith)

abbrev two_lines : Str
two_lines = str "GET a\r\nPING\r\n"

abbrev session : Session LruCache World
session = record {
  connection = record link { input_buffer = record { storage = two_lines; read_pos = 0 } };
  engine = one;
  world = sends none;
}

session-fits : length (readable session.connection.input_buffer) < 20
unfolding readable
session-fits = omega arith

serve-run_frames_example :
    Serves hash lru_policy peer peer_laws session
      (run_frames hash lru_policy noon (frames 20 (readable session.connection.input_buffer)).0 one)
      (frames 20 (readable session.connection.input_buffer)).1
      (serve hash lru_policy peer 20 noon session)
serve-run_frames_example =
    Serving.serve-run_frames hash lru_policy peer peer_laws 20 noon session
      (omega arith, omega arith) session-fits

lines-fit : length (readable link.input_buffer ++ two_lines) < 20
unfolding readable
lines-fit = omega arith

lines-words : AllRequests hash lru_policy (frames 20 (readable link.input_buffer ++ two_lines)).0
unfolding frames split readable parse tokenize scan
lines-words = ((_, refl), ((_, refl), tt))

abbrev pub calling : World
calling = sends (some two_lines)

safe_process_answers_example :
    let spec =
      run_frames hash lru_policy noon (frames 20 (readable link.input_buffer ++ two_lines)).0 one in
    (a' : App LruCache) × (w' : World) × (c' : Connection) × (connection_safe_process hash
        lru_policy peer overread 20 noon 5 serving calling
      ≡ some (a', w'))
    × (lookup 5 a'.server.connections ≡ some c')
    × (output peer peer_laws c' w' ≡ output peer peer_laws link calling ++ spec.1)
    × (readable c'.input_buffer ≡ (frames 20 (readable link.input_buffer ++ two_lines)).1)
    × Pipe.IsValid c'
    × (a'.engine ≡ spec.2)
    × EngineReplies.IsValid hash spec.2
safe_process_answers_example =
    Calls.safe_process_answers hash lru_policy peer overread peer_laws 20 noon 5 serving calling
      link b'G' (str "ET a\r\nPING\r\n") serving-link link-IsValid refl lines-fit one-IsValid
      lines-words

abbrev blank : World
blank = sends (some (str "\r\nPING\r\n"))

blank-fits : length (readable link.input_buffer ++ str "\r\nPING\r\n") < 20
unfolding readable
blank-fits = omega arith

blank-frames :
    (frames 20 (readable link.input_buffer ++ str "\r\nPING\r\n")).0 ≡ [] ∷ str "PING" ∷ []
unfolding frames split readable
blank-frames = refl

blank-tokens : tokenize [] ≡ []
unfolding tokenize scan
blank-tokens = refl

blank_line_drops_example :
    (a' : App LruCache) × (w' : World) × (connection_safe_process hash lru_policy peer overread 20
        noon 5 serving blank
      ≡ some (a', w'))
    × (lookup 5 a'.server.connections ≡ none)
    × (a'.engine ≡ one)
blank_line_drops_example =
    Calls.blank_line_drops hash lru_policy peer overread peer_laws 20 noon 5 serving blank link
      b'\r' (str "\nPING\r\n") serving-link link-IsValid refl blank-fits [] (str "PING" ∷ [])
      blank-frames blank-tokens

abbrev failed : World
failed = sends none

failing :
    (a' : App LruCache) × (w' : World) × (connection_safe_process hash lru_policy peer overread 20
        noon 5 serving failed
      ≡ some (a', w'))
failing =
    let (a', w', e, _, _) =
      Isolation.connection_safe_process_failed hash lru_policy peer overread 20 noon 5 serving
        failed link serving-link refl in
    (a', w', e)

connection_safe_process-Others_example :
    lookup 6 failing.0.server.connections ≡ lookup 6 serving.server.connections
connection_safe_process-Others_example =
    Isolation.connection_safe_process-Others hash lru_policy peer overread 20 noon 5 serving failed
      failing.0 failing.1 failing.2 6 (ground arith)
