-- ===== src/Net/TcpServer.antt =====
-- src/net/tcp_server.h: `TcpServer`, a listening socket and the connections.
pub mod Opening
use kvmemo.Base.{
  ℕ, ◌%◌, ℕ_eq, List, [], ◌∷◌, Option, none, some, Bool, true, false, Outcome, returns, throws,
  runtime_error, lookup, is_some, if◌then◌else◌,
}
use kvmemo.Net.Sockets.{Fd, Sockets}
use kvmemo.Net.Connection as Connections
use kvmemo.Net.Connection.{Connection}
use kvmemo.Net.Connections as Manager

pub record TcpServer : Type 0 where
  pub port : ℕ
  pub listen_fd : Fd
  pub connections : List (ℕ × Connection)

abbrev pub new : ℕ → TcpServer
new port = record { port = port; listen_fd = none; connections = [] }

module _ {W : Type 0} (sys : Sockets W) where
  -- a call that throws if the system call fails
  abbrev pub checked : Bool × W → TcpServer → Outcome (Unit {0}) × TcpServer × W
  checked (true, w) s = (returns tt, s, w)
  checked (false, w) s = (throws runtime_error, s, w)

  abbrev pub then_next :
      Outcome (Unit {0}) × TcpServer × W
      → (TcpServer → W → Outcome (Unit {0}) × TcpServer × W)
      → Outcome (Unit {0}) × TcpServer × W
  then_next (throws x, s, w) k = (throws x, s, w)
  then_next (returns _, s, w) k = k s w

  abbrev pub opened : Fd × W → TcpServer → Outcome (Unit {0}) × TcpServer × W
  opened (none, w) s = (throws runtime_error, record s { listen_fd = none }, w)
  opened (some fd, w) s = (returns tt, record s { listen_fd = some fd }, w)

  unfoldable pub create_socket : TcpServer → W → Outcome (Unit {0}) × TcpServer × W
  create_socket s w = opened (sys.socket w) s

  -- `htons` keeps 16 bits of the port.
  unfoldable pub bind : TcpServer → W → Outcome (Unit {0}) × TcpServer × W
  bind s w = checked (sys.bind s.listen_fd (s.port % 65536) w) s

  unfoldable pub listen : TcpServer → W → Outcome (Unit {0}) × TcpServer × W
  listen s w = checked (sys.listen s.listen_fd 128 w) s

  unfoldable pub start : TcpServer → W → Outcome (Unit {0}) × TcpServer × W
  unfolding create_socket bind listen
  start s w = then_next (create_socket s w) λ s' w'. then_next (bind s' w') listen

  -- `Add` of the new connection. If its descriptor is taken, the new connection is destroyed, and
  -- so its descriptor is closed.
  abbrev pub admitted : Fd × W → TcpServer → Outcome (Unit {0}) × TcpServer × W
  admitted (none, w) s = (throws runtime_error, s, w)
  admitted (some fd, w) s = (
    returns tt,
    record s { connections = Manager.add fd (Connections.new (some fd)) s.connections },
    if is_some (lookup fd s.connections)
        then (Connections.close sys (Connections.new (some fd)) w).1
        else w,
  )

  unfoldable pub accept : TcpServer → W → Outcome (Unit {0}) × TcpServer × W
  accept s w = admitted (sys.accept s.listen_fd w) s

  abbrev pub stop_listening : Fd → TcpServer → W → TcpServer × W
  stop_listening none s w = (s, w)
  stop_listening (some fd) s w = (record s { listen_fd = none }, sys.close fd w)

  unfoldable pub stop : TcpServer → W → TcpServer × W
  stop s w = stop_listening s.listen_fd s w
