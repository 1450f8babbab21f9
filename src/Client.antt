-- ===== src/Client.antt =====
-- src/client/kv_client.h: `KVClient`. What the system does is in `W`.
pub mod Commands
pub mod Replies
pub mod Cli
pub mod Main
use kvmemo.Base.{
  ℕ, ◌%◌, zero, suc, Str, str, List, [], ◌∷◌, ◌++◌, Option, none, some, Bool, true, false, Outcome,
  returns, throws, runtime_error, ◌==◌, if◌then◌else◌,
}
use kvmemo.Net.Sockets.{Fd}

-- The system calls of the client. `inet_pton` reads a host's address, `none` if it cannot; the
-- others have their result first, and −1 is `none` or `false`.
pub record ClientSockets (W : Type 0) : Type 0 where
  pub inet_pton : Str → Option ℕ
  pub socket : W → Fd × W
  -- the descriptor, the address and the port
  pub connect : Fd → ℕ → ℕ → W → Bool × W
  pub send : Fd → Str → W → Option ℕ × W
  -- the bytes that were received, at most so many
  pub recv : Fd → ℕ → W → Option Str × W
  pub close : ℕ → W → W

pub record KvClient : Type 0 where
  pub host : Str
  pub port : ℕ
  pub socket_fd : Fd

abbrev pub new : Str → ℕ → KvClient
new host port = record { host = host; port = port; socket_fd = none }

-- `std::string(buffer)`: the bytes before the first one that is 0
unfoldable pub c_string : Str → Str
c_string [] = []
c_string (c ∷ l) = let rest = c_string l in if c == 0 then [] else c ∷ rest

-- what `SendCommand` makes of the result of `recv`
abbrev pub response_of : Option Str → Outcome Str
response_of none = throws runtime_error
response_of (some []) = throws runtime_error
response_of (some (c ∷ bytes)) = returns (c_string (c ∷ bytes))

abbrev pub set_command : Str → Str → Str
set_command key value = (str "SET " ++ key) ++ b' ' ∷ value

abbrev pub get_command : Str → Str
get_command key = str "GET " ++ key

abbrev pub delete_command : Str → Str
delete_command key = str "DEL " ++ key

abbrev pub wire_of : Str → Str
wire_of command = command ++ b'\r' ∷ b'\n' ∷ []

-- what `Get` makes of a response
abbrev pub value_of : Str → Option Str
value_of [] = none
value_of (c ∷ l) = if c == b'+' then some l else none

abbrev pub get_result : Outcome Str → Outcome (Option Str)
get_result (throws x) = throws x
get_result (returns resp) = returns (value_of resp)

abbrev pub ignored : Outcome Str → Outcome (Unit {0})
ignored (throws x) = throws x
ignored (returns resp) = returns tt

module _ {W : Type 0} (sys : ClientSockets W) where
  abbrev connected : Bool × W → KvClient → Outcome (Unit {0}) × KvClient × W
  connected (true, w) c = (returns tt, c, w)
  connected (false, w) c = (throws runtime_error, c, w)

  -- `htons` keeps 16 bits of the port.
  abbrev resolved : Option ℕ → KvClient → W → Outcome (Unit {0}) × KvClient × W
  resolved none c w = (throws runtime_error, c, w)
  resolved (some address) c w = connected (sys.connect c.socket_fd address (c.port % 65536) w) c

  abbrev opened : Fd × W → KvClient → Outcome (Unit {0}) × KvClient × W
  opened (none, w) c = (throws runtime_error, record c { socket_fd = none }, w)
  opened (some fd, w) c = resolved (sys.inet_pton c.host) (record c { socket_fd = some fd }) w

  unfoldable pub connect : KvClient → W → Outcome (Unit {0}) × KvClient × W
  connect c w = opened (sys.socket w) c

  -- The result of `send` is not looked at.
  unfoldable pub send_command : Str → KvClient → W → Outcome Str × W
  send_command command c w =
      let w1 = (sys.send c.socket_fd (wire_of command) w).1 in
      let (bytes, w2) = sys.recv c.socket_fd 4095 w1 in (response_of bytes, w2)

  unfoldable pub set : Str → Str → KvClient → W → Outcome (Unit {0}) × W
  unfolding send_command
  set key value c w = let (r, w') = send_command (set_command key value) c w in (ignored r, w')

  unfoldable pub get : Str → KvClient → W → Outcome (Option Str) × W
  unfolding send_command
  get key c w = let (r, w') = send_command (get_command key) c w in (get_result r, w')

  unfoldable pub delete : Str → KvClient → W → Outcome (Unit {0}) × W
  unfolding send_command
  delete key c w = let (r, w') = send_command (delete_command key) c w in (ignored r, w')

  abbrev closed : Fd → W → W
  closed none w = w
  closed (some fd) w = sys.close fd w

  -- `~KVClient`
  unfoldable pub destroy : KvClient → W → W
  destroy c w = closed c.socket_fd w
