-- ===== src/Net/Connection.antt =====
-- src/net/connection.h: `Connection`, a descriptor with an input and an output buffer.
pub mod Pipe
use kvmemo.Base.{
  ℕ, Str, List, [], ◌∷◌, Option, none, some, Outcome, returns, throws, length, zero, suc,
}
use kvmemo.Net.Sockets.{Fd, Sockets}
use kvmemo.Protocol.Buffer
use kvmemo.Protocol.Buffer.{Buffer, append, readable, consume}

pub record Connection : Type 0 where
  pub fd : Fd
  pub input_buffer : Buffer
  pub output_buffer : Buffer

abbrev pub new : Fd → Connection
new fd = record { fd = fd; input_buffer = Buffer.empty; output_buffer = Buffer.empty }

-- What `ReadFromSocket` does with the result of `read`. Its result −1 is the largest number in the
-- variable `bytes`, and so `Append` is given a range beyond `temp`. C++ does not define what happens
-- then. The parameter `overread` stands for it, under the assumption that it returns or throws, as
-- `insert` of a vector does that finds no room, and changes nothing but the input buffer; a crash,
-- or a write elsewhere, is not modelled. The call returns −1 as `none`.
abbrev pub received :
    (Buffer → Outcome (Unit {0}) × Buffer)
    → Option Str
    → Connection
    → Outcome (Option ℕ) × Connection
received overread (some []) c = (returns (some 0), c)
received overread (some (b ∷ bytes)) c = (
  returns (some (length (b ∷ bytes))),
  record c { input_buffer = append (b ∷ bytes) c.input_buffer },
)
received overread none c =
    let (r, b) = overread c.input_buffer in
    (elim r [ returns _ ↦ returns none | throws x ↦ throws x ], record c { input_buffer = b })

-- `Consume` of what was written, if it is more than 0 bytes
abbrev pub sent_off : Option ℕ → Connection → Outcome (Unit {0}) × Connection
sent_off none c = (returns tt, c)
sent_off (some zero) c = (returns tt, c)
sent_off (some (suc n)) c =
    let (r, b) = consume (suc n) c.output_buffer in (r, record c { output_buffer = b })

module _ {W : Type 0} (sys : Sockets W) where
  unfoldable pub read_from_socket :
      (Buffer → Outcome (Unit {0}) × Buffer) → Connection → W → Outcome (Option ℕ) × Connection × W
  read_from_socket overread c w =
      let (bytes, w') = sys.read c.fd 4096 w in
      let (r, c') = received overread bytes c in (r, c', w')

  -- The number of bytes that is returned is not used by any caller, and is left out. If `write`
  -- raises SIGPIPE, as it does when the peer has closed, the process ends there and the call does
  -- not return: `sys.ended` holds then in the new state, and no result is to be read from it.
  unfoldable pub write_to_socket : Connection → W → Outcome (Unit {0}) × Connection × W
  write_to_socket c w =
      let (n, w') = sys.write c.fd (readable c.output_buffer) w in
      let (r, c') = sent_off n c in (r, c', w')

  abbrev close_fd : Fd → W → W
  close_fd none w = w
  close_fd (some fd) w = sys.close fd w

  unfoldable pub close : Connection → W → Connection × W
  close c w = (record c { fd = none }, close_fd c.fd w)
