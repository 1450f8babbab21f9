-- ===== src/Net/Sockets.antt =====
-- The system calls that src/net and src/server/server_app.h make. `W` is the state of the system.
use kvmemo.Base.{ℕ, ◌≤◌, Str, List, [], ◌++◌, ◌≡◌, ◌≢◌, Option, none, some, Bool, length, take}

-- A descriptor; `none` is a negative one.
abbrev pub Fd : Type 0
Fd = Option ℕ

-- The result comes first. A result of −1 is `none`, and `false` for a call that gives nothing else.
pub record Sockets (W : Type 0) : Type 0 where
  pub socket : W → Fd × W
  -- the descriptor and the port
  pub bind : Fd → ℕ → W → Bool × W
  -- the descriptor and the backlog
  pub listen : Fd → ℕ → W → Bool × W
  pub accept : Fd → W → Fd × W
  -- the bytes that were read, at most so many
  pub read : Fd → ℕ → W → Option Str × W
  -- the number of bytes that were written
  pub write : Fd → Str → W → Option ℕ × W
  -- SIGPIPE has ended the process: a `write` to a peer that has closed raises it, and nothing in
  -- the program handles or ignores it. It stays so. What a definition computes from such a state is
  -- what the process has not come to; `run` and `main` end there.
  pub ended : W → Bool
  pub close : ℕ → W → W
  -- the descriptors that can be read, of those that are watched
  pub select : Fd → List ℕ → W → Option (List Fd) × W

-- what a call of `write` has taken of the bytes
abbrev pub written : Option ℕ → Str → Str
written none bytes = []
written (some n) bytes = take n bytes

-- The documented behaviour of the calls: `sent` is what was written to a descriptor so far. A call
-- of `write` takes a prefix of the bytes, `read` writes nothing and gives at most as many bytes as
-- it is asked for.
pub record SocketLaws {W : Type 0} (s : Sockets W) : Type 0 where
  pub sent : Fd → W → Str
  pub length-write :
      (fd : Fd) (bytes : Str) (w : W) (n : ℕ) → (s.write fd bytes w).0 ≡ some n → n ≤ length bytes
  pub sent-write :
      (fd : Fd) (bytes : Str) (w : W)
      → sent fd (s.write fd bytes w).1 ≡ sent fd w ++ written (s.write fd bytes w).0 bytes
  pub sent-read : (fd : Fd) (size : ℕ) (w : W) → sent fd (s.read fd size w).1 ≡ sent fd w
  pub length-read :
      (fd : Fd) (size : ℕ) (w : W) (bytes : Str)
      → (s.read fd size w).0 ≡ some bytes
      → length bytes ≤ size

-- The calls for one descriptor write nothing to another one.
pub record ApartLaws {W : Type 0} (s : Sockets W) (laws : SocketLaws s) : Type 0 where
  pub apart_write :
      (fd q : Fd) (bytes : Str) (w : W)
      → fd ≢ q
      → laws.sent q (s.write fd bytes w).1 ≡ laws.sent q w
  pub apart_read :
      (fd q : Fd) (size : ℕ) (w : W) → fd ≢ q → laws.sent q (s.read fd size w).1 ≡ laws.sent q w
  pub apart_close :
      (fd : ℕ) (q : Fd) (w : W) → some fd ≢ q → laws.sent q (s.close fd w) ≡ laws.sent q w
