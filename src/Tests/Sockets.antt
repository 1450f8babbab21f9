-- ===== src/Tests/Sockets.antt =====
-- A system with one peer: what it will send, what it was sent, and what the other calls will give.
-- A call of `write` takes at most 5 bytes.
use kvmemo.Base.{
  ℕ, ◌≤◌, Str, List, [], ◌++◌, ◌≡◌, refl, Option, none, some, true, false, Outcome, returns, length,
  zero, suc, ◌∷◌, take, drop, ltb, arith, if◌then◌else◌,
}
use kvmemo.Net.Sockets.{Fd, Sockets, SocketLaws}
use kvmemo.Protocol.Buffer.{Buffer}

pub record World : Type 0 where
  -- `none` if the next call of `read` fails
  pub incoming : Option Str
  pub outgoing : Str
  pub ready : List Fd
  pub next : Fd

abbrev received : ℕ → World → Option Str → Option Str × World
received size w none = (none, w)
received size w (some bytes) =
    (some (take size bytes), record w { incoming = some (drop size bytes) })

abbrev pub at_most : Str → ℕ
at_most bytes = if ltb 5 (length bytes) then 5 else length bytes

abbrev pub peer : Sockets World
peer = record {
  socket = λ w. (some 3, w);
  bind = λ fd port w. (true, w);
  listen = λ fd backlog w. (true, w);
  accept = λ fd w. (w.next, w);
  read = λ fd size w. received size w w.incoming;
  write = λ fd bytes w.
      (some (at_most bytes), record w { outgoing = w.outgoing ++ take (at_most bytes) bytes });
  ended = λ w. false;
  close = λ fd w. w;
  select = λ fd fds w. (some w.ready, w);
}

length-take : (n : ℕ) (l : Str) → length (take n l) ≤ n
length-take zero l = omega arith
length-take (suc n) [] = omega arith
length-take (suc n) (x ∷ l) = omega (arith, length-take n l)

pub outgoing-received :
    (size : ℕ) (w : World) (o : Option Str) → (received size w o).1.outgoing ≡ w.outgoing
outgoing-received size w none = refl
outgoing-received size w (some bytes) = refl

pub length-received :
    (size : ℕ) (w : World) (o : Option Str) (bytes : Str)
    → (received size w o).0 ≡ some bytes
    → length bytes ≤ size
length-received size w none bytes h = absurd (cc h)
length-received size w (some l) bytes h = ground (arith, h, length-take size l)

pub length-written : (bytes : Str) (n : ℕ) → some (at_most bytes) ≡ some n → n ≤ length bytes
length-written bytes n h = ground (arith, h)

abbrev pub peer_laws : SocketLaws peer
peer_laws = record {
  sent = λ fd w. w.outgoing;
  length-write = λ fd bytes w n h. length-written bytes n h;
  sent-write = λ fd bytes w. refl;
  sent-read = λ fd size w. outgoing-received size w w.incoming;
  length-read = λ fd size w bytes h. length-received size w w.incoming bytes h;
}

-- A read beyond the array changes nothing.
abbrev pub overread : Buffer → Outcome (Unit {0}) × Buffer
overread b = (returns tt, b)
