-- ===== src/Tests/Peers.antt =====
-- A server with two clients, on descriptors 5 and 6, which both have sent a line.
use kvmemo.Base.{
  ℕ, ◌+◌, ◌<◌, ◌≤◌, Str, str, List, [], ◌∷◌, ◌++◌, ◌≡◌, ◌≢◌, refl, sym, ap, none, some, true, false,
  Bool, length, take, arith, lookup, ℕ_eq, ℕ_discrete, ◌==◌, if◌then◌else◌, subst, returns,
}
use kvmemo.Core.Lru.{LruCache}
use kvmemo.Eviction.Policy.{lru_policy}
use kvmemo.Net.Connection as Connection
use kvmemo.Net.Connection.{Connection}
use kvmemo.Net.Connection.Pipe as Pipe
use kvmemo.Net.Sockets.{Fd, Sockets, SocketLaws, ApartLaws}
use kvmemo.Protocol.Buffer.{readable}
use kvmemo.Server.App.{App}
use kvmemo.Server.App.Rounds.{IsReady}
use kvmemo.Server.App.Rounds.Round
use kvmemo.Server.App.Rounds.Clients.{RoundSettles}
use kvmemo.Server.App.Select.{is_set, process_connections}
use kvmemo.Tests.Engines.{hash, one, one-IsValid}
use kvmemo.Tests.Rounds.{noons}
use kvmemo.Tests.Sockets.{overread}

-- What was sent to each descriptor. Every `read` gives a line, and `write` takes all bytes.
abbrev World : Type 0
World = Fd → Str

same : Fd → Fd → Bool
same none none = true
same (some a) (some b) = a == b
same _ _ = false

abbrev line : Str
line = str "GET a\r\n"

clients : Sockets World
unfolding same
clients = record {
  socket = λ w. (none, w);
  bind = λ fd port w. (true, w);
  listen = λ fd backlog w. (true, w);
  accept = λ fd w. (none, w);
  read = λ fd size w. (some (take size line), w);
  write = λ fd bytes w. (some (length bytes), λ q. if same fd q then w q ++ bytes else w q);
  ended = λ w. false;
  close = λ fd w. w;
  select = λ fd fds w. (some (some 5 ∷ some 6 ∷ []), w);
}

same_self : (fd : Fd) → same fd fd ≡ true
unfolding same
same_self none = refl
same_self (some a) = ground arith

same_ne : (a b : Fd) → a ≢ b → same a b ≡ false
unfolding same
same_ne none none n = absurd (n refl)
same_ne none (some b) n = refl
same_ne (some a) none n = refl
same_ne (some a) (some b) n = ground (arith, n)

take_all : (l : Str) → take (length l) l ≡ l
take_all [] = refl
take_all (x ∷ l) = ap (◌∷◌ x) (take_all l)

length-take : (n : ℕ) (l : Str) → length (take n l) ≤ n
length-take ℕ.zero l = omega arith
length-take (ℕ.suc n) [] = omega arith
length-take (ℕ.suc n) (x ∷ l) = omega (arith, length-take n l)

length-write : (l : Str) (n : ℕ) → some (length l) ≡ some n → n ≤ length l
length-write l n h = ground (arith, h)

length-read : (size : ℕ) (l : Str) → some (take size line) ≡ some l → length l ≤ size
length-read size l h = ground (arith, h, length-take size line)

abbrev clients_laws : SocketLaws clients
unfolding clients
clients_laws = record {
  sent = λ fd w. w fd;
  length-write = λ fd bytes w n h. length-write bytes n h;
  sent-write = λ fd bytes w. rw (same_self fd, take_all bytes) refl;
  sent-read = λ fd size w. refl;
  length-read = λ fd size w bytes h. length-read size bytes h;
}

clients_apart : ApartLaws clients clients_laws
unfolding clients
clients_apart = record {
  apart_write = λ fd q bytes w n. rw (same_ne fd q n) refl;
  apart_read = λ fd q size w n. refl;
  apart_close = λ fd q w n. refl;
}

abbrev busy : App LruCache
busy = record {
  server = record {
    port = 6379;
    listen_fd = some 3;
    connections = (5, Connection.new (some 5)) ∷ (6, Connection.new (some 6)) ∷ [];
  };
  engine = one;
  active_fds = [];
}

busy-new :
    (q : ℕ) (c : Connection)
    → lookup q busy.server.connections ≡ some c
    → Connection.new (some q) ≡ c
unfolding lookup
busy-new q c h = ground (arith, h)

new-IsValid : (fd : Fd) → Pipe.IsValid (Connection.new fd)
new-IsValid fd = (omega arith, omega arith)

busy-IsReady : IsReady hash busy
unfolding lookup ℕ_discrete
busy-IsReady = record {
  engine_valid = one-IsValid;
  unique = (refl, (refl, tt));
  valid = λ q c h. subst Pipe.IsValid (busy-new q c h) (new-IsValid (some q));
}

busy-six : lookup 6 busy.server.connections ≡ some (Connection.new (some 6))
unfolding lookup ℕ_discrete
busy-six = refl

process_connections-RoundSettles_example :
    let all : List ℕ = 5 ∷ 6 ∷ [] in
    (s : RoundSettles hash lru_policy clients overread clients_laws clients_apart 5000 noons
      (some 5 ∷ some 6 ∷ [])
      all
      6
      (Connection.new (some 6))
      (record busy { active_fds = all })
      (λ fd. []))
    × (process_connections hash lru_policy clients overread 5000 noons busy (λ fd. [])
        ≡ some (returns tt, s.0, s.1))
unfolding clients is_set readable
process_connections-RoundSettles_example =
    Round.process_connections-RoundSettles hash lru_policy clients overread clients_laws
      clients_apart 5000 noons busy (λ fd. []) (some 5 ∷ some 6 ∷ []) 6 (Connection.new (some 6))
      refl refl refl busy-IsReady
      (
        omega arith,
        λ q c h.
            subst (λ d. length (readable d.input_buffer) + 4096 < 5000) (busy-new q c h)
              (omega arith),
      )
      (λ q c h. ap (λ d. d.fd) (sym (busy-new q c h))) busy-six
