-- ===== src/Server/App/Rounds/Loop.antt =====
-- src/server/server_app.h: each round of the loop of `Run` ends and leaves the server valid.
use kvmemo.Base.{
  ℕ, suc, ◌+◌, ◌<◌, Str, List, [], ◌∷◌, map, ◌≡◌, ◌⊎◌, refl, sym, ap, ◌∙◌, subst, Option, none,
  some, Outcome, returns, throws, runtime_error, length, arith, lookup, ℕ_eq, Option-cases, inl,
  inr, Unique, Distinct, contains, is_some, Bool, true, false, if◌then◌else◌,
}
use kvmemo.Base.Assoc
use kvmemo.Base.Assoc.{emplace}
use kvmemo.Eviction.Policy.{EvictionPolicy}
use kvmemo.Net.Connection as Connection
use kvmemo.Net.Connection.{Connection}
use kvmemo.Net.Connection.Pipe as Pipe
use kvmemo.Net.Connections as Manager
use kvmemo.Net.Sockets.{Fd, Sockets, SocketLaws}
use kvmemo.Net.TcpServer
use kvmemo.Net.TcpServer.{TcpServer, admitted}
use kvmemo.Protocol.Buffer.{Buffer, readable}
use kvmemo.Server.Dispatcher.{Times}
use kvmemo.Server.App.{App, connection_safe_process}
use kvmemo.Server.App.Select.{
  process_each, is_set, process_connections, selected, accepted, returning,
}
use kvmemo.Server.App.Isolation.{Others, connection_safe_process-Others}
use kvmemo.Server.App.Rounds.{IsReady, HasFuel, Ends, connection_safe_process-Ends}

pub contains-keys :
    {V : Type 0} (q : ℕ) (m : List (ℕ × V)) → contains q (map (λ p. p.0) m) ≡ is_some (lookup q m)
unfolding contains lookup
contains-keys q [] = refl
contains-keys q ((k, v) ∷ m) = ground (arith, contains-keys q m)

pub keys-Distinct : {V : Type 0} (m : List (ℕ × V)) → Unique m → Distinct (map (λ p. p.0) m)
keys-Distinct [] u = tt
keys-Distinct ((k, v) ∷ m) u = (contains-keys k m ∙ ap is_some u.0, keys-Distinct m u.1)

emplace-Unique : {V : Type 0} (k : ℕ) (v : V) (m : List (ℕ × V)) → Unique m → Unique (emplace k v m)
unfolding emplace
emplace-Unique k v m u = elim (Option-cases (lookup k m)) [
  | inl e ↦ rw (e, emplace) (Assoc.insert-Unique k v m u)
  | inr (w, e) ↦ rw (e, emplace) u
]

pub add-cases :
    {V : Type 0} (fd q : ℕ) (new v : V) (m : List (ℕ × V))
    → lookup q (Manager.add fd new m) ≡ some v
    → (lookup q m ≡ some v) ⊎ (new ≡ v)
unfolding Manager.add
add-cases fd q new v m h = ground (arith, h, Assoc.lookup-emplace fd q new m)

add-Unique :
    {V : Type 0} (fd : ℕ) (new : V) (m : List (ℕ × V)) → Unique m → Unique (Manager.add fd new m)
unfolding Manager.add
add-Unique fd new m u = emplace-Unique fd new m u

module _ (hash : Str → ℕ) {P W : Type 0} (policy : EvictionPolicy P) (sys : Sockets W)
    (overread : Buffer → Outcome (Unit {0}) × Buffer) (laws : SocketLaws sys) where
  -- The fuel is enough for each of the connections in the list.
  abbrev pub AllFuel : ℕ → List ℕ → App P → Type 0
  AllFuel fuel fds a = (q : ℕ) → contains q fds ≡ true → HasFuel hash fuel q a

  pub one-Ends :
      (fuel : ℕ) (times : ℕ → Times) (b : Bool) (fd : ℕ) (a : App P) (w : W)
      → IsReady hash a
      → HasFuel hash fuel fd a
      → (a' : App P) × (w' : W) × ((if b
            then connection_safe_process hash policy sys overread fuel times fd a w
            else some (a, w))
          ≡ some (a', w'))
        × IsReady hash a'
        × Others hash policy sys fd a a'
  one-Ends fuel times false fd a w v h = (a, w, refl, v, λ q n. refl)
  one-Ends fuel times true fd a w v h =
      let (a', w', p, v') =
        connection_safe_process-Ends hash policy sys overread laws fuel times fd a w v h in
      (
        a',
        w',
        p,
        v',
        connection_safe_process-Others hash policy sys overread fuel times fd a w a' w' p,
      )

  pub process_each-Ends :
      (fuel : ℕ) (times : ℕ → ℕ → Times) (ready : List Fd) (fds : List ℕ) (a : App P) (w : W)
      → Distinct fds
      → IsReady hash a
      → AllFuel fuel fds a
      → Ends hash policy sys overread laws
          (process_each hash policy sys overread fuel times ready fds a w)
  unfolding process_each contains
  process_each-Ends fuel times ready [] a w d v h = (a, w, refl, v)
  process_each-Ends fuel times ready (fd ∷ fds) a w d v h =
      let (a', w', p, v', others) =
        one-Ends fuel (times 0) (is_set hash policy sys overread (some fd) ready) fd a w v
          (h fd (ground arith)) in
      rw (p, process_each)
        (process_each-Ends fuel (λ k. times (suc k)) ready fds a' w' d.1 v'
          (λ q i c e. h q (ground arith) c (sym (others q (λ same. cc (d.0, i, same))) ∙ e)))

  -- The fuel is more than the bytes that any connection can hold after one read.
  abbrev pub EnoughFuel : ℕ → App P → Type 0
  EnoughFuel fuel a = (4096 < fuel) × ((q : ℕ) → HasFuel hash fuel q a)

  -- A round ends, and throws only if `accept` fails.
  abbrev pub RoundEnds : Fd → Option (Outcome (Unit {0}) × App P × W) → Type 0
  RoundEnds new o =
      (r : Outcome (Unit {0})) × (a' : App P) × (w' : W) × (o ≡ some (r, a', w'))
      × IsReady hash a'
      × ((r ≡ returns tt) ⊎ (r ≡ throws runtime_error) × (new ≡ none))

  returning-RoundEnds :
      (new : Fd) (o : Option (App P × W))
      → Ends hash policy sys overread laws o
      → RoundEnds new (returning hash policy sys overread o)
  returning-RoundEnds new o (a', w', p, v) = rw p (returns tt, a', w', refl, v, inl refl)

  -- The server after `Accept` of a new client.
  abbrev pub with_client : ℕ → App P → App P
  with_client fd a = record a {
    server = record a.server {
      connections = Manager.add fd (Connection.new (some fd)) a.server.connections;
    };
  }

  new-IsValid : (fd : ℕ) → Pipe.IsValid (Connection.new (some fd))
  new-IsValid fd = (omega arith, omega arith)

  pub with_client-IsReady : (fd : ℕ) (a : App P) → IsReady hash a → IsReady hash (with_client fd a)
  with_client-IsReady fd a v = record {
    engine_valid = v.engine_valid;
    unique = add-Unique fd (Connection.new (some fd)) a.server.connections v.unique;
    valid = λ q c e. elim (add-cases fd q (Connection.new (some fd)) c a.server.connections e) [
      | inl e' ↦ v.valid q c e'
      | inr n ↦ subst Pipe.IsValid n (new-IsValid fd)
    ];
  }

  pub with_client-fuel :
      (fuel fd : ℕ) (a : App P)
      → EnoughFuel fuel a
      → (q : ℕ) → HasFuel hash fuel q (with_client fd a)
  unfolding readable
  with_client-fuel fuel fd a h q c e =
      elim (add-cases fd q (Connection.new (some fd)) c a.server.connections e) [
        | inl e' ↦ h.1 q c e'
        | inr n ↦ subst (λ d. length (readable d.input_buffer) + 4096 < fuel) n h.0
      ]

  accepted-RoundEnds :
      (fuel : ℕ) (times : ℕ → ℕ → Times) (ready : List Fd) (a : App P) (new : Fd × W)
      → Distinct a.active_fds
      → IsReady hash a
      → EnoughFuel fuel a
      → RoundEnds new.0
          (accepted hash policy sys overread fuel times ready a (admitted sys new a.server))
  accepted-RoundEnds fuel times ready a (none, w) d v h = (_, _, _, refl, v, inr (refl, refl))
  accepted-RoundEnds fuel times ready a (some fd, w) d v h = returning-RoundEnds (some fd) _ (
      process_each-Ends fuel times ready a.active_fds (with_client fd a) _ d
        (with_client-IsReady fd a v) (λ q i. with_client-fuel fuel fd a h q))

  -- With more fuel than the bytes that any connection can hold after one read, a round of a valid
  -- server, in which SIGPIPE does not end the process, ends and leaves a valid server. It returns,
  -- or `accept` has failed and it throws `runtime_error`.
  pub process_connections-Ends :
      (fuel : ℕ) (times : ℕ → ℕ → Times) (a : App P) (w : W)
      → IsReady hash a
      → EnoughFuel fuel a
      → RoundEnds
          (sys.accept a.server.listen_fd
            (sys.select a.server.listen_fd (map (λ p. p.0) a.server.connections) w).1).0
          (process_connections hash policy sys overread fuel times a w)
  unfolding process_connections TcpServer.accept
  process_connections-Ends fuel times a w v h =
      go (sys.select a.server.listen_fd (map (λ p. p.0) a.server.connections) w)
    where
      a1 : App P
      a1 = record a { active_fds = map (λ p. p.0) a.server.connections }

      d : Distinct a1.active_fds
      d = keys-Distinct a.server.connections v.unique

      v1 : IsReady hash a1
      v1 = record { engine_valid = v.engine_valid; unique = v.unique; valid = v.valid }

      go :
          (p : Option (List Fd) × W)
          → RoundEnds
              (sys.accept a.server.listen_fd p.1).0
              (selected hash policy sys overread fuel times a1 p)
      go (none, w') = (_, _, _, refl, v1, inl refl)
      go (some ready, w') = pick (is_set hash policy sys overread a.server.listen_fd ready)
        where
          pick :
              (b : Bool)
              → RoundEnds (sys.accept a.server.listen_fd w').0 (
                  if b
                  then accepted hash policy sys overread fuel times ready a1
                      (admitted sys (sys.accept a.server.listen_fd w') a.server)
                  else returning hash policy sys overread
                      (process_each hash policy sys overread fuel times ready a1.active_fds a1 w'))
          pick true =
              accepted-RoundEnds fuel times ready a1 (sys.accept a.server.listen_fd w') d v1 h
          pick false =
              returning-RoundEnds _ _
                (process_each-Ends fuel times ready a1.active_fds a1 w' d v1 (λ q i. h.1 q))
