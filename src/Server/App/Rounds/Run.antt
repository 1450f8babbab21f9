-- ===== src/Server/App/Rounds/Run.antt =====
-- src/server/server_app.h: `Run`, from its start through any number of rounds.
use kvmemo.Base.{
  ℕ, zero, suc, ◌+◌, ◌≤◌, Str, List, [], ◌∷◌, ◌≡◌, ◌⊎◌, refl, sym, ap, ◌∙◌, Option, none, some,
  Outcome, returns, throws, runtime_error, length, arith, lookup, ℕ_eq, Bool, true, false,
  if◌then◌else◌, subst, Unique, inl, inr, Bool-cases,
}
use kvmemo.Eviction.Policy.{EvictionPolicy}
use kvmemo.Net.Connection.{Connection}
use kvmemo.Net.Sockets.{Fd, Sockets, SocketLaws}
use kvmemo.Net.TcpServer
use kvmemo.Net.TcpServer.{TcpServer}
use kvmemo.Net.TcpServer.Opening.{start_lem}
use kvmemo.Protocol.Buffer.{Buffer, readable}
use kvmemo.Server.Dispatcher.{Times}
use kvmemo.Server.App.{App}
use kvmemo.Server.App.Select.{process_connections, rounds, running, run}
use kvmemo.Server.App.Rounds.{IsReady}
use kvmemo.Server.App.Rounds.Loop.{EnoughFuel, process_connections-Ends}

-- the bytes that all connections hold
unfoldable total : List (ℕ × Connection) → ℕ
total [] = 0
total ((fd, c) ∷ m) = length (readable c.input_buffer) + total m

total-lookup :
    (q : ℕ) (c : Connection) (m : List (ℕ × Connection))
    → lookup q m ≡ some c
    → length (readable c.input_buffer) ≤ total m
unfolding total lookup
total-lookup q c [] h = absurd (cc h)
total-lookup q c ((fd, d) ∷ m) h = ground (arith, h, total-lookup q c m)

module _ (hash : Str → ℕ) {P W : Type 0} (policy : EvictionPolicy P) (sys : Sockets W)
    (overread : Buffer → Outcome (Unit {0}) × Buffer) (laws : SocketLaws sys) where
  total-EnoughFuel :
      (a : App P) → EnoughFuel hash policy sys overread laws (total a.server.connections + 4097) a
  total-EnoughFuel a =
      (omega arith, λ q c e. omega (arith, total-lookup q c a.server.connections e))

  -- A run ends: SIGPIPE has ended the process, or the server is valid, and the run throws only what
  -- a failing system call makes it throw.
  abbrev pub RunEnds : Option (Outcome (Unit {0}) × App P × W) → Type 0
  RunEnds o =
      (r : Outcome (Unit {0})) × (a' : App P) × (w' : W) × (o ≡ some (r, a', w'))
      × ((sys.ended w' ≡ true) ⊎ IsReady hash a' × ((r ≡ returns tt) ⊎ (r ≡ throws runtime_error)))

  prefix : ℕ → (ℕ → ℕ) → ℕ → ℕ
  prefix fuel fuels zero = fuel
  prefix fuel fuels (suc k) = fuels k

  Runs : ℕ → (ℕ → ℕ → ℕ → Times) → App P → W → Type 0
  Runs n times a w = (fuels : ℕ → ℕ) × RunEnds (rounds hash policy sys overread n fuels times a w)

  -- the rounds after the first one
  rounds_next :
      (n fuel : ℕ) (times : ℕ → ℕ → ℕ → Times) (a : App P) (w : W) (r : Outcome (Unit {0}))
      (a' : App P) (w' : W)
      → process_connections hash policy sys overread fuel (times 0) a w ≡ some (r, a', w')
      → IsReady hash a'
      → (r ≡ returns tt) ⊎ (r ≡ throws runtime_error)
      → Runs n (λ k. times (suc k)) a' w'
      → Runs (suc n) times a w
  unfolding Runs rounds prefix
  rounds_next n fuel times a w (throws x) a' w' p v' q more =
      (prefix fuel (λ _. 0), (throws x, a', w', rw (p, rounds) refl, inr (v', q)))
  rounds_next n fuel times a w (returns _) a' w' p v' q more = elim (Bool-cases (sys.ended w')) [
    | inl h ↦ (prefix fuel (λ _. 0), (returns tt, a', w', rw (p, rounds, h) refl, inl h))
    | inr h ↦
        let (fuels, (r, a2, w2, e, q2)) = more in
        (prefix fuel fuels, (r, a2, w2, rw (p, rounds, h) e, q2))
  ]

  only_runtime_error :
      (r : Outcome (Unit {0})) (new : Fd)
      → (r ≡ returns tt) ⊎ (r ≡ throws runtime_error) × (new ≡ none)
      → (r ≡ returns tt) ⊎ (r ≡ throws runtime_error)
  only_runtime_error r new (inl e) = inl e
  only_runtime_error r new (inr (e, _)) = inr e

  rounds-Ends :
      (n : ℕ) (times : ℕ → ℕ → ℕ → Times) (a : App P) (w : W) → IsReady hash a → Runs n times a w
  unfolding Runs rounds
  rounds-Ends zero times a w v = (λ _. 0, (returns tt, a, w, refl, inr (v, inl refl)))
  rounds-Ends (suc n) times a w v =
      let fuel = total a.server.connections + 4097 in
      let (r, a', w', p, v', q) =
        process_connections-Ends hash policy sys overread laws fuel (times 0) a w v
          (total-EnoughFuel a) in
      rounds_next n fuel times a w r a' w' p v' (only_runtime_error r _ q)
        (rounds-Ends n (λ k. times (suc k)) a' w' v')

  start_outcome :
      (b : Bool) (r : Outcome (Unit {0}))
      → r ≡ (if b then returns tt else throws runtime_error)
      → (r ≡ returns tt) ⊎ (r ≡ throws runtime_error)
  start_outcome true r e = inl e
  start_outcome false r e = inr e

  server-IsReady :
      (a : App P) (s : TcpServer)
      → s.connections ≡ a.server.connections
      → IsReady hash a
      → IsReady hash (record a { server = s })
  server-IsReady a s e v = record {
    engine_valid = v.engine_valid;
    unique = subst Unique (sym e) v.unique;
    valid = λ q c h. v.valid q c (ap (lookup q) (sym e) ∙ h);
  }

  running-Ends :
      (n : ℕ) (times : ℕ → ℕ → ℕ → Times) (a : App P) (p : Outcome (Unit {0}) × TcpServer × W)
      → IsReady hash a
      → (p.0 ≡ returns tt) ⊎ (p.0 ≡ throws runtime_error)
      → p.1.connections ≡ a.server.connections
      → (fuels : ℕ → ℕ) × RunEnds (running hash policy sys overread n fuels times a p)
  unfolding Runs
  running-Ends n times a (throws x, s, w) v q e =
      (λ _. 0, (throws x, record a { server = s }, w, refl, inr (server-IsReady a s e v, q)))
  running-Ends n times a (returns _, s, w) v q e =
      rounds-Ends n times (record a { server = s }) w (server-IsReady a s e v)

  -- For every number of rounds there is fuel with which `Run` of a valid server ends: SIGPIPE,
  -- which a `write` to a closed peer raises, has ended the process, or `Run` gets through these
  -- rounds, or it ends with `runtime_error` before. In the last two cases the engine and all
  -- connections are valid. The read beyond an array that follows a failed `read` is taken to
  -- return or to throw, with no effect but on the input buffer.
  pub run-Ends :
      (n : ℕ) (times : ℕ → ℕ → ℕ → Times) (a : App P) (w : W)
      → IsReady hash a
      → (fuels : ℕ → ℕ) × RunEnds (run hash policy sys overread n fuels times a w)
  unfolding run
  run-Ends n times a w v =
      let s = start_lem sys a.server w in
      running-Ends n times a (TcpServer.start sys a.server w) v (start_outcome _ _ s.0) s.2
