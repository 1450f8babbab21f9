-- ===== src/Server/App/Select.antt =====
-- src/server/server_app.h: the rounds of `Run`, each with a call of `select`. `times i k` are the
-- readings of the clock for the command `k` of the `i`-th connection of a round.
use kvmemo.Base.{
  ℕ, zero, suc, Str, List, [], ◌∷◌, Option, none, some, Bool, true, false, Outcome, returns, throws,
  ℕ_eq, if◌then◌else◌, map, ◌==◌, ◌||◌,
}
use kvmemo.Eviction.Policy.{EvictionPolicy}
use kvmemo.Net.Sockets.{Fd, Sockets}
use kvmemo.Net.TcpServer
use kvmemo.Net.TcpServer.{TcpServer}
use kvmemo.Protocol.Buffer.{Buffer}
use kvmemo.Server.Dispatcher.{Times}
use kvmemo.Server.App.{App, connection_safe_process}

module _ (hash : Str → ℕ) {P W : Type 0} (policy : EvictionPolicy P) (sys : Sockets W)
    (overread : Buffer → Outcome (Unit {0}) × Buffer) where
  abbrev pub same_fd : Fd → Fd → Bool
  same_fd none none = true
  same_fd (some a) (some b) = a == b
  same_fd _ _ = false

  unfoldable pub is_set : Fd → List Fd → Bool
  is_set fd [] = false
  is_set fd (x ∷ ready) = same_fd fd x || is_set fd ready

  -- The loop over the descriptors, of which the ready ones are served.
  unfoldable pub process_each :
      ℕ → (ℕ → ℕ → Times) → List Fd → List ℕ → App P → W → Option (App P × W)
  unfolding connection_safe_process is_set
  process_each fuel times ready [] a w = some (a, w)
  process_each fuel times ready (fd ∷ fds) a w =
      let next =
        if is_set (some fd) ready
        then connection_safe_process hash policy sys overread fuel (times 0) fd a w
        else some (a, w) in
      elim next [
        | none ↦ none
        | some (a', w') ↦ process_each fuel (λ k. times (suc k)) ready fds a' w'
      ]

  abbrev pub returning : Option (App P × W) → Option (Outcome (Unit {0}) × App P × W)
  returning none = none
  returning (some (a, w)) = some (returns tt, a, w)

  -- after `Accept`
  abbrev pub accepted :
      ℕ
      → (ℕ → ℕ → Times)
      → List Fd
      → App P
      → Outcome (Unit {0}) × TcpServer × W
      → Option (Outcome (Unit {0}) × App P × W)
  accepted fuel times ready a (throws x, s, w) = some (throws x, record a { server = s }, w)
  accepted fuel times ready a (returns _, s, w) =
      returning (process_each fuel times ready a.active_fds (record a { server = s }) w)

  -- after `select`
  abbrev pub selected :
      ℕ → (ℕ → ℕ → Times) → App P → Option (List Fd) × W → Option (Outcome (Unit {0}) × App P × W)
  selected fuel times a (none, w) = some (returns tt, a, w)
  selected fuel times a (some ready, w) =
      if is_set a.server.listen_fd ready
      then accepted fuel times ready a (TcpServer.accept sys a.server w)
      else returning (process_each fuel times ready a.active_fds a w)

  -- The descriptors are taken to be below FD_SETSIZE; `FD_SET` of another one is not defined.
  unfoldable pub process_connections :
      ℕ → (ℕ → ℕ → Times) → App P → W → Option (Outcome (Unit {0}) × App P × W)
  unfolding process_each
  process_connections fuel times a w =
      let fds = map (λ p. p.0) a.server.connections in
      selected fuel times (record a { active_fds = fds }) (sys.select a.server.listen_fd fds w)

  -- The first `n` rounds of the loop of `Run`, each with its own fuel; a round that throws, or in
  -- which SIGPIPE ends the process, is the last one.
  unfoldable pub rounds :
      (n : ℕ) → (ℕ → ℕ) → (ℕ → ℕ → ℕ → Times) → App P → W → Option (Outcome (Unit {0}) × App P × W)
  unfolding process_connections
  rounds zero fuels times a w = some (returns tt, a, w)
  rounds (suc n) fuels times a w = elim (process_connections (fuels 0) (times 0) a w) [
    | none ↦ none
    | some (throws x, a', w') ↦ some (throws x, a', w')
    | some (returns _, a', w') ↦
        let rest = rounds n (λ k. fuels (suc k)) (λ k. times (suc k)) a' w' in
        if sys.ended w' then some (returns tt, a', w') else rest
  ]

  -- after `Start`
  abbrev pub running :
      ℕ
      → (ℕ → ℕ)
      → (ℕ → ℕ → ℕ → Times)
      → App P
      → Outcome (Unit {0}) × TcpServer × W
      → Option (Outcome (Unit {0}) × App P × W)
  running n fuels times a (throws x, s, w) = some (throws x, record a { server = s }, w)
  running n fuels times a (returns _, s, w) = rounds n fuels times (record a { server = s }) w

  -- `Run` up to its `n`-th round
  unfoldable pub run :
      ℕ → (ℕ → ℕ) → (ℕ → ℕ → ℕ → Times) → App P → W → Option (Outcome (Unit {0}) × App P × W)
  unfolding rounds
  run n fuels times a w = running n fuels times a (TcpServer.start sys a.server w)
