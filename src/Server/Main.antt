-- ===== src/Server/Main.antt =====
-- src/main.cpp: `main`. `stoi` is that of the C++ library, a parameter. What is written to
-- `std::cout` and `std::cerr`, and what the destructors close, is left out.
use kvmemo.Base.{
  ℕ, Str, List, [], ◌∷◌, ◌≡◌, ◌⊎◌, refl, ap, inl, inr, Option, none, some, Outcome, returns, throws,
  Exn, runtime_error, true, if◌then◌else◌, Bool-cases, subst, sym,
}
use kvmemo.Core.Lru.{LruCache}
use kvmemo.Eviction.Policy.{lru_policy}
use kvmemo.Net.Sockets.{Sockets, SocketLaws}
use kvmemo.Protocol.Buffer.{Buffer}
use kvmemo.Server.App as App
use kvmemo.Server.App.{App}
use kvmemo.Server.App.Rounds.{IsReady}
use kvmemo.Server.App.Rounds.Run.{run-Ends}
use kvmemo.Server.App.Select.{run}
use kvmemo.Server.App.Startup.{started, new-started}
use kvmemo.Server.Dispatcher.{Times}

-- What has become of the process: it serves, it has returned a code, or an exception that nothing
-- catches, or SIGPIPE, has ended it.
pub data Process : Type 0 where
  serving : App LruCache → Process
  exited : ℕ → Process
  terminated : Exn → Process
  killed : Process

-- The words of the command line, the program's name first. `stoi` gives the 32 bits of an `int`, a
-- negative one as 2 ^ 32 less its absolute value; `htons` keeps 16 of them.
unfoldable pub port_of : (Str → Outcome ℕ) → List Str → Outcome ℕ
port_of stoi [] = returns 6379
port_of stoi (name ∷ []) = returns 6379
port_of stoi (name ∷ port ∷ words) = stoi port

module _ {W : Type 0} (hash : Str → ℕ) (sys : Sockets W)
    (overread : Buffer → Outcome (Unit {0}) × Buffer) (stoi : Str → Outcome ℕ) where
  -- What follows `Run`, if SIGPIPE has not ended the process: the handler returns 1.
  abbrev pub caught : Option (Outcome (Unit {0}) × App LruCache × W) → Option Process
  caught none = none
  caught (some (throws x, a, w)) = if sys.ended w then some killed else some (exited 1)
  caught (some (returns _, a, w)) = if sys.ended w then some killed else some (serving a)

  -- the block under `try`
  abbrev pub tried : ℕ → (ℕ → ℕ) → (ℕ → ℕ → ℕ → Times) → W → Outcome (App LruCache) → Option Process
  tried n fuels times w (throws x) = some (exited 1)
  tried n fuels times w (returns server) =
      caught (run hash lru_policy sys overread n fuels times server w)

  -- `main`, with the first `n` rounds of `Run`
  unfoldable pub main : ℕ → (ℕ → ℕ) → (ℕ → ℕ → ℕ → Times) → List Str → W → Option Process
  main n fuels times words w = elim (port_of stoi words) [
    | throws x ↦ some (terminated x)
    | returns port ↦ tried n fuels times w (App.new port)
  ]

  -- The process serves with a valid server, or it has returned 1, or SIGPIPE has ended it.
  abbrev pub Serves : Option Process → Type 0
  Serves o =
      ((a : App LruCache) × (o ≡ some (serving a)) × IsReady hash a)
      ⊎ ((o ≡ some (exited 1)) ⊎ (o ≡ some killed))

  caught-Serves :
      (r : Outcome (Unit {0})) (a : App LruCache) (w : W)
      → (sys.ended w ≡ true) ⊎ IsReady hash a × ((r ≡ returns tt) ⊎ (r ≡ throws runtime_error))
      → Serves (caught (some (r, a, w)))
  caught-Serves (throws x) a w (inl h) = rw h (inr (inr refl))
  caught-Serves (returns _) a w (inl h) = rw h (inr (inr refl))
  caught-Serves (throws x) a w (inr (v, q)) = elim (Bool-cases (sys.ended w)) [
    | inl h ↦ rw h (inr (inr refl))
    | inr h ↦ rw h (inr (inl refl))
  ]
  caught-Serves (returns _) a w (inr (v, q)) = elim (Bool-cases (sys.ended w)) [
    | inl h ↦ rw h (inr (inr refl))
    | inr h ↦ rw h (inl (a, refl, v))
  ]

  module _ (laws : SocketLaws sys) where
    -- If the command line gives a port, for every number of rounds there is fuel with which `main`
    -- ends in one of three ways: it gets through these rounds and serves with a valid engine and
    -- valid connections, or it has returned 1 before, or SIGPIPE, which a `write` to a closed peer
    -- raises, has ended the process. The read beyond an array that follows a failed `read` is
    -- taken to return or to throw, with no effect but on the input buffer.
    pub main-Serves :
        (n port : ℕ) (times : ℕ → ℕ → ℕ → Times) (words : List Str) (w : W)
        → port_of stoi words ≡ returns port
        → (fuels : ℕ → ℕ) × Serves (main n fuels times words w)
    unfolding main
    main-Serves n port times words w h =
        let (new, v) = new-started hash port in
        let (fuels, (r, a', w', e, q)) =
          run-Ends hash lru_policy sys overread laws n times (started port) w v in
        (fuels, subst Serves (sym (rw (h, main, new) (ap caught e))) (caught-Serves r a' w' q))

  -- A port that is no number ends the process by the exception: `stoi` stands outside the `try`.
  main_terminated :
      (n : ℕ) (fuels : ℕ → ℕ) (times : ℕ → ℕ → ℕ → Times) (name word : Str) (words : List Str)
      (w : W) (x : Exn)
      → stoi word ≡ throws x
      → main n fuels times (name ∷ word ∷ words) w ≡ some (terminated x)
  unfolding main port_of
  main_terminated n fuels times name word words w x h = rw (h, main) refl
