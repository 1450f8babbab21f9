-- ===== src/Tests/Rounds.antt =====
-- The rounds of a server, and sessions of a client with it.
use kvmemo.Base.{
  ℕ, Outcome, ◌+◌, ◌<◌, Str, str, [], ◌++◌, ◌≡◌, refl, none, some, returns, arith, length, lookup,
  ℕ_eq, subst, List, ◌∷◌,
}
use kvmemo.Core.Lru.{LruCache}
use kvmemo.Eviction.Policy.{lru_policy}
use kvmemo.Net.Connection.{Connection}
use kvmemo.Net.Connection.Pipe as Pipe
use kvmemo.Protocol.Buffer.{readable}
use kvmemo.Protocol.Framing.Chunks.{frames}
use kvmemo.Protocol.Framing.Split.{split}
use kvmemo.Protocol.Parser.{parse, tokenize, scan}
use kvmemo.Server.Main
use kvmemo.Server.Dispatcher.{Times}
use kvmemo.Server.App.{App, Session, serve}
use kvmemo.Server.App.Select.{run}
use kvmemo.Server.App.Frames.{run_frames, run_frames-returns, AllRequests}
use kvmemo.Server.App.Serving.{Unless, session_output}
use kvmemo.Server.App.Rounds.{IsReady}
use kvmemo.Server.App.Rounds.Loop.{EnoughFuel}
use kvmemo.Server.App.Rounds.Run
use kvmemo.Server.App.Rounds.Run.{RunEnds}
use kvmemo.Server.App.Cuts
use kvmemo.Server.App.Cuts.{arrive, input, times_after}
use kvmemo.Server.App.EndToEnd
use kvmemo.Server.App.EndToEnd.{set_and_get}
use kvmemo.Server.App.Startup
use kvmemo.Server.App.Startup.{started}
use kvmemo.Tests.Engines.{hash, one, one-IsValid}
use kvmemo.Tests.Sessions.{sends, noon, link, serving, calling, link-IsValid}
use kvmemo.Tests.Sockets.{World, peer, peer_laws, overread}

serving-only : (q : ℕ) (c : Connection) → lookup q serving.server.connections ≡ some c → link ≡ c
unfolding lookup
serving-only q c h = ground (arith, h)

serving-IsReady : IsReady hash serving
unfolding lookup
serving-IsReady = record {
  engine_valid = one-IsValid;
  unique = (refl, tt);
  valid = λ q c h. subst Pipe.IsValid (serving-only q c h) link-IsValid;
}

serving-fuel : EnoughFuel hash lru_policy peer overread peer_laws 5000 serving
unfolding lookup readable
serving-fuel = (
  omega arith,
  λ q c h.
      subst (λ c. length (readable c.input_buffer) + 4096 < 5000) (serving-only q c h)
        (omega arith),
)

abbrev pub noons : ℕ → ℕ → Times
noons i k = noon k

abbrev days : ℕ → ℕ → ℕ → Times
days n i k = noon k

run-Ends_example :
    (fuels : ℕ → ℕ) × RunEnds hash lru_policy peer overread peer_laws
      (run hash lru_policy peer overread 3 fuels days (started 6379) calling)
run-Ends_example =
    Run.run-Ends hash lru_policy peer overread peer_laws 3 days (started 6379) calling
      (Startup.new-started hash 6379).1

abbrev written : Str
written = set_and_get hash lru_policy peer overread peer_laws (str "k") (str "12")

-- The two lines arrive in two pieces.
abbrev calm : Session LruCache World
calm = record { connection = link; engine = one; world = sends none }

abbrev piece : Str
piece = str "GET a\r\nPI"

abbrev last_piece : Str
last_piece = str "NG\r\n"

pieces-fit : length (input hash lru_policy peer peer_laws calm ++ (piece ++ last_piece)) < 30
unfolding readable
pieces-fit = omega arith

piece-words :
    AllRequests hash lru_policy (frames 30 (input hash lru_policy peer peer_laws calm ++ piece)).0
unfolding frames split readable parse tokenize scan
piece-words = ((_, refl), tt)

piece-answered :
    (run_frames hash lru_policy noon
      (frames 30 (input hash lru_policy peer peer_laws calm ++ piece)).0
      one).0
    ≡ returns tt
piece-answered = (run_frames-returns hash lru_policy noon _ one one-IsValid piece-words).0

serve_cut_example :
    let later =
      times_after hash lru_policy
        (frames 30 (input hash lru_policy peer peer_laws calm ++ piece)).0
        noon in
    (s1 s2 s3 : Session LruCache World) × (r : Outcome (Unit {0})) × (serve hash lru_policy peer 30
        noon
        (arrive hash lru_policy peer peer_laws piece calm)
      ≡ some (returns tt, s1))
    × (serve hash lru_policy peer 30 later (arrive hash lru_policy peer peer_laws last_piece s1)
        ≡ some (r, s2))
    × (serve hash lru_policy peer 30 noon
          (arrive hash lru_policy peer peer_laws (piece ++ last_piece) calm)
        ≡ some (r, s3))
    × (s2.engine ≡ s3.engine)
    × (session_output hash lru_policy peer peer_laws s2
        ≡ session_output hash lru_policy peer peer_laws s3)
    × Unless r (input hash lru_policy peer peer_laws s2 ≡ input hash lru_policy peer peer_laws s3)
serve_cut_example =
    Cuts.serve_cut hash lru_policy peer peer_laws 30 noon piece last_piece calm link-IsValid
      pieces-fit piece-answered

-- `kvmemo 6380`
abbrev command_line : List Str
command_line = str "kvmemo" ∷ str "6380" ∷ []

abbrev port_6380 : Str → Outcome ℕ
port_6380 word = returns 6380

main-Serves_example :
    (fuels : ℕ → ℕ) × Main.Serves hash peer overread port_6380
      (Main.main hash peer overread port_6380 3 fuels days command_line calling)
unfolding Main.port_of
main-Serves_example =
    Main.main-Serves hash peer overread port_6380 peer_laws 3 6380 days command_line calling refl
