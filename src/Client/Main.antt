-- ===== src/Client/Main.antt =====
-- src/client/kv_cli.cpp: `main`. `stoi` is that of the C++ library, a parameter.
use kvmemo.Base.{ℕ, suc, Str, str, List, ◌∷◌, ◌++◌, Outcome, returns, throws, Exn}
use kvmemo.Client as Client
use kvmemo.Client.{ClientSockets, KvClient, connect, destroy}
use kvmemo.Client.Cli.{Screen, show, interact}
use kvmemo.Protocol.Decimal as Decimal

-- The code that the process returns, or the exception that nothing catches.
pub data Ending : Type 0 where
  exited : ℕ → Ending
  terminated : Exn → Ending

-- The words of the command line, the program's name first.
unfoldable pub host_of : List Str → Str
host_of (name ∷ host ∷ words) = host
host_of _ = str "127.0.0.1"

unfoldable pub port_of : (Str → Outcome ℕ) → List Str → Outcome ℕ
port_of stoi (name ∷ host ∷ port ∷ words) = stoi port
port_of stoi _ = returns 8082

unfoldable pub greeting : Str → ℕ → Str
greeting host port =
    str "Connected to KVMemo server at "
    ++ host
    ++ str ":"
    ++ Decimal.print port
    ++ str "\n"
    ++ str "Type 'exit' to quit.\n"

module _ {W : Type 0} (sys : ClientSockets W) (past : ℕ) where
  -- After `Connect`; at the end the client is destroyed.
  abbrev pub connected_main :
      List Str → Outcome (Unit {0}) × KvClient × W → Screen → Ending × Screen × W
  connected_main lines (throws x, c, w) s =
      (exited 1, record s { errors = suc s.errors }, destroy sys c w)
  connected_main lines (returns _, c, w) s =
      let (w', s') = interact sys past lines c w (show (greeting c.host c.port) s) in
      (exited 0, s', destroy sys c w')

  -- The lines are those that the user types.
  unfoldable pub main : (Str → Outcome ℕ) → List Str → List Str → W → Screen → Ending × Screen × W
  unfolding greeting
  main stoi words lines w s = elim (port_of stoi words) [
    | throws x ↦ (terminated x, s, w)
    | returns port ↦ connected_main lines (connect sys (Client.new (host_of words) port) w) s
  ]
