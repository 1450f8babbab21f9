-- ===== src/Server/App/EndToEnd.antt =====
-- src/server/server_app.h with src/client/kv_client.h: what a client reads back of what it wrote.
use kvmemo.Base.{ℕ, Str, List, ◌++◌, Outcome, ℕ_eq}
use kvmemo.Client.{set_command, get_command, wire_of}
use kvmemo.Core.Engine.{Engine}
use kvmemo.Core.Engine.Replies as EngineReplies
use kvmemo.Eviction.Policy.{EvictionPolicy}
use kvmemo.Net.Connection.{Connection}
use kvmemo.Net.Connection.Pipe as Pipe
use kvmemo.Net.Sockets.{Sockets, SocketLaws}
use kvmemo.Protocol.Buffer.{Buffer}
use kvmemo.Protocol.Request.{Request}
use kvmemo.Protocol.Response.{Response}
use kvmemo.Server.App.{App}

module _ (hash : Str → ℕ) {P W : Type 0} (policy : EvictionPolicy P) (sys : Sockets W)
    (overread : Buffer → Outcome (Unit {0}) × Buffer) (laws : SocketLaws sys) where
  -- The bytes that a client sends for `Set` and then `Get` of the key.
  abbrev pub set_and_get : Str → Str → Str
  set_and_get key value = wire_of (set_command key value) ++ wire_of (get_command key)
