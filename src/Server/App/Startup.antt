-- ===== src/Server/App/Startup.antt =====
-- src/server/server_app.h: the constructor of `ServerApp`.
use kvmemo.Base.{ℕ, Str, [], ◌≡◌, refl, arith, returns, lookup}
use kvmemo.Core.Lru
use kvmemo.Core.Lru.{LruCache}
use kvmemo.Core.Manager as Shards
use kvmemo.Core.Manager.Store
use kvmemo.Core.Shard
use kvmemo.Core.Ttl
use kvmemo.Core.Ttl.Index
use kvmemo.Eviction.Memory
use kvmemo.Net.TcpServer
use kvmemo.Server.App as App
use kvmemo.Server.App.{App}
use kvmemo.Server.App.Rounds.{IsReady}

abbrev pub started : ℕ → App LruCache
started port = record {
  server = TcpServer.new port;
  engine = record {
    shard_manager = Store.empty (λ _. 0) 64 10000;
    ttl_index = Ttl.new;
    eviction_manager = record {
      memory_tracker = record { max_memory_bytes = 268435456; current_memory_bytes = 0 };
      policy = Lru.empty 10000;
    };
  };
  active_fds = [];
}

module _ (hash : Str → ℕ) where
  -- The constructor throws nothing: its sizes are accepted by every member. The new server is
  -- valid, listens to nothing and has no connection.
  pub new-started :
      (port : ℕ) → (App.new port ≡ returns (started port)) × IsReady hash (started port)
  unfolding App.new Shards.new Memory.new Lru.new Shard.new lookup
  new-started port = (
    refl,
    record {
      engine_valid = record {
        shards = Store.empty-IsValid hash 64 10000 (omega arith) (omega arith);
        ttl = Index.new-IsValid;
      };
      unique = tt;
      valid = λ q c e. absurd (cc e);
    },
  )
