-- ===== src/Common/Config.antt =====
-- src/common/config.h: `Config` and its `Validate`. The bitwise conjunction of 64-bit words is
-- taken bit by bit.
pub mod Powers
use kvmemo.Base.{
  ℕ, zero, suc, ◌+◌, ◌-◌, ◌*◌, ◌/◌, ◌%◌, Str, str, Bool, true, false, ◌&&◌, not, ltb, ◌==◌,
  if◌then◌else◌,
}
use kvmemo.Common.Status.{Status, ok, invalid_argument}

pub data EvictionPolicy : Type 0 where
  k_none k_lru : EvictionPolicy

pub record Config : Type 0 where
  pub shard_count : ℕ
  pub max_memory_bytes : ℕ
  pub max_value_bytes : ℕ
  pub listen_port : ℕ
  pub max_connections : ℕ
  pub worker_threads : ℕ
  pub enable_ttl : Bool
  pub ttl_sweep_interval_ms : ℕ
  pub enable_metrics : Bool
  pub eviction_policy : EvictionPolicy

-- The defaults.
abbrev pub defaults : Config
defaults = record {
  shard_count = 64;
  max_memory_bytes = 256 * 1024 * 1024;
  max_value_bytes = 8 * 1024 * 1024;
  listen_port = 8080;
  max_connections = 4096;
  worker_threads = 0;
  enable_ttl = true;
  ttl_sweep_interval_ms = 250;
  enable_metrics = true;
  eviction_policy = k_lru;
}

-- the conjunction of two words of `w` bits
unfoldable pub land : ℕ → ℕ → ℕ → ℕ
land zero a b = 0
land (suc w) a b =
    let rest = land w (a / 2) (b / 2) in if a % 2 == 1 && b % 2 == 1 then 1 + 2 * rest else 2 * rest

-- `(shard_count & (shard_count - 1)) == 0`
unfoldable pub is_power_of_two : ℕ → Bool
unfolding land
is_power_of_two n = land 64 n (n - 1) == 0

-- The `switch` on the policy accepts both values of the type.
unfoldable pub validate : Config → Status
unfolding is_power_of_two
validate c =
    if c.shard_count == 0
    then invalid_argument (str "Config.shard_count must be > 0")
    else if not (is_power_of_two c.shard_count)
    then invalid_argument (str "Config.shard_count must be a power of two (e.g., 16, 32, 64)")
    else if c.max_memory_bytes == 0
    then invalid_argument (str "Config.max_memory_bytes must be > 0")
    else if c.max_value_bytes == 0
    then invalid_argument (str "Config.max_value_bytes must be > 0")
    else if ltb c.max_memory_bytes c.max_value_bytes
    then invalid_argument (str "Config.max_value_bytes must be <= Config.max_memory_bytes")
    else if c.listen_port == 0
    then invalid_argument (str "Config.listen_port must be a valid port")
    else if c.max_connections == 0
    then invalid_argument (str "Config.max_connections must be > 0")
    else if ltb 0 c.worker_threads && ltb 1024 c.worker_threads
    then invalid_argument (str "Config.worker_threads is too high; must be <= 1024")
    else if c.enable_ttl && c.ttl_sweep_interval_ms == 0
    then invalid_argument (str "Config.ttl_sweep_interval_ms must be > 0 when TTL is enabled")
    else ok
