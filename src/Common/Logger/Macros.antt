-- ===== src/Common/Logger/Macros.antt =====
-- src/common/logger.h: the macros that call the logger.
use kvmemo.Base.{ℕ, Str, ◌≡◌, Bool, false, arith, if◌then◌else◌}
use kvmemo.Common.Logger.{LogLevel, k_fatal, Logger, is_enabled, log}

-- `KV_LOG_TRACE` to `KV_LOG_ERROR`, which differ in the level
unfoldable pub kv_log : LogLevel → Str → ℕ → Str → ℕ → Str → Logger → Bool × Logger
kv_log level file line msg ts thread l =
    if is_enabled level l then log level file line msg ts thread l else (false, l)

unfoldable pub kv_log_fatal : Str → ℕ → Str → ℕ → Str → Logger → Bool × Logger
kv_log_fatal file line msg ts thread l = log k_fatal file line msg ts thread l

-- The macro's own test changes nothing: `Log` makes it again.
pub kv_log_lem :
    (level : LogLevel) (file : Str) (line : ℕ) (msg : Str) (ts : ℕ) (thread : Str) (l : Logger)
    → kv_log level file line msg ts thread l ≡ log level file line msg ts thread l
unfolding kv_log log
kv_log_lem level file line msg ts thread l = ground arith
