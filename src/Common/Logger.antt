-- ===== src/Common/Logger.antt =====
-- src/common/logger.h: `Logger`. The time and the text of the thread's id are arguments.
pub mod Macros
use kvmemo.Base.{ℕ, Str, str, [], ◌++◌, ◌≡◌, refl, Bool, true, false, ◌==◌, not, leb, if◌then◌else◌}
use kvmemo.Protocol.Decimal as Decimal

pub data LogLevel : Type 0 where
  k_trace k_debug k_info k_warn k_error k_fatal k_off : LogLevel

-- the value of the enumerator
unfoldable pub severity : LogLevel → ℕ
severity k_trace = 0
severity k_debug = 1
severity k_info = 2
severity k_warn = 3
severity k_error = 4
severity k_fatal = 5
severity k_off = 6

-- `output` is what was written to `std::cerr`.
pub record Logger : Type 0 where
  pub level : LogLevel
  pub output : Str

abbrev pub initial : Logger
initial = record { level = k_info; output = [] }

unfoldable pub set_level : LogLevel → Logger → Logger
set_level level l = record l { level = level }

unfoldable pub is_enabled : LogLevel → Logger → Bool
unfolding severity
is_enabled level l =
    if severity l.level == severity k_off then false else leb (severity l.level) (severity level)

unfoldable pub level_to_string : LogLevel → Str
level_to_string k_trace = str "TRACE"
level_to_string k_debug = str "DEBUG"
level_to_string k_info = str "INFO "
level_to_string k_warn = str "WARN "
level_to_string k_error = str "ERROR"
level_to_string k_fatal = str "FATAL"
level_to_string k_off = str "OFF  "

unfoldable pub header : LogLevel → ℕ → Str → Str
unfolding level_to_string
header level ts thread =
    str "["
    ++ Decimal.print ts
    ++ str "] ["
    ++ level_to_string level
    ++ str "] [tid="
    ++ thread
    ++ str "]"

unfoldable pub line_of : LogLevel → Str → ℕ → Str → ℕ → Str → Str
unfolding header
line_of level file line message ts thread =
    header level ts thread
    ++ str " "
    ++ file
    ++ str ":"
    ++ Decimal.print line
    ++ str " | "
    ++ message
    ++ str "\n"

abbrev is_fatal : LogLevel → Bool
is_fatal k_fatal = true
is_fatal _ = false

-- `true` if the process is aborted
unfoldable pub log : LogLevel → Str → ℕ → Str → ℕ → Str → Logger → Bool × Logger
unfolding is_enabled line_of
log level file line message ts thread l = if not (is_enabled level l) then (false, l) else (
  is_fatal level,
  record l { output = l.output ++ line_of level file line message ts thread },
)

-- With the level off, a fatal message is not written, and the process goes on.
pub log_off :
    (file : Str) (line : ℕ) (message : Str) (ts : ℕ) (thread : Str) (l : Logger)
    → log k_fatal file line message ts thread (set_level k_off l) ≡ (false, set_level k_off l)
unfolding log set_level is_enabled severity
log_off file line message ts thread l = refl
