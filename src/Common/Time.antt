-- ===== src/Common/Time.antt =====
-- src/common/time.h: `Clock`. `period` is the number of ticks of the steady clock in a millisecond.
use kvmemo.Base.{ℕ, ◌-◌, ◌/◌, ◌%◌, leb, if◌then◌else◌, sub64, u64_mod}

-- `duration_cast` rounds to 0, and the cast to `uint64_t` wraps a negative number.
unfoldable pub elapsed_millis : ℕ → ℕ → ℕ → ℕ
elapsed_millis period start end =
    if leb start end
    then ((end - start) / period) % u64_mod
    else sub64 0 (((start - end) / period) % u64_mod)

-- `NowEpochMillis`, where the system's clock counts `ticks` since the epoch, `period` in a
-- millisecond
unfoldable pub now_epoch_millis : ℕ → ℕ → ℕ
now_epoch_millis period ticks = (ticks / period) % u64_mod
