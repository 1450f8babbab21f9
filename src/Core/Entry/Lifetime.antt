-- ===== src/Core/Entry/Lifetime.antt =====
-- src/core/entry.h: how long an entry lives.
use kvmemo.Base.{ℕ, ◌+◌, ◌-◌, ◌≤◌, ◌<◌, Str, true, ◌≡◌, leb, u64_mod, arith}
use kvmemo.Core.Entry.{Entry, with_ttl, is_expired, remaining_ttl, update}

-- An entry with a positive TTL whose end is below 2 ^ 64 is expired exactly from creation time
-- plus TTL on, and its remaining TTL is that end less the time, 0 from the end on.
pub with_ttl_lifetime :
    (created now ttl : ℕ) (v : Str)
    → 0 < ttl
    → created + ttl < u64_mod
    → (is_expired now (with_ttl created v ttl) ≡ leb (created + ttl) now)
      × (remaining_ttl now (with_ttl created v ttl) ≡ created + ttl - now)
unfolding is_expired with_ttl remaining_ttl
with_ttl_lifetime created now ttl v h k = (ground arith, ground arith)

-- Once expired, an entry stays expired.
pub expired_mono :
    (now later : ℕ) (e : Entry) → now ≤ later → is_expired now e ≡ true → is_expired later e ≡ true
unfolding is_expired
expired_mono now later e h k = ground arith

-- A TTL whose end is above 2 ^ 64 makes an entry that is expired as soon as it is created: the sum
-- wraps round.
pub with_ttl_wraps :
    (created ttl : ℕ) (v : Str)
    → created < u64_mod
    → ttl < u64_mod
    → u64_mod < created + ttl
    → is_expired created (with_ttl created v ttl) ≡ true
unfolding is_expired with_ttl
with_ttl_wraps created ttl v h k w = ground arith

-- An update leaves nothing of the old entry: it is a new one.
pub update-with_ttl : (now ttl : ℕ) (v : Str) (e : Entry) → update now v ttl e ≡ with_ttl now v ttl
unfolding update with_ttl
update-with_ttl now ttl v e = ground arith
