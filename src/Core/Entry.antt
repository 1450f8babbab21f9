-- ===== src/Core/Entry.antt =====
-- src/core/entry.h: `Entry`, a stored value with its expiry time. A call that reads the clock
-- takes the reading as an argument.
pub mod Lifetime
use kvmemo.Base.{ℕ, ◌-◌, Str, [], Bool, false, not, add64, leb, ◌==◌, if◌then◌else◌}

pub record Entry : Type 0 where
  pub value : Str
  pub created_at : ℕ
  -- 0 if the entry never expires
  pub expire_at : ℕ

-- `ttl_ms == 0 ? 0 : created_at_ + ttl_ms`
abbrev expiry : ℕ → ℕ → ℕ
expiry ttl_ms created_at = if ttl_ms == 0 then 0 else add64 created_at ttl_ms

unfoldable pub without_ttl : ℕ → Str → Entry
without_ttl now value = record { value = value; created_at = now; expire_at = 0 }

unfoldable pub with_ttl : ℕ → Str → ℕ → Entry
with_ttl now value ttl_ms = record {
  value = value;
  created_at = now;
  expire_at = expiry ttl_ms now;
}

unfoldable pub empty : Entry
empty = record { value = []; created_at = 0; expire_at = 0 }

unfoldable pub update : ℕ → Str → ℕ → Entry → Entry
update now new_value ttl_ms e = record e {
  value = new_value;
  created_at = now;
  expire_at = expiry ttl_ms now;
}

unfoldable pub has_ttl : Entry → Bool
has_ttl e = not (e.expire_at == 0)

unfoldable pub is_expired : ℕ → Entry → Bool
is_expired now e = if e.expire_at == 0 then false else leb e.expire_at now

unfoldable pub remaining_ttl : ℕ → Entry → ℕ
remaining_ttl now e =
    if e.expire_at == 0 then 0 else if leb e.expire_at now then 0 else e.expire_at - now
