-- ===== src/Protocol/Buffer.antt =====
-- src/protocol/buffer.h: `Buffer`, bytes with a read position. It is compacted only when all of
-- its bytes have been consumed.
pub mod Queue
use kvmemo.Base.{
  ℕ, ◌+◌, ◌-◌, Str, List, [], ◌++◌, Outcome, returns, throws, out_of_range, length, drop, ltb, ◌==◌,
  if◌then◌else◌,
}

pub record Buffer : Type 0 where
  pub storage : Str
  pub read_pos : ℕ

abbrev pub empty : Buffer
empty = record { storage = []; read_pos = 0 }

unfoldable pub append : Str → Buffer → Buffer
append bytes b = record b { storage = b.storage ++ bytes }

-- the bytes from `Data()` on, `ReadableBytes()` of them
unfoldable pub readable : Buffer → Str
readable b = drop b.read_pos b.storage

unfoldable pub readable_bytes : Buffer → ℕ
readable_bytes b = length b.storage - b.read_pos

unfoldable pub clear : Buffer → Buffer
clear b = empty

unfoldable pub consume : ℕ → Buffer → Outcome (Unit {0}) × Buffer
unfolding readable_bytes
consume len b =
    if ltb (readable_bytes b) len
    then (throws out_of_range, b)
    else let pos = b.read_pos + len in
      if pos == length b.storage
      then (returns tt, empty)
      else (returns tt, record b { read_pos = pos })
