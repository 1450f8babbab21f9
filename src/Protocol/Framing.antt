-- ===== src/Protocol/Framing.antt =====
-- src/protocol/framing.h: `Framing`, frames that end in CR LF.
pub mod Split
pub mod Chunks
use kvmemo.Base.{
  ℕ, zero, suc, ◌+◌, Str, List, [], ◌∷◌, Option, none, some, Bool, true, false, ◌&&◌, Outcome,
  returns, throws, length, take, ◌==◌, if◌then◌else◌,
}
use kvmemo.Protocol.Buffer.{Buffer, readable, consume}

abbrev pub delimiter : Str
delimiter = b'\r' ∷ b'\n' ∷ []

unfoldable pub is_prefix : Str → Str → Bool
is_prefix [] l = true
is_prefix (d ∷ ds) [] = false
is_prefix (d ∷ ds) (c ∷ l) = d == c && is_prefix ds l

-- `std::search`: the first position of the pattern, or the end.
unfoldable pub search_from : Str → Str → ℕ
unfolding is_prefix
search_from pattern' [] = 0
search_from pattern' (c ∷ l) =
    let later = suc (search_from pattern' l) in if is_prefix pattern' (c ∷ l) then 0 else later

-- the frame, if what `Consume` gives is a return
abbrev pub framed : Str → Outcome (Unit {0}) × Buffer → Outcome (Option Str) × Buffer
framed frame (throws x, b) = (throws x, b)
framed frame (returns _, b) = (returns (some frame), b)

-- The frame, or `none` where the code returns false.
unfoldable pub next_frame : Buffer → Outcome (Option Str) × Buffer
unfolding search_from
next_frame b =
    let bytes = readable b in
    let pos = search_from delimiter bytes in
    if pos == length bytes then (returns none, b) else framed (take pos bytes) (consume (pos + 2) b)

-- one call of `NextFrame`, before the calls `rest`
abbrev pub drain_next :
    (Buffer → List Str × Buffer) → Outcome (Option Str) × Buffer → List Str × Buffer
drain_next rest (throws x, b) = ([], b)
drain_next rest (returns none, b) = ([], b)
drain_next rest (returns (some frame), b) = let (frames, b') = rest b in (frame ∷ frames, b')

-- The frames that repeated calls of `NextFrame` take from a buffer until there is none, with what
-- they leave there. Each frame takes one unit of fuel.
unfoldable pub drain : ℕ → Buffer → List Str × Buffer
drain zero b = ([], b)
drain (suc fuel) b = drain_next (drain fuel) (next_frame b)
