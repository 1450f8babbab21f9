-- ===== src/Client/Commands.antt =====
-- src/client/kv_client.h: what the server makes of the commands of the client.
use kvmemo.Base.{
  Str, str, [], ◌∷◌, ◌++◌, ◌≡◌, refl, ap, ◌∙◌, Bool, true, ◌&&◌, not, ◌==◌, some, none, returns,
  arith,
}
use mathlib.Core.List.{append_assoc}
use kvmemo.Client.{set_command, get_command, delete_command, wire_of}
use kvmemo.Protocol.Buffer.{Buffer, readable, append}
use kvmemo.Protocol.Buffer.Queue.{IsValid}
use kvmemo.Protocol.Framing.{next_frame}
use kvmemo.Protocol.Framing.Split.{split}
use kvmemo.Protocol.Framing.Chunks.{split-frame}
use kvmemo.Protocol.Parser.{parse}
use kvmemo.Protocol.Parser.Words.{is_solid, is_word, all_words, join, parse-print}
use kvmemo.Protocol.Request.{Request}
use kvmemo.Server.Dispatcher.Replies.{request}

-- no carriage return in a text
unfoldable is_line : Str → Bool
is_line [] = true
is_line (c ∷ l) = not (c == b'\r') && is_line l

is_line-append : (l m : Str) → is_line l ≡ true → is_line m ≡ true → is_line (l ++ m) ≡ true
unfolding is_line
is_line-append [] m h k = k
is_line-append (c ∷ l) m h k = ground (arith, h, is_line-append l m)

is_solid-is_line : (l : Str) → is_solid l ≡ true → is_line l ≡ true
unfolding is_line is_solid
is_solid-is_line [] h = refl
is_solid-is_line (c ∷ l) h = ground (arith, h, is_solid-is_line l)

split-is_line : (f : Str) → is_line f ≡ true → split f ≡ none
unfolding split is_line
split-is_line [] h = refl
split-is_line (c ∷ []) h = refl
split-is_line (c ∷ d ∷ f) h = ground (arith, h, split-is_line (d ∷ f))

is_word-is_line : (w : Str) → is_word w ≡ true → is_line w ≡ true
is_word-is_line [] h = absurd (cc h)
is_word-is_line (c ∷ w) h = is_solid-is_line (c ∷ w) h

-- What `NextFrame` and the parser make of a buffer: the request is read from the first frame, and
-- the bytes `rest` are left.
abbrev pub Reads : Buffer → Str → Request → Type 0
Reads b rest r =
    (frame : Str) × (b' : Buffer) × (next_frame b ≡ (returns (some frame), b'))
    × (readable b' ≡ rest)
    × IsValid b'
    × (parse frame ≡ returns r)

-- The bytes of the command, and then others, hold the command as their first frame.
abbrev pub Holds : Str → Str → Request → Type 0
Holds command rest r =
    (split (wire_of command ++ rest) ≡ some (command, rest)) × (parse command ≡ returns r)

line-Holds :
    (command rest : Str) (r : Request)
    → is_line command ≡ true
    → parse command ≡ returns r
    → Holds command rest r
line-Holds command rest r h p = (
  ap split (append_assoc command (str "\r\n") rest)
      ∙ split-frame command rest (split-is_line command h),
  p,
)

module _ (key rest : Str) (k : is_word key ≡ true) where
  one_word :
      (name : Str) → is_word name ≡ true → Holds (name ++ b' ' ∷ key) rest (request name (key ∷ []))
  unfolding is_line join all_words
  one_word name n =
      line-Holds (name ++ b' ' ∷ key) rest (request name (key ∷ []))
        (is_line-append name (b' ' ∷ key) (is_word-is_line name n) (is_word-is_line key k))
        (parse-print (request name (key ∷ [])) n (ground (arith, k)))

  -- The bytes of each command, with any bytes behind them, hold the command as their first frame.
  pub commands-Holds :
      (value : Str)
      → is_word value ≡ true
      → Holds (set_command key value) rest (request (str "SET") (key ∷ value ∷ []))
        × Holds (get_command key) rest (request (str "GET") (key ∷ []))
        × Holds (delete_command key) rest (request (str "DEL") (key ∷ []))
  unfolding is_line is_solid join all_words
  commands-Holds value v = (
    line-Holds (set_command key value) rest (request (str "SET") (key ∷ value ∷ []))
        (is_line-append (str "SET " ++ key) (b' ' ∷ value) (is_word-is_line key k)
          (is_word-is_line value v))
        (ap parse (append_assoc (str "SET ") key (b' ' ∷ value))
          ∙ parse-print (request (str "SET") (key ∷ value ∷ [])) refl (ground (arith, k, v))),
    one_word (str "GET") refl,
    one_word (str "DEL") refl,
  )

-- what `Append` of the bytes of a command, and of those behind them, makes of a buffer
abbrev pub received : Str → Str → Buffer → Buffer
received command rest b = append (wire_of command ++ rest) b
