-- ===== src/Protocol/Parser.antt =====
-- src/protocol/parser.h: `Parser`, which splits a frame at its white space.
pub mod Words
use kvmemo.Base.{ℕ, Str, List, [], ◌∷◌, Outcome, returns, throws, invalid_argument, if◌then◌else◌}
use kvmemo.Protocol.Decimal.{is_space}
use kvmemo.Protocol.Request.{Request}

-- `tokens.push_back(token)`, but for the empty word between two spaces
abbrev pub push_word : Str → List Str → List Str
push_word [] tokens = tokens
push_word (c ∷ w) tokens = (c ∷ w) ∷ tokens

-- The word that the text begins with, and the tokens behind it.
unfoldable pub scan : Str → Str × List Str
scan [] = ([], [])
scan (c ∷ l) =
    let (word, tokens) = scan l in
    if is_space c then ([], push_word word tokens) else (c ∷ word, tokens)

-- The loop `while (stream >> token)`.
unfoldable pub tokenize : Str → List Str
unfolding scan
tokenize l = let (word, tokens) = scan l in push_word word tokens

abbrev pub request_of : List Str → Outcome Request
request_of [] = throws invalid_argument
request_of (command ∷ args) = returns (record { command = command; args = args })

unfoldable pub parse : Str → Outcome Request
unfolding tokenize
parse input = request_of (tokenize input)
