-- ===== src/Protocol/Parser/Words.antt =====
-- src/protocol/parser.h: the words of a request, and how a client writes it.
use kvmemo.Base.{
  Str, List, [], ◌∷◌, ◌++◌, ◌≡◌, refl, ap, ◌∙◌, Bool, true, false, ◌&&◌, not, arith, returns,
}
use kvmemo.Protocol.Decimal.{is_space}
use kvmemo.Protocol.Request.{Request}
use kvmemo.Protocol.Parser.{push_word, scan, tokenize, request_of, parse}

-- No byte of the text is white space.
unfoldable pub is_solid : Str → Bool
is_solid [] = true
is_solid (c ∷ l) = not (is_space c) && is_solid l

abbrev pub is_word : Str → Bool
is_word [] = false
is_word (c ∷ l) = is_solid (c ∷ l)

-- The words with one space between them.
unfoldable pub join : Str → List Str → Str
join w [] = w
join w (x ∷ words) = w ++ b' ' ∷ join x words

-- How a client writes a request.
abbrev pub print : Request → Str
print r = join r.command r.args

scan-solid :
    (w rest : Str) → is_solid w ≡ true → scan (w ++ rest) ≡ (w ++ (scan rest).0, (scan rest).1)
unfolding scan is_solid
scan-solid [] rest h = refl
scan-solid (c ∷ w) rest h = ground (arith, h, scan-solid w rest)

scan-word : (w : Str) → is_solid w ≡ true → scan w ≡ (w, [])
unfolding scan is_solid
scan-word [] h = refl
scan-word (c ∷ w) h = ground (arith, h, scan-word w)

is_solid_word : (w : Str) → is_word w ≡ true → is_solid w ≡ true
is_solid_word [] h = absurd (cc h)
is_solid_word (c ∷ w) h = h

push_word_lem : (w : Str) (tokens : List Str) → is_word w ≡ true → push_word w tokens ≡ w ∷ tokens
push_word_lem [] tokens h = absurd (cc h)
push_word_lem (c ∷ w) tokens h = refl

unfoldable pub all_words : List Str → Bool
all_words [] = true
all_words (w ∷ words) = is_word w && all_words words

tokenize_word : (w : Str) → is_word w ≡ true → tokenize w ≡ w ∷ []
unfolding tokenize
tokenize_word w h = ground (arith, scan-word w (is_solid_word w h), push_word_lem w [] h)

scan-space : (l : Str) → scan (b' ' ∷ l) ≡ ([], tokenize l)
unfolding scan tokenize
scan-space l = ground arith

append-nil : (w : Str) → w ++ [] ≡ w
append-nil [] = refl
append-nil (c ∷ w) = ap (◌∷◌ c) (append-nil w)

tokenize-cons : (w l : Str) → is_word w ≡ true → tokenize (w ++ b' ' ∷ l) ≡ w ∷ tokenize l
unfolding tokenize
tokenize-cons w l h = ground (
  arith,
  scan-solid w (b' ' ∷ l) (is_solid_word w h),
  scan-space l,
  append-nil w,
  push_word_lem w (tokenize l) h,
)

tokenize-join :
    (w : Str) (words : List Str)
    → is_word w ≡ true
    → all_words words ≡ true
    → tokenize (join w words) ≡ w ∷ words
unfolding join all_words
tokenize-join w [] h a = tokenize_word w h
tokenize-join w (x ∷ words) h a =
    tokenize-cons w (join x words) h
    ∙ ap (◌∷◌ w) (tokenize-join x words (ground (arith, a)) (ground (arith, a)))

-- The parser reads back every request that a client has written with one space between the words,
-- if the command and the arguments are not empty and hold no white space.
pub parse-print :
    (r : Request) → is_word r.command ≡ true → all_words r.args ≡ true → parse (print r) ≡ returns r
unfolding parse
parse-print r h a = ground (arith, tokenize-join r.command r.args h a)

scan-IsWords : (l : Str) → (is_solid (scan l).0 ≡ true) × (all_words (scan l).1 ≡ true)
unfolding scan is_solid all_words
scan-IsWords [] = (refl, refl)
scan-IsWords (c ∷ l) = go (scan l) refl (scan-IsWords l)
  where
    go :
        (p : Str × List Str)
        → scan l ≡ p
        → (is_solid (scan l).0 ≡ true) × (all_words (scan l).1 ≡ true)
        → (is_solid (scan (c ∷ l)).0 ≡ true) × (all_words (scan (c ∷ l)).1 ≡ true)
    go ([], tokens) e h = (ground (arith, e, h), ground (arith, e, h))
    go (x ∷ w, tokens) e h = (ground (arith, e, h), ground (arith, e, h))

push_word-IsWords :
    (w : Str) (tokens : List Str)
    → is_solid w ≡ true
    → all_words tokens ≡ true
    → all_words (push_word w tokens) ≡ true
unfolding is_solid all_words
push_word-IsWords [] tokens h a = a
push_word-IsWords (c ∷ w) tokens h a = ground (arith, h, a)

-- The tokens of any text are words: not empty, and without white space.
pub tokenize-IsWords : (l : Str) → all_words (tokenize l) ≡ true
unfolding tokenize
tokenize-IsWords l = push_word-IsWords (scan l).0 (scan l).1 (scan-IsWords l).0 (scan-IsWords l).1

request_of-IsWords :
    (tokens : List Str) (r : Request)
    → all_words tokens ≡ true
    → request_of tokens ≡ returns r
    → (is_word r.command ≡ true) × (all_words r.args ≡ true)
unfolding all_words
request_of-IsWords [] r a h = absurd (cc h)
request_of-IsWords (w ∷ tokens) r a h = (ground (arith, a, h), ground (arith, a, h))

-- A request that was parsed from any text has a command and arguments that are words, and writing
-- it and parsing it again gives the same request.
pub print-parse :
    (input : Str) (r : Request)
    → parse input ≡ returns r
    → (is_word r.command ≡ true) × (all_words r.args ≡ true) × (parse (print r) ≡ returns r)
unfolding parse
print-parse input r h =
    let w = request_of-IsWords (tokenize input) r (tokenize-IsWords input) h in
    (w.0, w.1, parse-print r w.0 w.1)
