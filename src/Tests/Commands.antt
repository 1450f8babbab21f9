-- ===== src/Tests/Commands.antt =====
-- Requests, responses and commands.
use kvmemo.Base.{
  ℕ, ◌+◌, str, [], ◌∷◌, ◌++◌, ◌≡◌, refl, none, some, true, returns, arith, leb, if◌then◌else◌,
}
use kvmemo.Eviction.Policy.{lru_policy}
use kvmemo.Protocol.Decimal as Decimal
use kvmemo.Protocol.Framing.Split.{split}
use kvmemo.Protocol.Parser.{parse, tokenize, scan}
use kvmemo.Protocol.Parser.Words
use kvmemo.Protocol.Parser.Words.{is_word, is_solid, all_words}
use kvmemo.Protocol.Request.{Request}
use kvmemo.Protocol.Response.{ok, error}
use kvmemo.Protocol.Serializer.{serialize}
use kvmemo.Protocol.Serializer.Replies as SerializerReplies
use kvmemo.Protocol.Serializer.Replies.{read_reply}
use kvmemo.Server.Dispatcher.{Times, dispatch, found}
use kvmemo.Server.Dispatcher.Invariant
use kvmemo.Server.Dispatcher.Invariant.{Answers}
use kvmemo.Server.Dispatcher.Replies
use kvmemo.Server.Dispatcher.Replies.{request}
use kvmemo.Tests.Engines.{hash, one, one-IsValid}

abbrev get_a : Request
get_a = request (str "GET") (str "a" ∷ [])

get_a-word : is_word get_a.command ≡ true
unfolding is_solid
get_a-word = refl

get_a-words : all_words get_a.args ≡ true
unfolding is_solid all_words
get_a-words = refl

parse-print_example : parse (Words.print get_a) ≡ returns get_a
parse-print_example = Words.parse-print get_a get_a-word get_a-words

-- spaces before, between and behind the words
spaced : parse (str "  GET   a ") ≡ returns get_a
unfolding parse tokenize scan
spaced = refl

missing : split (str "Key not found") ≡ none
unfolding split
missing = refl

read_reply-serialize_example :
    read_reply (serialize (error (str "Key not found")) ++ str "+OK\r\n")
    ≡ some (error (str "Key not found"), str "+OK\r\n")
read_reply-serialize_example =
    SerializerReplies.read_reply-serialize (error (str "Key not found")) (str "+OK\r\n")
      (λ _. missing)

abbrev at : ℕ → Times
at n = record { entry_time = n; engine_time = n; list_time = λ i j. n }

dispatch-Answers_example : Answers hash (dispatch hash lru_policy (at 7) get_a one)
dispatch-Answers_example = Invariant.dispatch-Answers hash lru_policy (at 7) one one-IsValid get_a

get-set_ex_dispatch_example :
    let (r, e') =
      dispatch hash lru_policy
        (at 7)
        (request (str "SETEX") (str "b" ∷ Decimal.print 20 ∷ str "2" ∷ []))
        one in
    (r ≡ returns (ok []))
    × ((dispatch hash lru_policy (at 9) (request (str "GET") (str "b" ∷ [])) e').0
        ≡ returns (found (if leb (7 + 20) 9 then none else some (str "2"))))
get-set_ex_dispatch_example =
    Replies.get-set_ex_dispatch hash lru_policy (at 7) (at 9) (str "b") (str "2") 20 one one-IsValid
      (omega arith) (omega arith)
