-- ===== src/Protocol/Serializer/Replies.antt =====
-- src/protocol/serializer.h: how a client reads the responses.
use kvmemo.Base.{
  ℕ, zero, suc, ◌+◌, ◌/◌, ◌%◌, Str, str, [], ◌∷◌, ◌++◌, ◌≡◌, refl, ap, ◌∙◌, Option, none, some,
  true, arith, length, take, drop, if◌then◌else◌, ◌==◌, ltb, Bool-cases, inl, inr,
}
use mathlib.Core.List.{append_assoc}
use native.Mathlib.Nat.{suc-add}
use kvmemo.Protocol.Decimal as Decimal
use kvmemo.Protocol.Decimal.{read_digits, print_from, read_digits-print, is_digit}
use kvmemo.Protocol.Framing.Split.{split}
use kvmemo.Protocol.Framing.Chunks.{split-frame}
use kvmemo.Protocol.Response.{Response, ok, error, is_error, error_status, ok_status}
use kvmemo.Protocol.Serializer.{serialize, serialize_ok, serialize_bulk_string, serialize_error}

-- What a client makes of the first line and of the bytes behind it, by the type byte.
abbrev pub reply_of : ℕ → Option (Str × Str) → Option (Response × Str)
reply_of t none = none
reply_of t (some (line, rest)) =
    if t == b'$'
    then some (ok (take (read_digits 0 line) rest), drop (read_digits 0 line + 2) rest)
    else if t == b'-'
    then some (error (drop 3 line), rest)
    else some (ok [], rest)

-- The first response of a stream of bytes, and the bytes behind it.
unfoldable pub read_reply : Str → Option (Response × Str)
read_reply [] = none
read_reply (t ∷ l) = reply_of t (split l)

take-append : (xs ys : Str) → take (length xs) (xs ++ ys) ≡ xs
take-append [] ys = refl
take-append (x ∷ xs) ys = ap (◌∷◌ x) (take-append xs ys)

drop-append : (n : ℕ) (xs ys : Str) → drop (length xs + n) (xs ++ ys) ≡ drop n ys
drop-append n [] ys = ground arith
drop-append n (x ∷ xs) ys =
    ap (λ k. drop k (x ∷ xs ++ ys)) (suc-add (length xs) n) ∙ drop-append n xs ys

-- a text of digits before one that has no CR LF
split-digit : (c : ℕ) (l : Str) → is_digit c ≡ true → split l ≡ none → split (c ∷ l) ≡ none
unfolding split
split-digit c [] d h = refl
split-digit c (x ∷ l) d h = ground (arith, d, h)

split-print_from :
    (fuel n : ℕ) (rest : Str) → split rest ≡ none → split (print_from fuel n rest) ≡ none
unfolding print_from
split-print_from zero n rest h = h
split-print_from (suc fuel) n rest h = elim (Bool-cases (ltb n 10)) [
  | inl e ↦ rw e (split-digit (b'0' + n) rest (ground (arith, e)) h)
  | inr e ↦ rw e (
      split-print_from fuel (n / 10) ((b'0' + n % 10) ∷ rest)
        (split-digit (b'0' + n % 10) rest (ground arith) h))
]

split-print : (n : ℕ) → split (Decimal.print n) ≡ none
split-print n = split-print_from (suc n) n [] (unfold split in refl)

-- A client reads back each value, also one that holds CR LF, and the bytes that follow are left.
pub read_reply-bulk :
    (v rest : Str) → read_reply (serialize_bulk_string v ++ rest) ≡ some (ok v, rest)
unfolding read_reply serialize_bulk_string
read_reply-bulk v rest = ground (
  arith,
  append_assoc (Decimal.print (length v)) (b'\r' ∷ b'\n' ∷ (v ++ b'\r' ∷ b'\n' ∷ [])) rest,
  append_assoc v (b'\r' ∷ b'\n' ∷ []) rest,
  split-frame (Decimal.print (length v)) (v ++ b'\r' ∷ b'\n' ∷ rest) (split-print (length v)),
  read_digits-print (length v),
  take-append v (b'\r' ∷ b'\n' ∷ rest),
  drop-append 2 v (b'\r' ∷ b'\n' ∷ rest),
)

read_reply-ok : (v rest : Str) → read_reply (serialize_ok v ++ rest) ≡ some (ok v, rest)
read_reply-ok [] rest = unfold read_reply split in refl
read_reply-ok (c ∷ v) rest = read_reply-bulk (c ∷ v) rest

split-err : (m : Str) → split m ≡ none → split (str "ERR" ++ m) ≡ none
unfolding split
split-err [] h = refl
split-err (c ∷ m) h = ground (arith, h)

read_reply-error :
    (m rest : Str) → split m ≡ none → read_reply (serialize_error m ++ rest) ≡ some (error m, rest)
unfolding read_reply serialize_error
read_reply-error m rest h = ground (
  arith,
  append_assoc m (b'\r' ∷ b'\n' ∷ []) rest,
  split-frame (str "ERR" ++ m) rest (split-err m h),
)

-- A client that reads the type byte, the length and the bytes gets back every response, and the
-- bytes behind it are left; the message of an error must not hold CR LF.
pub read_reply-serialize :
    (r : Response) (rest : Str)
    → (is_error r ≡ true → split r.message ≡ none)
    → read_reply (serialize r ++ rest) ≡ some (r, rest)
unfolding serialize is_error
read_reply-serialize r rest h = go r.status refl
  where
    go : (t : _) → r.status ≡ t → read_reply (serialize r ++ rest) ≡ some (r, rest)
    go ok_status e = ground (arith, e, read_reply-ok r.message rest)
    go error_status e = ground (arith, e, h, read_reply-error r.message rest)
