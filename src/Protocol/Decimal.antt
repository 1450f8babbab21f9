-- ===== src/Protocol/Decimal.antt =====
-- Numbers as text: what `operator<<` prints of a `std::size_t`, and `std::stoull`.
use kvmemo.Base.{
  ℕ, zero, suc, ◌+◌, ◌*◌, ◌/◌, ◌%◌, ◌-◌, ◌<◌, Str, [], ◌∷◌, ◌≡◌, refl, ◌∙◌, Bool, true, ◌&&◌, ◌||◌,
  arith, ltb, leb, ◌==◌, if◌then◌else◌, Outcome, returns, throws, invalid_argument, out_of_range,
  u64_mod, sub64, Bool-cases, inl, inr,
}

abbrev pub is_digit : ℕ → Bool
is_digit c = leb b'0' c && leb c b'9'

-- `std::isspace` in the "C" locale
abbrev pub is_space : ℕ → Bool
is_space c = c == b' ' || leb 9 c && leb c 13

-- the digits of `n` before `rest`; one unit of fuel for each digit
unfoldable pub print_from : ℕ → ℕ → Str → Str
print_from zero n rest = rest
print_from (suc fuel) n rest =
    let more = print_from fuel (n / 10) ((b'0' + n % 10) ∷ rest) in
    if ltb n 10 then (b'0' + n) ∷ rest else more

abbrev pub print : ℕ → Str
print n = print_from (suc n) n []

-- the number that the digits at the front spell, behind digits of value `acc`
unfoldable pub read_digits : ℕ → Str → ℕ
read_digits acc [] = acc
read_digits acc (c ∷ l) = if is_digit c then read_digits (acc * 10 + (c - b'0')) l else acc

-- `std::stoull` behind the sign
unfoldable pub read_unsigned : Str → Outcome ℕ
unfolding read_digits
read_unsigned [] = throws invalid_argument
read_unsigned (c ∷ l) =
    let n = read_digits 0 (c ∷ l) in
    if is_digit c
    then (if leb u64_mod n then throws out_of_range else returns n)
    else throws invalid_argument

-- a minus sign negates the number modulo 2 ^ 64
abbrev pub negated : Outcome ℕ → Outcome ℕ
negated (returns n) = returns (sub64 0 n)
negated (throws x) = throws x

unfoldable pub read_signed : Str → Outcome ℕ
unfolding read_unsigned
read_signed [] = throws invalid_argument
read_signed (c ∷ l) =
    if c == b'-'
    then negated (read_unsigned l)
    else if c == b'+'
    then read_unsigned l
    else read_unsigned (c ∷ l)

unfoldable pub skip_spaces : Str → Str
skip_spaces [] = []
skip_spaces (c ∷ l) = if is_space c then skip_spaces l else c ∷ l

unfoldable pub stoull : Str → Outcome ℕ
unfolding skip_spaces read_signed
stoull s = read_signed (skip_spaces s)

read_digits-print_from :
    (fuel n : ℕ) (rest : Str)
    → n < fuel
    → read_digits 0 (print_from fuel n rest) ≡ read_digits n rest
unfolding print_from read_digits
read_digits-print_from zero n rest h = absurd (omega arith)
read_digits-print_from (suc fuel) n rest h = elim (Bool-cases (ltb n 10)) [
  | inl e ↦ ground (arith, e)
  | inr e ↦ rw e (
      read_digits-print_from fuel (n / 10) ((b'0' + n % 10) ∷ rest) (ground (arith, e))
      ∙ ground arith)
]

-- The digits of a number are digits, at least one.
pub print-digit :
    (fuel n : ℕ) (rest : Str)
    → n < fuel
    → (c : ℕ) × (l : Str) × (print_from fuel n rest ≡ c ∷ l) × (is_digit c ≡ true)
unfolding print_from
print-digit zero n rest h = absurd (omega arith)
print-digit (suc fuel) n rest h = elim (Bool-cases (ltb n 10)) [
  | inl e ↦ (b'0' + n, rest, ground (arith, e), ground (arith, e))
  | inr e ↦ rw e (print-digit fuel (n / 10) ((b'0' + n % 10) ∷ rest) (ground (arith, e)))
]

pub read_digits-print : (n : ℕ) → read_digits 0 (print n) ≡ n
read_digits-print n = read_digits-print_from (suc n) n [] (omega arith) ∙ unfold read_digits in refl

-- `std::stoull` reads back every number below 2 ^ 64 that was printed.
pub stoull-print : (n : ℕ) → n < u64_mod → stoull (print n) ≡ returns n
unfolding stoull
stoull-print n h =
    let (c, l, e, d) = print-digit (suc n) n [] (omega arith) in
    ground (arith, e, d, h, read_digits-print n)
