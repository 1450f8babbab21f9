-- ===== src/Base/Strings.antt =====
-- `std::string`: a list of bytes. Two strings are compared by their bytes.
use Prim.Native.Nat.{ℕ}
use Prim.Native.Char.{code}
use Prim.Native.String.{String}
use mathlib.Core.List.{List, [], ◌∷◌}
use mathlib.Core.Path.{◌≡◌, refl, ap₂}
use native.Mathlib.Decide.{ℕ_discrete}
use kvmemo.Base.Assoc.{DecEq}

abbrev pub Str : Type 0
Str = List ℕ

cons-Dec : {a b : ℕ} {x y : Str} → Dec (a ≡ b) → Dec (x ≡ y) → Dec (◌≡◌ {A = Str} (a ∷ x) (b ∷ y))
cons-Dec (yes p) (yes q) = yes (ap₂ ◌∷◌ p q)
cons-Dec (yes p) (no q) = no (λ e. q (cc e))
cons-Dec (no p) _ = no (λ e. p (cc e))

unfoldable pub Str-discrete : Discrete Str
unfolding ℕ_discrete cons-Dec
Str-discrete [] [] = yes refl
Str-discrete [] (b ∷ y) = no (λ e. cc e)
Str-discrete (a ∷ x) [] = no (λ e. cc e)
Str-discrete (a ∷ x) (b ∷ y) = cons-Dec (ℕ_discrete a b) (Str-discrete x y)

instance abbrev pub Str_eq : DecEq Str
Str_eq = record { dec = Str-discrete }

-- The bytes of an ASCII literal.
abbrev pub str : String → Str
str String.[] = []
str (String.◌∷◌ c s) = code c ∷ str s
