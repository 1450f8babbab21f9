-- ===== src/Base/Keys.antt =====
-- Lists of keys: membership as a test, removal, and lists without repetition.
use Prim.Native.Nat.{suc, ◌≤◌, ◌<◌}
use mathlib.Core.Path.{◌≡◌, refl, ap, sym, ◌∙◌}
use mathlib.Core.Bool.{Bool, true, false}
use mathlib.Core.Logic.{ite, inl, inr}
use mathlib.Core.List.{List, [], ◌∷◌, ◌++◌}
use mathlib.Core.Option.{some}
use native.Mathlib.Omega.{arith}
use kvmemo.Base.Tests.{is_some, Option-cases, if◌then◌else◌}
use kvmemo.Base.Lists.{length}
use kvmemo.Base.Assoc.{DecEq, lookup, erase, Unique, lookup-erase, length-erase, erase-Unique}

module _ {K : Type 0} ⦃e : DecEq K⦄ where
  unfoldable pub contains : K → List K → Bool
  contains k [] = false
  contains k (j ∷ l) = ite (e.dec j k) true (contains k l)

  -- every occurrence of the key
  unfoldable pub remove : K → List K → List K
  remove k [] = []
  remove k (j ∷ l) = ite (e.dec j k) (remove k l) (j ∷ remove k l)

  -- the loop of `std::find` and `erase` on a vector: the first occurrence
  unfoldable pub remove_first : K → List K → List K
  remove_first k [] = []
  remove_first k (j ∷ l) = ite (e.dec j k) l (j ∷ remove_first k l)

  abbrev pub Distinct : List K → Type 0
  Distinct [] = Unit
  Distinct (k ∷ l) = (contains k l ≡ false) × Distinct l

  pub contains-remove :
      (k j : K) (l : List K) → contains j (remove k l) ≡ ite (e.dec k j) false (contains j l)
  unfolding contains remove
  contains-remove k j [] = ground arith
  contains-remove k j (i ∷ l) = ground (arith, contains-remove k j l)

  pub contains-remove_self : (k : K) (l : List K) → contains k (remove k l) ≡ false
  contains-remove_self k l = ground (arith, contains-remove k k l)

  pub remove_absent : (k : K) (l : List K) → contains k l ≡ false → remove k l ≡ l
  unfolding contains remove
  remove_absent k [] h = refl
  remove_absent k (i ∷ l) h = ground (arith, remove_absent k l)

  pub remove-Distinct : (k : K) (l : List K) → Distinct l → Distinct (remove k l)
  unfolding remove
  remove-Distinct k [] d = tt
  remove-Distinct k (i ∷ l) d = ground (arith, remove-Distinct k l d.1, contains-remove k i l)

  pub length-remove :
      (k : K) (l : List K) → Distinct l → contains k l ≡ true → suc (length (remove k l)) ≡ length l
  unfolding contains remove
  length-remove k [] d h = cc
  length-remove k (i ∷ l) d h = ground (arith, length-remove k l d.1, remove_absent k l)

  pub length-remove-le : (k : K) (l : List K) → length (remove k l) ≤ length l
  unfolding remove
  length-remove-le k [] = omega arith
  length-remove-le k (i ∷ l) = ground (arith, length-remove-le k l)

  pub contains_head : (k : K) (l : List K) → contains k (k ∷ l) ≡ true
  unfolding contains
  contains_head k l = ground arith

  pub length-remove-lt : (k : K) (l : List K) → contains k l ≡ true → length (remove k l) < length l
  unfolding contains remove
  length-remove-lt k [] h = absurd (cc h)
  length-remove-lt k (i ∷ l) h = ground (arith, length-remove-lt k l, length-remove-le k l)

  -- A list without repetition is no longer than one that has all its elements.
  pub length-le_of_subset :
      (l m : List K)
      → Distinct l
      → ((k : K) → contains k l ≡ true → contains k m ≡ true)
      → length l ≤ length m
  length-le_of_subset [] m d h = omega arith
  length-le_of_subset (k ∷ l) m d h =
      let rest =
        length-le_of_subset l (remove k m) d.1
          λ j p. unfold contains in ground (arith, p, d.0, h j, contains-remove k j m) in
      omega (arith, rest, length-remove-lt k m (h k (contains_head k l)))

  pub remove_first-remove : (k : K) (l : List K) → Distinct l → remove_first k l ≡ remove k l
  unfolding contains remove remove_first
  remove_first-remove k [] d = refl
  remove_first-remove k (i ∷ l) d = ground (arith, remove_first-remove k l d.1, remove_absent k l)

  pub contains-append :
      (k : K) (l m : List K) → contains k (l ++ m) ≡ (if contains k l then true else contains k m)
  unfolding contains
  contains-append k [] m = refl
  contains-append k (i ∷ l) m = ground (arith, contains-append k l m)

  pub concat-Distinct :
      (k : K) (l : List K) → contains k l ≡ false → Distinct l → Distinct (l ++ k ∷ [])
  unfolding contains
  concat-Distinct k [] h d = (refl, tt)
  concat-Distinct k (i ∷ l) h d = ground (arith, concat-Distinct k l, contains-append i l (k ∷ []))

  -- Taking a key out of a list and of a map keeps the two in step.
  same_keys-erase :
      {V : Type 0} (k j : K) (l : List K) (m : List (K × V))
      → contains k l ≡ false
      → contains j (k ∷ l) ≡ is_some (lookup j m)
      → contains j l ≡ is_some (lookup j (erase k m))
  unfolding contains
  same_keys-erase k j l m d h = ground (arith, lookup-erase k j m)

  is_some-lookup :
      {V : Type 0} (k : K) (m : List (K × V))
      → true ≡ is_some (lookup k m)
      → (v : V) × (lookup k m ≡ some v)
  is_some-lookup k m h = elim (Option-cases (lookup k m)) [
    | inl e ↦ absurd (ground arith)
    | inr p ↦ p
  ]

  -- A list without repetition and a map with the same keys have the same size.
  pub same_size :
      {V : Type 0} (l : List K) (m : List (K × V))
      → Distinct l
      → Unique m
      → ((k : K) → contains k l ≡ is_some (lookup k m))
      → length l ≡ length m
  same_size [] [] d u h = refl
  same_size [] ((k, v) ∷ m) d u h = unfold contains lookup in ground (arith, h k)
  same_size (k ∷ l) m d u h =
      let (v, found) = is_some-lookup k m (sym (contains_head k l) ∙ h k) in
      let rest =
        same_size l (erase k m) d.1 (erase-Unique k m u) (λ j. same_keys-erase k j l m d.0 (h j)) in
      ap suc rest ∙ length-erase k m v u found
