-- ===== src/Metrics/Latency/Merges.antt =====
-- src/metrics/latency_tracker.h: what the tracker keeps of the latencies does not depend on their
-- order: each number is a merge of them.
use kvmemo.Base.{
  ℕ, zero, suc, ◌+◌, ◌≡◌, refl, sym, ap, ◌∙◌, List, [], ◌∷◌, some, ◌||◌, arith, ltb, ◌==◌,
  if◌then◌else◌, get_elem?, set, All,
}

-- A way to merge numbers that ignores their order, where 0 says nothing.
pub record Merge : Type 0 where
  pub merge : ℕ → ℕ → ℕ
  pub merge_zero : (a : ℕ) → merge 0 a ≡ a
  pub merge_swap : (a b c : ℕ) → merge a (merge b c) ≡ merge b (merge a c)

module _ {ℓ} {A : Type ℓ} (m : Merge) where
  open m use {merge, merge_zero, merge_swap}

  unfoldable pub merge_all : (A → ℕ) → List A → ℕ
  merge_all w [] = 0
  merge_all w (x ∷ xs) = merge (w x) (merge_all w xs)

  -- The element at an index can be taken out of the merge.
  pub merge_all-set :
      (w : A → ℕ) (xs : List A) (i : ℕ) (x y : A)
      → get_elem? xs i ≡ some x
      → (rest : ℕ) × (merge_all w xs ≡ merge (w x) rest)
        × (merge_all w (set xs i y) ≡ merge (w y) rest)
  unfolding merge_all
  merge_all-set w [] i x y h = absurd (cc h)
  merge_all-set w (z ∷ xs) zero x y h =
      (merge_all w xs, ap (λ a. merge (w a) (merge_all w xs)) (ground (arith, h)), refl)
  merge_all-set w (z ∷ xs) (suc i) x y h =
      let (rest, before, after) = merge_all-set w xs i x y h in
      (
        merge (w z) rest,
        ap (merge (w z)) before ∙ merge_swap (w z) (w x) rest,
        ap (merge (w z)) after ∙ merge_swap (w z) (w y) rest,
      )

  -- If a part moves from an element to a number beside, the merge of all is as before.
  pub merge-move :
      (w : A → ℕ) (xs : List A) (i n n' : ℕ) (x y : A)
      → get_elem? xs i ≡ some x
      → ((rest : ℕ) → merge n' (merge (w y) rest) ≡ merge n (merge (w x) rest))
      → merge n' (merge_all w (set xs i y)) ≡ merge n (merge_all w xs)
  merge-move w xs i n n' x y h move =
      let (rest, before, after) = merge_all-set w xs i x y h in
      ap (merge n') after ∙ move rest ∙ ap (merge n) (sym before)

  -- Where nothing is left to merge, there is nothing beside.
  pub merge_all-zero : (w : A → ℕ) (xs : List A) → All (λ x. w x ≡ 0) xs → merge_all w xs ≡ 0
  unfolding merge_all
  merge_all-zero w [] h = refl
  merge_all-zero w (x ∷ xs) h =
      ap (λ a. merge a (merge_all w xs)) h.0 ∙ merge_zero (merge_all w xs) ∙ merge_all-zero w xs h.1

abbrev pub plus : Merge
plus = record {
  merge = λ a b. a + b;
  merge_zero = λ a. omega arith;
  merge_swap = λ a b c. omega arith;
}

abbrev pub larger : ℕ → ℕ → ℕ
larger a b = if ltb b a then a else b

pub larger_swap : (a b c : ℕ) → larger a (larger b c) ≡ larger b (larger a c)
larger_swap a b c = ground arith

pub larger_zero : (a : ℕ) → larger 0 a ≡ a
larger_zero a = ground arith

abbrev pub maximum : Merge
maximum = record { merge = larger; merge_zero = larger_zero; merge_swap = larger_swap }

-- 0 stands for no number yet.
abbrev pub smaller : ℕ → ℕ → ℕ
smaller a b = if a == 0 then b else if b == 0 || ltb a b then a else b

pub smaller_swap : (a b c : ℕ) → smaller a (smaller b c) ≡ smaller b (smaller a c)
smaller_swap a b c = ground arith

pub smaller_zero : (a : ℕ) → smaller 0 a ≡ a
smaller_zero a = ground arith

abbrev pub minimum : Merge
minimum = record { merge = smaller; merge_zero = smaller_zero; merge_swap = smaller_swap }
