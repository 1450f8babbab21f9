-- ===== src/Core/Lru/Back.antt =====
-- src/core/lru_cache.h: the last key of the order of use.
use kvmemo.Base.{
  ◌<◌, Str, Str_eq, List, [], ◌∷◌, ◌++◌, ◌≡◌, refl, sym, ap, ◌∙◌, subst, some, true, arith,
  contains, Distinct, length,
}
use mathlib.Core.List.{reverse, reverse-reverse, reverse-cons}
use kvmemo.Base.Keys
use kvmemo.Core.Lru.{back}

pub back-contains : (l : List Str) (q : Str) → back l ≡ some q → contains q l ≡ true
unfolding back contains
back-contains [] q h = ground arith
back-contains (k ∷ []) q h = ground arith
back-contains (k ∷ k' ∷ l) q h = ground (arith, back-contains (k' ∷ l) q h)

pub back_of_pos : (l : List Str) → 0 < length l → (q : Str) × (back l ≡ some q)
unfolding back
back_of_pos [] h = absurd (omega arith)
back_of_pos (k ∷ []) h = (k, refl)
back_of_pos (k ∷ k' ∷ l) h = back_of_pos (k' ∷ l) (omega arith)

pub back-cons : (k : Str) (l : List Str) → 0 < length l → back (k ∷ l) ≡ back l
unfolding back
back-cons k [] h = absurd (omega arith)
back-cons k (j ∷ l) h = refl

back-concat : (l : List Str) (k : Str) → back (l ++ k ∷ []) ≡ some k
unfolding back
back-concat [] k = refl
back-concat (j ∷ []) k = refl
back-concat (j ∷ i ∷ l) k = back-concat (i ∷ l) k

remove-concat : (l : List Str) (k : Str) → Distinct (l ++ k ∷ []) → Keys.remove k (l ++ k ∷ []) ≡ l
unfolding Keys.remove contains
remove-concat [] k d = ground arith
remove-concat (j ∷ l) k d =
    ground (arith, remove-concat l k d.1, d.0, Keys.contains-append j l (k ∷ []))

-- The order of use, the oldest key first.
abbrev pub oldest : List Str → List Str
oldest = reverse

split_oldest : (l rest : List Str) (k : Str) → oldest l ≡ k ∷ rest → l ≡ reverse rest ++ k ∷ []
split_oldest l rest k h = sym (reverse-reverse l) ∙ ap reverse h ∙ reverse-cons k rest

-- The oldest key is the last of the order, and what is left keeps its order.
pub oldest-back : (l rest : List Str) (k : Str) → oldest l ≡ k ∷ rest → back l ≡ some k
oldest-back l rest k h = rw (split_oldest l rest k h) (back-concat (reverse rest) k)

pub oldest-remove :
    (l rest : List Str) (k : Str)
    → Distinct l
    → oldest l ≡ k ∷ rest
    → oldest (Keys.remove k l) ≡ rest
oldest-remove l rest k d h =
    let e = split_oldest l rest k h in
    ap (λ m. reverse (Keys.remove k m)) e
    ∙ ap reverse (remove-concat (reverse rest) k (subst Distinct e d))
    ∙ reverse-reverse rest

pub oldest-nil : (l : List Str) → oldest l ≡ [] → l ≡ []
oldest-nil l h = sym (reverse-reverse l) ∙ ap reverse h
