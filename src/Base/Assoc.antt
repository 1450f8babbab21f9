-- ===== src/Base/Assoc.antt =====
-- `std::unordered_map` as an association list: new keys go to the end, and an assignment to a
-- present key keeps its place. The order stands for the unspecified iteration order.
use Prim.Native.Nat.{ℕ, suc}
use mathlib.Core.Path.{◌≡◌, refl}
use mathlib.Core.Bool.{true}
use mathlib.Core.Logic.{◌≢◌, ite}
use mathlib.Core.List.{List, [], ◌∷◌, ◌++◌}
use mathlib.Core.Option.{Option, none, some}
use native.Mathlib.Decide.{ℕ_discrete}
use native.Mathlib.Omega.{arith}
use kvmemo.Base.Lists.{length}
use kvmemo.Base.Tests.{is_some, if◌then◌else◌}

pub record DecEq {ℓ} (K : Type ℓ) : Type ℓ where
  pub dec : Discrete K

instance abbrev pub ℕ_eq : DecEq ℕ
ℕ_eq = record { dec = ℕ_discrete }

module _ {ℓ} {K V : Type ℓ} ⦃e : DecEq K⦄ where
  unfoldable pub lookup : K → List (K × V) → Option V
  lookup k [] = none
  lookup k ((j, v) ∷ m) = ite (e.dec j k) (some v) (lookup k m)

  -- `m[k] = v`
  unfoldable pub insert : K → V → List (K × V) → List (K × V)
  insert k v [] = (k, v) ∷ []
  insert k v ((j, w) ∷ m) = ite (e.dec j k) ((k, v) ∷ m) ((j, w) ∷ insert k v m)

  -- `m.erase(k)`
  -- `emplace` keeps what is there.
  unfoldable pub emplace : K → V → List (K × V) → List (K × V)
  emplace k v m = elim (lookup k m) [ none ↦ insert k v m | some _ ↦ m ]

  unfoldable pub erase : K → List (K × V) → List (K × V)
  erase k [] = []
  erase k ((j, v) ∷ m) = ite (e.dec j k) (erase k m) ((j, v) ∷ erase k m)

  -- No key stands twice.
  abbrev pub Unique : List (K × V) → Type ℓ
  Unique [] = Unit
  Unique ((k, v) ∷ m) = (lookup k m ≡ none) × Unique m

  pub lookup-insert :
      (k j : K) (v : V) (m : List (K × V))
      → lookup j (insert k v m) ≡ ite (e.dec k j) (some v) (lookup j m)
  unfolding lookup insert
  lookup-insert k j v [] = refl
  lookup-insert k j v ((i, w) ∷ m) = ground (arith, lookup-insert k j v m)

  pub lookup-emplace :
      (k q : K) (v : V) (m : List (K × V))
      → lookup q (emplace k v m)
        ≡ (if is_some (lookup q m) then lookup q m else ite (e.dec k q) (some v) none)
  unfolding emplace
  lookup-emplace k q v m = ground (arith, lookup-insert k q v m)

  pub lookup-erase :
      (k j : K) (m : List (K × V)) → lookup j (erase k m) ≡ ite (e.dec k j) none (lookup j m)
  unfolding lookup erase
  lookup-erase k j [] = ground arith
  lookup-erase k j ((i, w) ∷ m) = ground (arith, lookup-erase k j m)

  pub lookup-insert_self : (k : K) (v : V) (m : List (K × V)) → lookup k (insert k v m) ≡ some v
  lookup-insert_self k v m = ground (arith, lookup-insert k k v m)

  pub lookup-insert_ne :
      (k j : K) (v : V) (m : List (K × V)) → k ≢ j → lookup j (insert k v m) ≡ lookup j m
  lookup-insert_ne k j v m h = ground (arith, lookup-insert k j v m)

  pub lookup-erase_self : (k : K) (m : List (K × V)) → lookup k (erase k m) ≡ none
  lookup-erase_self k m = ground (arith, lookup-erase k k m)

  pub lookup-erase_ne : (k j : K) (m : List (K × V)) → k ≢ j → lookup j (erase k m) ≡ lookup j m
  lookup-erase_ne k j m h = ground (arith, lookup-erase k j m)

  pub erase_absent : (k : K) (m : List (K × V)) → lookup k m ≡ none → erase k m ≡ m
  unfolding lookup erase
  erase_absent k [] h = refl
  erase_absent k ((i, w) ∷ m) h = ground (arith, erase_absent k m)

  pub erase-Unique : (k : K) (m : List (K × V)) → Unique m → Unique (erase k m)
  unfolding erase
  erase-Unique k [] u = tt
  erase-Unique k ((i, w) ∷ m) u = ground (arith, erase-Unique k m u.1, lookup-erase k i m)

  pub insert-Unique : (k : K) (v : V) (m : List (K × V)) → Unique m → Unique (insert k v m)
  unfolding insert lookup
  insert-Unique k v [] u = (refl, tt)
  insert-Unique k v ((i, w) ∷ m) u = ground (arith, insert-Unique k v m u.1, lookup-insert k i v m)

  pub length-erase :
      (k : K) (m : List (K × V)) (v : V)
      → Unique m
      → lookup k m ≡ some v
      → suc (length (erase k m)) ≡ length m
  unfolding erase lookup
  length-erase k [] v u h = cc
  length-erase k ((i, w) ∷ m) v u h = ground (arith, length-erase k m v u.1, erase_absent k m)

  pub length-insert_old :
      (k : K) (v : V) (m : List (K × V))
      → is_some (lookup k m) ≡ true
      → length (insert k v m) ≡ length m
  unfolding insert lookup
  length-insert_old k v [] h = cc
  length-insert_old k v ((i, w) ∷ m) h = ground (arith, length-insert_old k v m)

  pub length-insert_new :
      (k : K) (v : V) (m : List (K × V))
      → lookup k m ≡ none
      → length (insert k v m) ≡ suc (length m)
  unfolding insert lookup
  length-insert_new k v [] h = refl
  length-insert_new k v ((i, w) ∷ m) h = ground (arith, length-insert_new k v m)

  pub lookup-append :
      (k : K) (l m : List (K × V))
      → lookup k (l ++ m) ≡ elim (lookup k l) [ none ↦ lookup k m | some v ↦ some v ]
  unfolding lookup
  lookup-append k [] m = refl
  lookup-append k ((i, w) ∷ l) m = ground (arith, lookup-append k l m)

  pub append-Unique :
      (l m : List (K × V))
      → Unique l
      → Unique m
      → ((k : K) (v : V) → lookup k l ≡ some v → lookup k m ≡ none)
      → Unique (l ++ m)
  unfolding lookup
  append-Unique [] m u w h = w
  append-Unique ((i, v) ∷ l) m u w h = (
    rw (lookup-append i l m, u.0) (h i v (ground arith)),
    append-Unique l m u.1 w (λ k x e. h k x (ground (arith, e, u.0))),
  )
