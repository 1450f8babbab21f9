-- ===== src/Core/Lru/Nodes.antt =====
-- src/core/lru_cache.h: the list of nodes, seen as a list of keys.
use kvmemo.Base.{
  ℕ, ◌+◌, Str, List, [], ◌∷◌, ◌≡◌, refl, Option, none, some, ite, true, arith, lookup, erase,
  Unique, contains, Distinct, is_some, map, ◌<◌, Str_eq, ℕ_eq,
}
use kvmemo.Base.Assoc.{erase_absent}
use kvmemo.Base.Keys
use kvmemo.Core.Lru.{back, pop_back}

abbrev pub Nodes : Type 0
Nodes = List (ℕ × Str)

-- The keys, the most recently used one first.
abbrev pub node_keys : Nodes → List Str
node_keys = map (λ n. n.1)

-- The node of a key.
unfoldable pub node_of : Str → Nodes → Option ℕ
node_of k [] = none
node_of k ((i, j) ∷ l) = ite (Str_eq.dec j k) (some i) (node_of k l)

-- No identity was given out from `n` on.
abbrev pub Below : ℕ → Nodes → Type 0
Below n [] = Unit
Below n ((i, j) ∷ l) = (i < n) × Below n l

pub Below-erase : (n id : ℕ) (l : Nodes) → Below n l → Below n (erase id l)
unfolding erase
Below-erase n id [] b = tt
Below-erase n id ((i, j) ∷ l) b = ground (arith, Below-erase n id l b.1)

pub Below-suc : (n : ℕ) (l : Nodes) → Below n l → Below (n + 1) l
Below-suc n [] b = tt
Below-suc n ((i, j) ∷ l) b = (omega arith, Below-suc n l b.1)

pub Below-lookup : (n : ℕ) (l : Nodes) → Below n l → lookup n l ≡ none
unfolding lookup
Below-lookup n [] b = refl
Below-lookup n ((i, j) ∷ l) b = ground (arith, Below-lookup n l b.1)

pub Below-node_of :
    (n : ℕ) (k : Str) (id : ℕ) (l : Nodes) → Below n l → node_of k l ≡ some id → id < n
unfolding node_of
Below-node_of n k id [] b h = ground arith
Below-node_of n k id ((i, j) ∷ l) b h = ground (arith, Below-node_of n k id l b.1)

pub contains-node_of : (k : Str) (l : Nodes) → contains k (node_keys l) ≡ is_some (node_of k l)
unfolding contains node_of
contains-node_of k [] = refl
contains-node_of k ((i, j) ∷ l) = ground (arith, contains-node_of k l)

-- An iterator that is stored for a key names a node with that key.
pub lookup-node_of :
    (k : Str) (id : ℕ) (l : Nodes) → Unique l → node_of k l ≡ some id → lookup id l ≡ some k
unfolding lookup node_of
lookup-node_of k id [] u h = ground arith
lookup-node_of k id ((i, j) ∷ l) u h = ground (arith, lookup-node_of k id l u.1)

-- Erasing the node of a key removes the key.
pub keys-erase :
    (k : Str) (id : ℕ) (l : Nodes)
    → Unique l
    → Distinct (node_keys l)
    → node_of k l ≡ some id
    → node_keys (erase id l) ≡ Keys.remove k (node_keys l)
unfolding lookup node_of erase Keys.remove
keys-erase k id [] u d h = ground arith
keys-erase k id ((i, j) ∷ l) u d h = ground (
  arith,
  keys-erase k id l u.1 d.1,
  lookup-node_of k id l u.1,
  erase_absent i l u.0,
  Keys.remove_absent k (node_keys l),
)

pub node_of-erase :
    (k q : Str) (id : ℕ) (l : Nodes)
    → Unique l
    → Distinct (node_keys l)
    → node_of k l ≡ some id
    → node_of q (erase id l) ≡ ite (Str_eq.dec k q) none (node_of q l)
unfolding lookup node_of erase
node_of-erase k q id [] u d h = ground arith
node_of-erase k q id ((i, j) ∷ l) u d h = ground (
  arith,
  node_of-erase k q id l u.1 d.1,
  lookup-node_of k id l u.1,
  erase_absent i l u.0,
  contains-node_of q l,
)

pub back-keys : (l : Nodes) (n : ℕ × Str) → back l ≡ some n → back (node_keys l) ≡ some n.1
unfolding back
back-keys [] n h = ground arith
back-keys (m ∷ []) n h = ground arith
back-keys (m ∷ m' ∷ l) n h = back-keys (m' ∷ l) n h

pub back-keys_none : (l : Nodes) → back l ≡ none → node_keys l ≡ []
unfolding back
back-keys_none [] h = refl
back-keys_none (m ∷ []) h = ground arith
back-keys_none (m ∷ m' ∷ l) h = absurd (ground (arith, back-keys_none (m' ∷ l) h))

pub back_of_nil : (l : Nodes) → node_keys l ≡ [] → back l ≡ none
unfolding back
back_of_nil [] h = refl
back_of_nil (m ∷ l) h = ground arith

-- The last node is the node of its key.
pub back-node_of :
    (l : Nodes) (n : ℕ × Str) → Distinct (node_keys l) → back l ≡ some n → node_of n.1 l ≡ some n.0
unfolding back node_of
back-node_of [] n d h = ground arith
back-node_of (m ∷ []) n d h = ground arith
back-node_of (m ∷ m' ∷ l) n d h =
    ground (arith, back-node_of (m' ∷ l) n d.1 h, contains-node_of m.1 (m' ∷ l))

back-lookup : (l : Nodes) (n : ℕ × Str) → back l ≡ some n → is_some (lookup n.0 l) ≡ true
unfolding back lookup
back-lookup [] n h = ground arith
back-lookup (m ∷ []) n h = ground arith
back-lookup (m ∷ m' ∷ l) n h = ground (arith, back-lookup (m' ∷ l) n h)

pub pop_back-erase :
    (l : Nodes) (n : ℕ × Str) → Unique l → back l ≡ some n → pop_back l ≡ erase n.0 l
unfolding back pop_back erase lookup
pop_back-erase [] n u h = ground arith
pop_back-erase (m ∷ []) n u h = ground arith
pop_back-erase (m ∷ m' ∷ l) n u h =
    ground (arith, pop_back-erase (m' ∷ l) n u.1 h, back-lookup (m' ∷ l) n h)
