-- ===== src/Net/Connections.antt =====
-- src/net/connection_manager.h: `ConnectionManager`, the connections by their descriptors. `C` is
-- the type of the connections.
use kvmemo.Base.{
  ℕ, ℕ_eq, ◌≡◌, refl, List, [], ◌∷◌, none, some, arith, lookup, erase, ite, is_some, length,
  Outcome, returns, throws, runtime_error, if◌then◌else◌,
}
use kvmemo.Base.Assoc
use kvmemo.Base.Assoc.{emplace}

module _ {C : Type 0} where
  -- `Add`, with the descriptor of the connection
  unfoldable pub add : ℕ → C → List (ℕ × C) → List (ℕ × C)
  unfolding emplace
  add fd connection m = emplace fd connection m

  unfoldable pub remove : ℕ → List (ℕ × C) → List (ℕ × C)
  remove fd m = elim (lookup fd m) [ none ↦ m | some _ ↦ erase fd m ]

  unfoldable pub get : ℕ → List (ℕ × C) → Outcome C
  get fd m = elim (lookup fd m) [ none ↦ throws runtime_error | some c ↦ returns c ]

  unfoldable pub size : List (ℕ × C) → ℕ
  size m = length m

  -- `ForEachConnection`: the callback may change each connection.
  unfoldable pub for_each_connection : (ℕ → C → C) → List (ℕ × C) → List (ℕ × C)
  for_each_connection callback [] = []
  for_each_connection callback ((fd, connection) ∷ m) =
      (fd, callback fd connection) ∷ for_each_connection callback m

  -- The callback is made for each connection that can be got, and for no other.
  pub get-for_each_connection :
      (callback : ℕ → C → C) (fd : ℕ) (m : List (ℕ × C))
      → get fd (for_each_connection callback m)
        ≡ (elim (lookup fd m) [ none ↦ throws runtime_error | some c ↦ returns (callback fd c) ])
  unfolding get for_each_connection lookup
  get-for_each_connection callback fd [] = refl
  get-for_each_connection callback fd ((i, c) ∷ m) =
      ground (arith, get-for_each_connection callback fd m)

  -- A connection that is added can be got, unless its descriptor was taken: then the new
  -- connection is dropped, and the old one stays. Every other connection stays.
  pub get-add :
      (fd fd' : ℕ) (c : C) (m : List (ℕ × C))
      → get fd' (add fd c m) ≡ (
          if is_some (lookup fd' m)
          then get fd' m
          else ite (ℕ_eq.dec fd fd') (returns c) (get fd' m))
  unfolding get add
  get-add fd fd' c m = ground (arith, Assoc.lookup-emplace fd fd' c m)

  -- A removed connection cannot be got any more, and every other one stays.
  pub get-remove :
      (fd fd' : ℕ) (m : List (ℕ × C))
      → get fd' (remove fd m) ≡ ite (ℕ_eq.dec fd fd') (throws runtime_error) (get fd' m)
  unfolding get remove
  get-remove fd fd' m = ground (arith, Assoc.lookup-erase fd fd' m)
