-- ===== src/Core/Manager/Listing.antt =====
-- src/core/shard_manager.h: `GetAllKeys` and `CleanupExpired` over all shards.
use kvmemo.Base.{
  ℕ, zero, suc, ◌≤◌, Str, Str_eq, ◌≡◌, refl, sym, ◌∙◌, Option, none, lookup, List, [], ◌∷◌, some,
  arith, get_elem?, is_some, true, Unique, ap, Option-cases, inl, inr,
}
use kvmemo.Base.Assoc
use kvmemo.Core.Shard
use kvmemo.Core.Shard.{Shard}
use kvmemo.Core.Shard.Invariant as ShardInvariant
use kvmemo.Core.Shard.Reads as ShardReads
use kvmemo.Core.Manager.{ShardManager, index_of, list_from, get_all_keys}
use kvmemo.Core.Manager.Routing.{IsValid, shard_of}
use kvmemo.Core.Manager.Replies.{find}

-- No shard of the list stores `q`, but for the one at index `n`.
abbrev OnlyAt : Str → ℕ → List Shard → Type 0
OnlyAt q n shards =
    (j : ℕ) (t : Shard) → get_elem? shards j ≡ some t → is_some (lookup q t.store) ≡ true → j ≡ n

none_of_is_some {ℓ} : {A : Type ℓ} (o : Option A) → (is_some o ≡ true → ⊥) → o ≡ none
none_of_is_some none h = refl
none_of_is_some (some a) h = absurd (h refl)

list_absent :
    (clock : ℕ → ℕ → ℕ) (q : Str) (shards : List Shard)
    → ((j : ℕ) (t : Shard) → get_elem? shards j ≡ some t → lookup q t.store ≡ none)
    → lookup q (list_from clock shards) ≡ none
unfolding list_from lookup
list_absent clock q [] h = refl
list_absent clock q (s ∷ shards) h = ground (
  arith,
  Assoc.lookup-append q (Shard.get_all_keys (clock 0) s) (list_from (λ i. clock (suc i)) shards),
  ShardReads.get_all_keys_absent (clock 0) q s (h 0 s refl),
  list_absent (λ i. clock (suc i)) q shards (λ j t e. h (suc j) t e),
)

lookup-list_from :
    (clock : ℕ → ℕ → ℕ) (q : Str) (n : ℕ) (s : Shard) (shards : List Shard)
    → get_elem? shards n ≡ some s
    → OnlyAt q n shards
    → lookup q (list_from clock shards) ≡ lookup q (Shard.get_all_keys (clock n) s)
unfolding list_from
lookup-list_from clock q n s [] h o = ground arith
lookup-list_from clock q zero s (t ∷ shards) h o =
    elim (Option-cases (lookup q (Shard.get_all_keys (clock 0) t))) [
      | inl e ↦ ground (
        arith,
        h,
        e,
        Assoc.lookup-append q (Shard.get_all_keys (clock 0) t)
            (list_from (λ i. clock (suc i)) shards),
        list_absent (λ i. clock (suc i)) q shards
            (λ j u g.
              none_of_is_some (lookup q u.store) (λ p. absurd (omega (arith, o (suc j) u g p)))),
      )
      | inr (v, e) ↦ ground (
        arith,
        h,
        e,
        Assoc.lookup-append q (Shard.get_all_keys (clock 0) t)
            (list_from (λ i. clock (suc i)) shards),
      )
    ]
lookup-list_from clock q (suc n) s (t ∷ shards) h o = ground (
  arith,
  Assoc.lookup-append q (Shard.get_all_keys (clock 0) t) (list_from (λ i. clock (suc i)) shards),
  ShardReads.get_all_keys_absent (clock 0) q t
      (none_of_is_some (lookup q t.store) (λ p. absurd (omega (arith, o 0 t refl p)))),
  lookup-list_from (λ i. clock (suc i)) q n s shards h (λ j u g p. omega (arith, o (suc j) u g p)),
)

-- No two shards of the list store the same key.
abbrev Apart : List Shard → Type 0
Apart shards =
    (i j : ℕ) (s t : Shard) (q : Str)
    → get_elem? shards i ≡ some s
    → get_elem? shards j ≡ some t
    → is_some (lookup q s.store) ≡ true
    → is_some (lookup q t.store) ≡ true
    → i ≡ j

-- A key that a shard lists is stored there.
listed-stored :
    (clock : ℕ → ℕ) (q v : Str) (s : Shard)
    → lookup q (Shard.get_all_keys clock s) ≡ some v
    → is_some (lookup q s.store) ≡ true
listed-stored clock q v s h = elim (Option-cases (lookup q s.store)) [
  | inl e ↦ absurd (cc (sym h ∙ ShardReads.get_all_keys_absent clock q s e))
  | inr (x, e) ↦ ap is_some e
]

list_from-Unique :
    (clock : ℕ → ℕ → ℕ) (shards : List Shard)
    → ((i : ℕ) (s : Shard) → get_elem? shards i ≡ some s → ShardInvariant.IsValid s)
    → Apart shards
    → Unique (list_from clock shards)
unfolding list_from
list_from-Unique clock [] v a = tt
list_from-Unique clock (s ∷ shards) v a =
    Assoc.append-Unique (Shard.get_all_keys (clock 0) s) (list_from (λ i. clock (suc i)) shards)
      (ShardReads.get_all_keys-Unique (clock 0) s (v 0 s refl))
      (list_from-Unique (λ i. clock (suc i)) shards (λ i t e. v (suc i) t e)
        (λ i j t u q e f p r. omega (arith, a (suc i) (suc j) t u q e f p r)))
      (λ q x h.
        list_absent (λ i. clock (suc i)) q shards
          (λ j t e. none_of_is_some (lookup q t.store) (λ p.
            absurd (omega (arith, a 0 (suc j) s t q refl e (listed-stored (clock 0) q x s h) p)))))

module _ (hash : Str → ℕ) where
  -- On a valid manager, with all readings of the clock between `lo` and `hi`, `GetAllKeys` lists
  -- no key twice. It lists every key that can still be read at `hi`, with its value, and each pair
  -- that it lists could be read at `lo`.
  pub get_all_keys-find :
      (clock : ℕ → ℕ → ℕ) (lo hi : ℕ) (q v : Str) (m : ShardManager)
      → IsValid hash m
      → ((i j : ℕ) → (lo ≤ clock i j) × (clock i j ≤ hi))
      → Unique (get_all_keys clock m)
        × (find hash hi q m ≡ some v → lookup q (get_all_keys clock m) ≡ some v)
        × (lookup q (get_all_keys clock m) ≡ some v → find hash lo q m ≡ some v)
  unfolding get_all_keys find
  get_all_keys-find clock lo hi q v m valid c =
      let (s, h) = shard_of hash q m valid in
      let n = index_of hash q m in
      let l = lookup-list_from clock q n s m.shards h (λ j t e p. sym (valid.placed j t q e p)) in
      let r = ShardReads.get_all_keys-get (clock n) lo hi q v s (valid.valid n s h) (c n) in
      (
        list_from-Unique clock m.shards valid.valid
            (λ i j t u k e f p g. sym (valid.placed i t k e p) ∙ valid.placed j u k f g),
        rw (h, find) (λ e. l ∙ r.0 e),
        rw (h, find) (λ e. r.1 (sym l ∙ e)),
      )
