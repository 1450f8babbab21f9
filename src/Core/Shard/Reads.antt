-- ===== src/Core/Shard/Reads.antt =====
-- src/core/shard.h: operations that no later `Get` of another key can notice, and `GetAllKeys`.
use kvmemo.Base.{
  ℕ, ◌+◌, ◌≤◌, Str, Str_eq, ℕ_eq, List, [], ◌∷◌, ◌≡◌, refl, ap, sym, ◌∙◌, none, some, ite, arith,
  lookup, Unique, inl, inr, Option-cases, Bool-cases,
}
use kvmemo.Base.Assoc
use kvmemo.Core.Entry.{Entry, is_expired}
use kvmemo.Core.Entry.Lifetime.{expired_mono}
use kvmemo.Core.Shard.{Shard, remove_internal, get, delete, get_all_keys, live_pairs}
use kvmemo.Core.Shard.Invariant.{IsValid}
use kvmemo.Core.Shard.Writes.{live, get-live, lookup-delete}

-- `Delete` removes the key from what can be read, and nothing else.
pub get-delete :
    (now : ℕ) (k q : Str) (s : Shard)
    → (get now q (delete k s)).0 ≡ ite (Str_eq.dec k q) none (get now q s).0
get-delete now k q s =
    get-live now q (delete k s)
    ∙ ap (live now) (lookup-delete k q s)
    ∙ ground (arith, get-live now q s)

live-lookup-get :
    (now later : ℕ) (k q : Str) (s : Shard)
    → now ≤ later
    → live later (lookup q (get now k s).1.store) ≡ live later (lookup q s.store)
unfolding get remove_internal
live-lookup-get now later k q s h = elim (Option-cases (lookup k s.store)) [
  | inl e ↦ rw (e, get) refl
  | inr (entry, e) ↦ elim (Bool-cases (is_expired now entry)) [
    | inl x ↦
        rw (e, get, x)
          (ground (arith, e, Assoc.lookup-erase k q s.store, expired_mono now later entry h x))
    | inr x ↦ rw (e, get, x) refl
  ]
]

-- A `Get` changes no later reply, though it drops the entry if it has expired.
pub get-get :
    (now later : ℕ) (k q : Str) (s : Shard)
    → now ≤ later
    → (get later q (get now k s).1).0 ≡ (get later q s).0
get-get now later k q s h =
    get-live later q (get now k s).1 ∙ live-lookup-get now later k q s h ∙ sym (get-live later q s)

live-lookup-get_gone :
    (now later : ℕ) (k q : Str) (s : Shard)
    → live later (lookup q s.store) ≡ none
    → live later (lookup q (get now k s).1.store) ≡ none
unfolding get remove_internal
live-lookup-get_gone now later k q s g = elim (Option-cases (lookup k s.store)) [
  | inl e ↦ rw (e, get) g
  | inr (entry, e) ↦ elim (Bool-cases (is_expired now entry)) [
    | inl x ↦ rw (e, get, x) (ground (arith, g, Assoc.lookup-erase k q s.store))
    | inr x ↦ rw (e, get, x) g
  ]
]

-- A `Get` brings no key back, at any time.
pub get-get_gone :
    (now later : ℕ) (k q : Str) (s : Shard)
    → (get later q s).0 ≡ none
    → (get later q (get now k s).1).0 ≡ none
get-get_gone now later k q s h =
    get-live later q (get now k s).1
    ∙ live-lookup-get_gone now later k q s (sym (get-live later q s) ∙ h)

-- A pair that is stored and live at `hi` is listed, and a listed pair is live at `lo`.
live_pairs_complete :
    (clock : ℕ → ℕ) (hi i : ℕ) (q v : Str) (m : List (Str × Entry))
    → ((j : ℕ) → clock j ≤ hi)
    → live hi (lookup q m) ≡ some v
    → lookup q (live_pairs clock i m) ≡ some v
unfolding live_pairs lookup is_expired
live_pairs_complete clock hi i q v [] c h = ground arith
live_pairs_complete clock hi i q v ((k, e) ∷ m) c h =
    ground (arith, live_pairs_complete clock hi (i + 1) q v m c, c i, h)

live_pairs_sound :
    (clock : ℕ → ℕ) (lo i : ℕ) (q v : Str) (m : List (Str × Entry))
    → ((j : ℕ) → lo ≤ clock j)
    → Unique m
    → lookup q (live_pairs clock i m) ≡ some v
    → live lo (lookup q m) ≡ some v
unfolding live_pairs lookup is_expired
live_pairs_sound clock lo i q v [] c u h = ground arith
live_pairs_sound clock lo i q v ((k, e) ∷ m) c u h =
    ground (arith, live_pairs_sound clock lo (i + 1) q v m c u.1, c i, u.0, h)

live_pairs_absent :
    (clock : ℕ → ℕ) (i : ℕ) (q : Str) (m : List (Str × Entry))
    → lookup q m ≡ none
    → lookup q (live_pairs clock i m) ≡ none
unfolding live_pairs lookup
live_pairs_absent clock i q [] h = refl
live_pairs_absent clock i q ((k, e) ∷ m) h = ground (arith, live_pairs_absent clock (i + 1) q m, h)

live_pairs-Unique :
    (clock : ℕ → ℕ) (i : ℕ) (m : List (Str × Entry)) → Unique m → Unique (live_pairs clock i m)
unfolding live_pairs
live_pairs-Unique clock i [] u = tt
live_pairs-Unique clock i ((k, e) ∷ m) u =
    ground (arith, live_pairs-Unique clock (i + 1) m u.1, live_pairs_absent clock (i + 1) k m u.0)

pub get_all_keys-Unique : (clock : ℕ → ℕ) (s : Shard) → IsValid s → Unique (get_all_keys clock s)
unfolding get_all_keys
get_all_keys-Unique clock s v = live_pairs-Unique clock 0 s.store v.linked.unique

pub get_all_keys_absent :
    (clock : ℕ → ℕ) (q : Str) (s : Shard)
    → lookup q s.store ≡ none
    → lookup q (get_all_keys clock s) ≡ none
unfolding get_all_keys
get_all_keys_absent clock q s h = live_pairs_absent clock 0 q s.store h

-- `GetAllKeys` lists every key that can still be read when its call ends, with its value, and
-- each pair that it lists could be read when the call began.
pub get_all_keys-get :
    (clock : ℕ → ℕ) (lo hi : ℕ) (q v : Str) (s : Shard)
    → IsValid s
    → ((j : ℕ) → (lo ≤ clock j) × (clock j ≤ hi))
    → ((get hi q s).0 ≡ some v → lookup q (get_all_keys clock s) ≡ some v)
      × (lookup q (get_all_keys clock s) ≡ some v → (get lo q s).0 ≡ some v)
unfolding get_all_keys
get_all_keys-get clock lo hi q v s valid c = (
  (λ h. live_pairs_complete clock hi 0 q v s.store (λ j. (c j).1) (sym (get-live hi q s) ∙ h)),
  (λ h.
      get-live lo q s
      ∙ live_pairs_sound clock lo 0 q v s.store (λ j. (c j).0) valid.linked.unique h),
)
