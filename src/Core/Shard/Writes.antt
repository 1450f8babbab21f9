-- ===== src/Core/Shard/Writes.antt =====
-- src/core/shard.h: `Set`, `SetWithTTL` and `Delete` as writes to a bounded store.
use kvmemo.Base.{
  ℕ, ◌<◌, Str, Str_eq, ℕ_eq, ◌≡◌, refl, ap, sym, ◌∙◌, ◌≢◌, Option, none, some, ite, true, arith,
  lookup, contains, is_some, ◌==◌, if◌then◌else◌, inl, inr, Bool-cases, returns, throws,
  invalid_argument,
}
use kvmemo.Base.Assoc
use kvmemo.Core.Entry.{Entry, with_ttl, without_ttl, has_ttl, is_expired}
use kvmemo.Core.Lru
use kvmemo.Core.Lru.Order
use kvmemo.Core.Lru.Order.{recent}
use kvmemo.Core.Lru.Back.{back-contains}
use kvmemo.Core.Ttl
use kvmemo.Core.Ttl.{TtlIndex, upsert}
use kvmemo.Core.Ttl.Index
use kvmemo.Core.Ttl.Index.{time_of}
use kvmemo.Core.Shard
use kvmemo.Core.Shard.{Shard, remove_internal, set, set_with_ttl, get, delete}
use kvmemo.Core.Shard.Invariant.{IsValid, remove_internal-IsValid}
use kvmemo.Core.Shard.Place.{
  place, after_place, victim, IsIndexFor, place-after_place, after_place-IsValid,
  lookup-after_place,
}

-- What a client can read of a stored entry.
abbrev pub live : ℕ → Option Entry → Option Str
live now none = none
live now (some e) = if is_expired now e then none else some e.value

pub get-live : (now : ℕ) (k : Str) (s : Shard) → (get now k s).0 ≡ live now (lookup k s.store)
unfolding get
get-live now k s = ground arith

remove-IsIndexFor : (k : Str) (s : Shard) → IsValid s → IsIndexFor k (Ttl.remove k s.ttl_index) s
remove-IsIndexFor k s v = (
  Index.remove-IsValid k s.ttl_index v.linked.ttl_valid,
  λ q h t. ground (arith, Index.time_of-remove k q s.ttl_index, t),
)

-- the index that `SetWithTTL` leaves
unfoldable pub index_with : Str → Entry → TtlIndex → TtlIndex
index_with k e x = if has_ttl e then upsert k e.expire_at x else x

index_with-IsIndexFor :
    (k : Str) (e : Entry) (s : Shard) → IsValid s → IsIndexFor k (index_with k e s.ttl_index) s
unfolding index_with
index_with-IsIndexFor k e s v = elim (Bool-cases (has_ttl e)) [
  | inl h ↦ rw h (
    Index.upsert-IsValid k e.expire_at s.ttl_index v.linked.ttl_valid,
    λ q n t. ground (arith, Index.time_of-upsert k q e.expire_at s.ttl_index, t),
  )
  | inr h ↦ rw h (v.linked.ttl_valid, λ q n t. t)
]

-- The shard after `Set` and after `SetWithTTL`.
unfoldable pub after_set : ℕ → Str → Str → Shard → Shard
after_set now k v s = after_place k (without_ttl now v) (Ttl.remove k s.ttl_index) s

unfoldable pub after_set_with_ttl : ℕ → Str → Str → ℕ → Shard → Shard
unfolding index_with
after_set_with_ttl now k v ttl s =
    let e = with_ttl now v ttl in after_place k e (index_with k e s.ttl_index) s

module _ (now : ℕ) (k v : Str) (s : Shard) (valid : IsValid s) where
  -- `Set` never throws.
  pub set-after_set : set now k v s ≡ (returns tt, after_set now k v s)
  unfolding set after_set place
  set-after_set =
      place-after_place k (without_ttl now v) (Ttl.remove k s.ttl_index) s valid
        (remove-IsIndexFor k s valid)

  pub after_set-IsValid : IsValid (after_set now k v s)
  unfolding after_set
  after_set-IsValid =
      after_place-IsValid k (without_ttl now v) (Ttl.remove k s.ttl_index) s valid
        (remove-IsIndexFor k s valid)

  module _ (ttl : ℕ) where
    pub set_with_ttl-after :
        set_with_ttl now k v ttl s ≡ (returns tt, after_set_with_ttl now k v ttl s)
    unfolding set_with_ttl after_set_with_ttl place
    set_with_ttl-after =
        let e = with_ttl now v ttl in
        place-after_place k e (index_with k e s.ttl_index) s valid
          (index_with-IsIndexFor k e s valid)

    pub after_set_with_ttl-IsValid : IsValid (after_set_with_ttl now k v ttl s)
    unfolding after_set_with_ttl
    after_set_with_ttl-IsValid =
        let e = with_ttl now v ttl in
        after_place-IsValid k e (index_with k e s.ttl_index) s valid
          (index_with-IsIndexFor k e s valid)

-- The reply for `q`, which is lost if `q` is the victim.
abbrev pub unless_victim : Option Str → Str → Option Str → Option Str
unless_victim none q r = r
unless_victim (some w) q r = ite (Str_eq.dec w q) none r

live-ite :
    (later : ℕ) (k q : Str) (e : Entry) (w : Option Str) (o : Option Entry)
    → live later
        (ite (Str_eq.dec k q) (some e) (elim w [ none ↦ o | some j ↦ ite (Str_eq.dec j q) none o ]))
      ≡ ite (Str_eq.dec k q) (live later (some e)) (unless_victim w q (live later o))
live-ite later k q e none o = ground arith
live-ite later k q e (some j) o = ground arith

get-after_place :
    (later : ℕ) (k q : Str) (e : Entry) (x : TtlIndex) (s : Shard)
    → IsValid s
    → (get later q (after_place k e x s)).0
      ≡ ite (Str_eq.dec k q) (live later (some e)) (unless_victim (victim k s) q (get later q s).0)
get-after_place later k q e x s valid =
    get-live later q (after_place k e x s)
    ∙ ap (live later) (lookup-after_place k e x s q valid)
    ∙ live-ite later k q e (victim k s) (lookup q s.store)
    ∙ ap (λ r. ite (Str_eq.dec k q) (live later (some e)) (unless_victim (victim k s) q r))
        (sym (get-live later q s))

module _ (now later : ℕ) (k v q : Str) (s : Shard) (valid : IsValid s) where
  pub get-after_set :
      (get later q (after_set now k v s)).0
      ≡ ite (Str_eq.dec k q) (some v) (unless_victim (victim k s) q (get later q s).0)
  unfolding after_set is_expired without_ttl
  get-after_set = get-after_place later k q (without_ttl now v) (Ttl.remove k s.ttl_index) s valid

  pub get-after_set_with_ttl :
      (ttl : ℕ)
      → (get later q (after_set_with_ttl now k v ttl s)).0
        ≡ ite
            (Str_eq.dec k q)
            (live later (some (with_ttl now v ttl)))
            (unless_victim (victim k s) q (get later q s).0)
  unfolding after_set_with_ttl
  get-after_set_with_ttl ttl =
      let e = with_ttl now v ttl in get-after_place later k q e (index_with k e s.ttl_index) s valid

pub delete-IsValid : (k : Str) (s : Shard) → IsValid s → IsValid (delete k s)
unfolding delete
delete-IsValid k s v = remove_internal-IsValid k s v

pub lookup-delete :
    (k q : Str) (s : Shard)
    → lookup q (delete k s).store ≡ ite (Str_eq.dec k q) none (lookup q s.store)
unfolding delete remove_internal
lookup-delete k q s = Assoc.lookup-erase k q s.store

abbrev pub empty : ℕ → Shard
empty cap = Shard.empty_with cap (Lru.empty cap)

pub empty-IsValid : (cap : ℕ) → 0 < cap → IsValid (empty cap)
unfolding lookup contains
empty-IsValid cap h = record {
  linked = record {
    lru_valid = Order.empty-IsValid cap h;
    lru_capacity = refl;
    unique = tt;
    same_keys = λ k. refl;
    ttl_valid = Index.new-IsValid;
    ttl_stored = λ k t. t;
  };
  bounded = omega arith;
}

-- The constructor refuses capacity 0, and else gives an empty shard.
pub new-empty :
    (cap : ℕ) → Shard.new cap ≡ (if cap == 0 then throws invalid_argument else returns (empty cap))
unfolding Shard.new Lru.new
new-empty cap = ground arith

-- `f` stores no new key but `k`.
abbrev pub AddsOnly : Str → (Shard → Shard) → Shard → Type 0
AddsOnly k f s =
    (q : Str) → k ≢ q → is_some (lookup q (f s).store) ≡ true → is_some (lookup q s.store) ≡ true

place-AddsOnly :
    (k : Str) (e : Entry) (x : TtlIndex) (s : Shard) → IsValid s → AddsOnly k (after_place k e x) s
place-AddsOnly k e x s v q n h = ground (arith, h, lookup-after_place k e x s q v, n)

pub set-AddsOnly :
    (now : ℕ) (k v : Str) (s : Shard) → IsValid s → AddsOnly k (λ t. (set now k v t).1) s
unfolding after_set
set-AddsOnly now k v s valid =
    rw (set-after_set now k v s valid)
      (place-AddsOnly k (without_ttl now v) (Ttl.remove k s.ttl_index) s valid)

pub set_with_ttl-AddsOnly :
    (now ttl : ℕ) (k v : Str) (s : Shard)
    → IsValid s
    → AddsOnly k (λ t. (set_with_ttl now k v ttl t).1) s
unfolding after_set_with_ttl
set_with_ttl-AddsOnly now ttl k v s valid =
    rw (set_with_ttl-after now k v s valid ttl) (
      place-AddsOnly k (with_ttl now v ttl) (index_with k (with_ttl now v ttl) s.ttl_index) s valid)

pub delete-AddsOnly : (k : Str) (s : Shard) → AddsOnly k (delete k) s
delete-AddsOnly k s q n h = ground (arith, h, lookup-delete k q s, n)

pub get-AddsOnly : (now : ℕ) (k : Str) (s : Shard) → AddsOnly k (λ t. (get now k t).1) s
unfolding get remove_internal
get-AddsOnly now k s q n h = ground (arith, h, Assoc.lookup-erase k q s.store, n)

-- The victim is a stored key.
pub victim-stored :
    (k w : Str) (s : Shard) → IsValid s → victim k s ≡ some w → is_some (lookup w s.store) ≡ true
unfolding victim
victim-stored k w s v h = ground (arith, h, back-contains (recent s.lru) w, v.linked.same_keys w)
