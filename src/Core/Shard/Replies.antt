-- ===== src/Core/Shard/Replies.antt =====
-- src/core/shard.h: what a later `Get` returns, after each operation.
use kvmemo.Base.{
  ℕ, ◌+◌, ◌<◌, Str, Str_eq, ℕ_eq, ◌≡◌, refl, ap, ◌∙◌, none, some, ite, true, false, arith, lookup,
  contains, is_some, leb, if◌then◌else◌, inl, inr, Option-cases, Bool-cases, returns, u64_mod, ◌↔◌,
  subst,
}
use kvmemo.Base.Keys
use kvmemo.Core.Entry.{with_ttl, without_ttl, is_expired}
use kvmemo.Core.Ttl
use kvmemo.Core.Lru.{touch, back}
use kvmemo.Core.Lru.Order
use kvmemo.Core.Lru.Order.{recent}
use kvmemo.Core.Shard.{Shard, set, set_with_ttl, get, size}
use kvmemo.Core.Shard.Invariant.{IsLinked, IsValid, remove_internal-IsValid, length-store}
use kvmemo.Core.Shard.Place.{victim, lookup-after_place}
use kvmemo.Core.Shard.Writes.{
  live, after_set, victim-stored, set-after_set, after_set-IsValid, set_with_ttl-after,
  unless_victim, after_set_with_ttl-IsValid, get-after_set, get-after_set_with_ttl,
}

live-with_ttl :
    (now later ttl : ℕ) (v : Str)
    → 0 < ttl
    → now + ttl < u64_mod
    → live later (some (with_ttl now v ttl)) ≡ (if leb (now + ttl) later then none else some v)
unfolding with_ttl is_expired
live-with_ttl now later ttl v pos fits = ground arith

module _ (now later : ℕ) (k v q : Str) (s : Shard) (valid : IsValid s) where
  -- On a valid shard `Set` returns and keeps the invariant. `Get` of the key returns the value at
  -- every time, the victim of the write is lost, and all other replies stay.
  pub get-set :
      ((set now k v s).0 ≡ returns tt)
      × IsValid (set now k v s).1
      × ((get later q (set now k v s).1).0
          ≡ ite (Str_eq.dec k q) (some v) (unless_victim (victim k s) q (get later q s).0))
  get-set =
      rw (set-after_set now k v s valid)
        (refl, after_set-IsValid now k v s valid, get-after_set now later k v q s valid)

  module _ (ttl : ℕ) where
    -- On a valid shard `SetWithTTL` with a positive TTL, whose end is below 2 ^ 64, returns and
    -- keeps the invariant. The key can be read until the creation time plus the TTL, the victim of
    -- the write is lost, and all other replies stay.
    pub get-set_with_ttl :
        0 < ttl
        → now + ttl < u64_mod
        → ((set_with_ttl now k v ttl s).0 ≡ returns tt)
          × IsValid (set_with_ttl now k v ttl s).1
          × ((get later q (set_with_ttl now k v ttl s).1).0
              ≡ ite
                  (Str_eq.dec k q)
                  (if leb (now + ttl) later then none else some v)
                  (unless_victim (victim k s) q (get later q s).0))
    get-set_with_ttl pos fits = rw (set_with_ttl-after now k v s valid ttl) (
      refl,
      after_set_with_ttl-IsValid now k v s valid ttl,
      get-after_set_with_ttl now later k v q s valid ttl
          ∙ ap (λ r. ite (Str_eq.dec k q) r (unless_victim (victim k s) q (get later q s).0))
              (live-with_ttl now later ttl v pos fits),
    )

-- A key is the victim of a write exactly if the written key is new, the shard is full, and the
-- victim is the key that was used least recently.
victim_least_recent :
    (k w : Str) (s : Shard)
    → IsValid s
    → (victim k s ≡ some w) ↔ (
        (contains k (recent s.lru) ≡ false)
        × (size s ≡ s.capacity)
        × (back (recent s.lru) ≡ some w))
unfolding victim size
victim_least_recent k w s v = (
  (λ e. ground (arith, length-store s v.linked, v.bounded, e)),
  (λ h. ground (arith, length-store s v.linked, h.0, h.1, h.2)),
)

-- On a valid shard that is full, `Set` of a key that is not stored returns and evicts exactly the
-- key that was used least recently: it was stored and is stored no more. `Get` of the written key
-- returns the value at every time, and the replies for all keys but these two stay.
pub set_full :
    (now later : ℕ) (k w v q : Str) (s : Shard)
    → IsValid s
    → is_some (lookup k s.store) ≡ false
    → size s ≡ s.capacity
    → back (recent s.lru) ≡ some w
    → let (r, s') = set now k v s in
      (r ≡ returns tt)
      × ((get later q s').0
          ≡ ite (Str_eq.dec k q) (some v) (ite (Str_eq.dec w q) none (get later q s).0))
      × (is_some (lookup w s.store) ≡ true)
      × (is_some (lookup w s'.store) ≡ false)
unfolding after_set
set_full now later k w v q s valid new full oldest =
    let e = (victim_least_recent k w s valid).1 (valid.linked.same_keys k ∙ new, full, oldest) in
    let r = get-set now later k v q s valid in
    let stored = victim-stored k w s valid e in
    (
      r.0,
      subst
          (λ x.
            (get later q (set now k v s).1).0
            ≡ ite (Str_eq.dec k q) (some v) (unless_victim x q (get later q s).0))
          e r.2,
      stored,
      rw (set-after_set now k v s valid) (
          ground (
            arith,
            e,
            new,
            stored,
            lookup-after_place k (without_ttl now v) (Ttl.remove k s.ttl_index) s w valid,
          )),
    )

module _ (now : ℕ) (k : Str) (s : Shard) (valid : IsValid s) where
  hit-IsValid : is_some (lookup k s.store) ≡ true → IsValid (record s { lru = (touch k s.lru).0 })
  unfolding contains
  hit-IsValid h = record {
    linked = record {
      lru_valid = Order.touch-IsValid k s.lru l.lru_valid;
      lru_capacity = Order.capacity-touch k s.lru ∙ l.lru_capacity;
      unique = l.unique;
      same_keys = λ q.
          rw (Order.recent-touch k s.lru l.lru_valid)
            (ground (arith, h, l.same_keys q, Keys.contains-remove k q (recent s.lru)));
      ttl_valid = l.ttl_valid;
      ttl_stored = l.ttl_stored;
    };
    bounded = rw (Order.recent-touch k s.lru l.lru_valid) (
        ground (
          arith,
          h,
          valid.bounded,
          l.same_keys k,
          Keys.length-remove k (recent s.lru) l.lru_valid.distinct,
        ));
  }
    where
      l : IsLinked s
      l = valid.linked

  pub get-IsValid : IsValid (get now k s).1
  unfolding get
  get-IsValid = elim (Option-cases (lookup k s.store)) [
    | inl e ↦ rw (e, get) valid
    | inr (entry, e) ↦ elim (Bool-cases (is_expired now entry)) [
      | inl x ↦ rw (e, get, x) (remove_internal-IsValid k s valid)
      | inr x ↦ rw (e, get, x) (hit-IsValid (ap is_some e))
    ]
  ]
