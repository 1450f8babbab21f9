-- ===== src/Core/Shard/Place.antt =====
-- src/core/shard.h: what `Set` and `SetWithTTL` have in common: an entry is stored, its key becomes
-- the most recent one, and the least recent key goes if the shard is full.
use kvmemo.Base.{
  suc, ◌<◌, Str, Str_eq, ℕ_eq, ◌∷◌, ◌≡◌, ◌∙◌, ◌≢◌, Option, none, some, ite, true, false, arith,
  lookup, insert, contains, is_some, length, ltb, if◌then◌else◌, inl, inr, Bool-cases, Outcome,
  returns,
}
use kvmemo.Base.Assoc
use kvmemo.Base.Keys
use kvmemo.Core.Entry.{Entry}
use kvmemo.Core.Lru.{back, touch}
use kvmemo.Core.Lru.Order
use kvmemo.Core.Lru.Order.{recent}
use kvmemo.Core.Lru.Back.{back-contains, back_of_pos, back-cons}
use kvmemo.Core.Ttl.{TtlIndex}
use kvmemo.Core.Ttl.Index
use kvmemo.Core.Ttl.Index.{time_of}
use kvmemo.Core.Shard.{Shard, remove_internal, evict_one}
use kvmemo.Core.Shard.Invariant.{
  IsLinked, IsValid, remove_internal-IsLinked, recent-remove_internal, capacity-remove_internal,
  evict_one-remove_internal,
}

-- The key that has to go when `k` is written: the least recent one, if `k` is new and the
-- shard is full.
unfoldable pub victim : Str → Shard → Option Str
victim k s =
    if contains k (recent s.lru)
    then none
    else if ltb (length (recent s.lru)) s.capacity
    then none
    else back (recent s.lru)

-- The shard with the entry stored and nothing evicted yet.
unfoldable pub stored : Str → Entry → TtlIndex → Shard → Shard
stored k e x s = record s { store = insert k e s.store; lru = (touch k s.lru).0; ttl_index = x }

unfoldable pub place : Str → Entry → TtlIndex → Shard → Outcome (Unit {0}) × Shard
unfolding stored
place k e x s =
    if (touch k s.lru).1 then evict_one (stored k e x s) else (returns tt, stored k e x s)

unfoldable pub drop_victim : Option Str → Shard → Shard
drop_victim none s = s
drop_victim (some q) s = remove_internal q s

unfoldable pub after_place : Str → Entry → TtlIndex → Shard → Shard
unfolding stored drop_victim
after_place k e x s = drop_victim (victim k s) (stored k e x s)

-- The index may lose keys and give `k` a time, and does nothing else.
abbrev pub IsIndexFor : Str → TtlIndex → Shard → Type 0
IsIndexFor k x s =
    Index.IsValid x
    × ((q : Str) → k ≢ q → is_some (time_of x q) ≡ true → is_some (time_of s.ttl_index q) ≡ true)

module _ (k : Str) (e : Entry) (x : TtlIndex) (s : Shard) where
  recent-stored : IsLinked s → recent (stored k e x s).lru ≡ k ∷ Keys.remove k (recent s.lru)
  unfolding stored
  recent-stored l = Order.recent-touch k s.lru l.lru_valid

  stored-same_keys :
      IsLinked s
      → (q : Str) → contains q (recent (touch k s.lru).0) ≡ is_some (lookup q (insert k e s.store))
  unfolding contains
  stored-same_keys l q = rw (Order.recent-touch k s.lru l.lru_valid) (
      ground (
        arith,
        Keys.contains-remove k q (recent s.lru),
        Assoc.lookup-insert k q e s.store,
        l.same_keys q,
      ))

  stored-IsLinked : IsLinked s → IsIndexFor k x s → IsLinked (stored k e x s)
  unfolding stored
  stored-IsLinked l i = record {
    lru_valid = Order.touch-IsValid k s.lru l.lru_valid;
    lru_capacity = Order.capacity-touch k s.lru ∙ l.lru_capacity;
    unique = Assoc.insert-Unique k e s.store l.unique;
    same_keys = stored-same_keys l;
    ttl_valid = i.0;
    ttl_stored = λ q h. ground (arith, i.1 q, l.ttl_stored q, Assoc.lookup-insert k q e s.store, h);
  }

  -- The three ways in which a write can go.
  data Write : Type 0 where
    old : contains k (recent s.lru) ≡ true → victim k s ≡ none → (touch k s.lru).1 ≡ false → Write
    room :
        contains k (recent s.lru) ≡ false
        → length (recent s.lru) < s.capacity
        → victim k s ≡ none
        → (touch k s.lru).1 ≡ false
        → Write
    full :
        (q : Str)
        → contains k (recent s.lru) ≡ false
        → back (recent s.lru) ≡ some q
        → back (recent (stored k e x s).lru) ≡ some q
        → victim k s ≡ some q
        → (touch k s.lru).1 ≡ true
        → Write

  back-stored :
      (q : Str)
      → IsLinked s
      → contains k (recent s.lru) ≡ false
      → 0 < length (recent s.lru)
      → back (recent s.lru) ≡ some q
      → back (recent (stored k e x s).lru) ≡ some q
  back-stored q l new pos h =
      rw (recent-stored l, Keys.remove_absent k (recent s.lru) new, back-cons k (recent s.lru) pos)
        h

  full_write :
      IsValid s
      → contains k (recent s.lru) ≡ false
      → ltb (length (recent s.lru)) s.capacity ≡ false
      → Write
  unfolding victim
  full_write v new big =
      let l = v.linked in
      let pos : 0 < length (recent s.lru) = ground (arith, l.lru_valid.positive, l.lru_capacity) in
      let (q, h) = back_of_pos (recent s.lru) pos in
      full q new h (back-stored q l new pos h) (ground (arith, new, big, h))
        (ground (arith, new, big, Order.touch_overflow k s.lru l.lru_valid, l.lru_capacity))

  write_cases : IsValid s → Write
  unfolding victim
  write_cases v = elim (Bool-cases (contains k (recent s.lru))) [
    | inl h ↦ old h (ground arith) (ground (arith, Order.touch_overflow k s.lru v.linked.lru_valid))
    | inr h ↦ elim (Bool-cases (ltb (length (recent s.lru)) s.capacity)) [
      | inl r ↦
          room h (ground arith) (ground arith)
            (ground (arith, Order.touch_overflow k s.lru v.linked.lru_valid, v.linked.lru_capacity))
      | inr r ↦ full_write v h r
    ]
  ]

  -- A write never throws, and leaves the shard that `after_place` describes.
  pub place-after_place :
      IsValid s → IsIndexFor k x s → place k e x s ≡ (returns tt, after_place k e x s)
  unfolding place after_place
  place-after_place v i = elim (write_cases v) [
    | old c n o ↦ ground (arith, n, o)
    | room c r n o ↦ ground (arith, n, o)
    | full q c b b' n o ↦
        ground (
          arith,
          n,
          o,
          evict_one-remove_internal (stored k e x s) q (stored-IsLinked v.linked i) b',
        )
  ]

  length-recent-stored :
      IsLinked s
      → length (recent (stored k e x s).lru)
        ≡ (if contains k (recent s.lru) then length (recent s.lru) else suc (length (recent s.lru)))
  length-recent-stored l = rw (recent-stored l) (
      ground (
        arith,
        Keys.length-remove k (recent s.lru) l.lru_valid.distinct,
        Keys.remove_absent k (recent s.lru),
      ))

  -- A write keeps the invariant: the shard never holds more keys than its capacity.
  pub after_place-IsValid : IsValid s → IsIndexFor k x s → IsValid (after_place k e x s)
  unfolding after_place
  after_place-IsValid v i = elim (write_cases v) [
    | old c n o ↦ rw n (record {
      linked = linked;
      bounded = ground (arith, c, length-recent-stored v.linked, v.bounded);
    })
    | room c r n o ↦
        rw n (record {
          linked = linked;
          bounded = ground (arith, c, length-recent-stored v.linked, r);
        })
    | full q c b b' n o ↦ rw n (record {
      linked = remove_internal-IsLinked q (stored k e x s) linked;
      bounded = rw (recent-remove_internal q (stored k e x s) linked) (
          ground (
            arith,
            c,
            v.bounded,
            length-recent-stored v.linked,
            Keys.length-remove q (recent (stored k e x s).lru) linked.lru_valid.distinct
                (back-contains (recent (stored k e x s).lru) q b'),
            capacity-remove_internal q (stored k e x s),
          ));
    })
  ]
    where
      linked : IsLinked (stored k e x s)
      linked = stored-IsLinked v.linked i

  -- After a write the key has the entry, the victim is gone, and every other key is as before.
  pub lookup-after_place :
      (q : Str)
      → IsValid s
      → lookup q (after_place k e x s).store
        ≡ ite (Str_eq.dec k q) (some e) (elim (victim k s) [
          | none ↦ lookup q s.store
          | some w ↦ ite (Str_eq.dec w q) none (lookup q s.store)
        ])
  unfolding after_place remove_internal
  lookup-after_place q v = elim (write_cases v) [
    | old c n o ↦ rw n (Assoc.lookup-insert k q e s.store)
    | room c r n o ↦ rw n (Assoc.lookup-insert k q e s.store)
    | full w c b b' n o ↦ rw n (
        ground (
          arith,
          Assoc.lookup-erase w q (insert k e s.store),
          Assoc.lookup-insert k q e s.store,
          back-contains (recent s.lru) w b,
          c,
        ))
  ]
