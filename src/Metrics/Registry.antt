-- ===== src/Metrics/Registry.antt =====
-- src/metrics/metrics_registry.h: `MetricsRegistry`, counters by name. The mutex makes each method
-- one step.
use kvmemo.Base.{
  ℕ, ◌≡◌, refl, Str, Str_eq, List, [], ◌∷◌, Option, none, some, arith, add64, lookup, insert, ite,
  is_some, if◌then◌else◌,
}
use kvmemo.Base.Assoc
use kvmemo.Base.Assoc.{emplace}

abbrev pub MetricsRegistry : Type 0
MetricsRegistry = List (Str × ℕ)

unfoldable pub register_counter : Str → MetricsRegistry → MetricsRegistry
unfolding emplace
register_counter name m = emplace name 0 m

abbrev pub value_of : Option ℕ → ℕ
value_of none = 0
value_of (some n) = n

-- `counters_[name].increment(value)`
unfoldable pub increment : Str → ℕ → MetricsRegistry → MetricsRegistry
unfolding emplace
increment name value m =
    let m' = emplace name 0 m in insert name (add64 (value_of (lookup name m')) value) m'

-- The names and the values of all counters.
unfoldable pub snapshot : MetricsRegistry → List (Str × ℕ)
snapshot [] = []
snapshot ((name, counter) ∷ m) = (name, counter) ∷ snapshot m

lookup-snapshot : (q : Str) (m : MetricsRegistry) → lookup q (snapshot m) ≡ lookup q m
unfolding snapshot lookup
lookup-snapshot q [] = refl
lookup-snapshot q ((n, c) ∷ m) = ground (arith, lookup-snapshot q m)

-- A snapshot after an increment shows its counter, which starts at 0, increased modulo 2 ^ 64, and
-- every other counter as it was.
pub snapshot-increment :
    (k q : Str) (v : ℕ) (m : MetricsRegistry)
    → lookup q (snapshot (increment k v m))
      ≡ ite (Str_eq.dec k q) (some (add64 (value_of (lookup k m)) v)) (lookup q (snapshot m))
unfolding increment
snapshot-increment k q v m = ground (
  arith,
  lookup-snapshot q (increment k v m),
  lookup-snapshot q m,
  Assoc.lookup-emplace k q 0 m,
  Assoc.lookup-emplace k k 0 m,
  Assoc.lookup-insert k q (add64 (value_of (lookup k (emplace k 0 m))) v) (emplace k 0 m),
)

-- Registering a counter starts it at 0 if there is none of the name, and else changes nothing.
pub snapshot-register_counter :
    (k q : Str) (m : MetricsRegistry)
    → lookup q (snapshot (register_counter k m)) ≡ (
        if is_some (lookup q (snapshot m))
        then lookup q (snapshot m)
        else ite (Str_eq.dec k q) (some 0) none)
unfolding register_counter
snapshot-register_counter k q m = ground (
  arith,
  lookup-snapshot q (register_counter k m),
  lookup-snapshot q m,
  Assoc.lookup-emplace k q 0 m,
)
