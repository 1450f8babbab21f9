-- ===== src/Common/Config/Powers.antt =====
-- src/common/config.h: which configurations `Validate` accepts.
use kvmemo.Base.{
  ℕ, zero, suc, ◌-◌, ◌*◌, ◌/◌, ◌%◌, ◌^◌, ◌≤◌, ◌<◌, ◌≡◌, ◌↔◌, refl, sym, ◌∙◌, Str, Bool, true, false,
  ◌&&◌, not, ltb, ◌==◌, if◌then◌else◌, arith, u64_mod, Bool-cases, ==_iff, subst, inl, inr,
}
use kvmemo.Common.Status.{Status, is_ok, invalid_argument}
use kvmemo.Common.Config.{Config, land, is_power_of_two, validate}

abbrev pub IsPower : ℕ → Type 0
IsPower n = (k : ℕ) × (n ≡ 2 ^ k)

land_self : (w a : ℕ) → a < 2 ^ w → land w a a ≡ a
unfolding land
land_self zero a h = omega arith
land_self (suc w) a h = ground (arith, land_self w (a / 2) (omega arith))

-- A power of two is one below 2 ^ w whose predecessor shares no bit with it.
land_pred_odd : (w n : ℕ) → n < 2 ^ suc w → n % 2 ≡ 1 → land (suc w) n (n - 1) ≡ 2 * (n / 2)
unfolding land
land_pred_odd w n h o = elim (Bool-cases (n == 0)) [
  | inl e ↦ absurd (ground (arith, e))
  | inr e ↦ ground (arith, o, land_self w (n / 2) (omega arith), half_pred n o)
]
  where
    half_pred : (n : ℕ) → n % 2 ≡ 1 → (n - 1) / 2 ≡ n / 2
    half_pred n o = omega arith

land_pred_even :
    (w n : ℕ) → 0 < n → n % 2 ≡ 0 → land (suc w) n (n - 1) ≡ 2 * land w (n / 2) (n / 2 - 1)
unfolding land
land_pred_even w n p e = rw (half_pred n p e) (ground (arith, e))
  where
    half_pred : (n : ℕ) → 0 < n → n % 2 ≡ 0 → (n - 1) / 2 ≡ n / 2 - 1
    half_pred n p e = omega arith

IsPower-land : (w n : ℕ) → 0 < n → n < 2 ^ w → land w n (n - 1) ≡ 0 → IsPower n
IsPower-land zero n p h e = absurd (omega arith)
IsPower-land (suc w) n p h e = elim (Bool-cases (n % 2 == 1)) [
  | inl o ↦ (0, ground (arith, o, e, land_pred_odd w n h))
  | inr o ↦
      let rest = land_pred_even w n p (ground (arith, o)) in
      let (k, q) =
        IsPower-land w (n / 2) (ground (arith, o, p)) (omega arith) (omega (arith, rest, e)) in
      (suc k, ground (arith, q, o))
]

pow_pos : (k : ℕ) → 0 < 2 ^ k
pow_pos zero = omega arith
pow_pos (suc k) = omega (arith, pow_pos k)

land-power : (w k n : ℕ) → n < 2 ^ w → n ≡ 2 ^ k → land w n (n - 1) ≡ 0
unfolding land
land-power zero k n h e = refl
land-power (suc w) zero n h e = land_pred_odd w n h (omega arith) ∙ omega arith
land-power (suc w) (suc k) n h e =
    land_pred_even w n (omega (arith, pow_pos k)) (omega arith)
    ∙ omega (arith, land-power w k (n / 2) (omega arith) (omega arith))

-- What a configuration has to fulfil.
pub record IsSound (c : Config) : Type 0 where
  pub shards : IsPower c.shard_count
  pub memory : 0 < c.max_memory_bytes
  pub value : 0 < c.max_value_bytes
  pub fits : c.max_value_bytes ≤ c.max_memory_bytes
  pub port : 0 < c.listen_port
  pub connections : 0 < c.max_connections
  pub workers : c.worker_threads ≤ 1024
  pub sweep : c.enable_ttl ≡ true → 0 < c.ttl_sweep_interval_ms

is_power_of_two-IsPower : (n : ℕ) → 0 < n → n < u64_mod → (is_power_of_two n ≡ true) ↔ IsPower n
unfolding is_power_of_two
is_power_of_two-IsPower n p h = (
  (λ e. IsPower-land 64 n p h ((==_iff (land 64 n (n - 1)) 0).0 e)),
  (λ e. (==_iff (land 64 n (n - 1)) 0).1 (land-power 64 e.0 n h e.1)),
)

-- A check that fails ends with an error, and one that succeeds goes on.
guard :
    (b : Bool) (message : Str) (rest : Status)
    → (is_ok (if b then invalid_argument message else rest) ≡ true)
      ↔ ((b ≡ false) × (is_ok rest ≡ true))
unfolding is_ok
guard true message rest = ((λ h. absurd (cc h)), (λ h. absurd (cc h.0)))
guard false message rest = ((λ h. (refl, h)), (λ h. h.1))

-- What the checks test, in their order.
IsChecked : Config → Type 0
IsChecked c =
    ((c.shard_count == 0) ≡ false)
    × (not (is_power_of_two c.shard_count) ≡ false)
    × ((c.max_memory_bytes == 0) ≡ false)
    × ((c.max_value_bytes == 0) ≡ false)
    × (ltb c.max_memory_bytes c.max_value_bytes ≡ false)
    × ((c.listen_port == 0) ≡ false)
    × ((c.max_connections == 0) ≡ false)
    × ((ltb 0 c.worker_threads && ltb 1024 c.worker_threads) ≡ false)
    × ((c.enable_ttl && c.ttl_sweep_interval_ms == 0) ≡ false)

validate-IsChecked : (c : Config) → is_ok (validate c) ≡ true → IsChecked c
unfolding validate IsChecked
validate-IsChecked c e =
    let a = (guard _ _ _).0 e in
    let b = (guard _ _ _).0 a.1 in
    let d = (guard _ _ _).0 b.1 in
    let f = (guard _ _ _).0 d.1 in
    let g = (guard _ _ _).0 f.1 in
    let i = (guard _ _ _).0 g.1 in
    let j = (guard _ _ _).0 i.1 in
    let k = (guard _ _ _).0 j.1 in
    let l = (guard _ _ _).0 k.1 in (a.0, b.0, d.0, f.0, g.0, i.0, j.0, k.0, l.0)

IsChecked-validate : (c : Config) → IsChecked c → is_ok (validate c) ≡ true
unfolding validate IsChecked is_ok
IsChecked-validate c (a, b, d, f, g, i, j, k, l) = rw (a, b, d, f, g, i, j, k, l) refl

IsSound-IsChecked : (c : Config) → c.shard_count < u64_mod → IsChecked c → IsSound c
unfolding IsChecked
IsSound-IsChecked c h (a, b, d, f, g, i, j, k, l) = record {
  shards = (is_power_of_two-IsPower c.shard_count (ground (arith, a)) h).0 (ground (arith, b));
  memory = ground (arith, d);
  value = ground (arith, f);
  fits = ground (arith, g);
  port = ground (arith, i);
  connections = ground (arith, j);
  workers = ground (arith, k);
  sweep = λ t. ground (arith, l, t);
}

IsChecked-IsSound : (c : Config) → c.shard_count < u64_mod → IsSound c → IsChecked c
unfolding IsChecked
IsChecked-IsSound c h v =
    let p = subst (λ n. 0 < n) (sym v.shards.1) (pow_pos v.shards.0) in
    (
      ground (arith, p),
      ground (arith, (is_power_of_two-IsPower c.shard_count p h).1 v.shards),
      ground (arith, v.memory),
      ground (arith, v.value),
      ground (arith, v.fits),
      ground (arith, v.port),
      ground (arith, v.connections),
      ground (arith, v.workers),
      ground (arith, v.sweep),
    )

-- With a shard count below 2 ^ 64 `Validate` accepts a configuration exactly if it is sound: the
-- number of shards is a power of two, a value fits in the memory, and the other numbers are in
-- their ranges.
pub validate-IsSound :
    (c : Config) → c.shard_count < u64_mod → (is_ok (validate c) ≡ true) ↔ IsSound c
validate-IsSound c h = (
  (λ e. IsSound-IsChecked c h (validate-IsChecked c e)),
  (λ v. IsChecked-validate c (IsChecked-IsSound c h v)),
)
