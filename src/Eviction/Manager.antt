-- ===== src/Eviction/Manager.antt =====
-- src/eviction/eviction_manager.h: `EvictionManager`, over any policy. The mutex makes each method
-- one step.
pub mod Accounts
pub mod Victims
use kvmemo.Base.{
  ℕ, zero, suc, Str, List, [], ◌∷◌, ◌++◌, Option, none, some, Outcome, returns, throws, Bool, true,
  false, if◌then◌else◌,
}
use kvmemo.Eviction.Memory.{MemoryTracker, reserve, release, is_over_limit}
use kvmemo.Eviction.Policy.{EvictionPolicy}

pub record EvictionManager (P : Type 0) : Type 0 where
  pub memory_tracker : MemoryTracker
  pub policy : P

-- the approximate size of an entry that the manager reserves and releases
abbrev pub entry_bytes : ℕ
entry_bytes = 100

-- Both branches of `EnforceMemoryLimit` return.
unfoldable pub enforce_memory_limit : {P : Type 0} → EvictionManager P → EvictionManager P
enforce_memory_limit m = if is_over_limit m.memory_tracker then m else m

module _ {P : Type 0} (policy : EvictionPolicy P) where
  open policy use {on_read, on_write, on_delete, select_victim}

  unfoldable pub read : Str → EvictionManager P → EvictionManager P
  read key m = record m { policy = on_read key m.policy }

  unfoldable pub write : Str → EvictionManager P → EvictionManager P
  unfolding enforce_memory_limit
  write key m =
      let (tracker, _) = reserve entry_bytes m.memory_tracker in
      enforce_memory_limit (record { memory_tracker = tracker; policy = on_write key m.policy })

  unfoldable pub delete : Str → EvictionManager P → EvictionManager P
  delete key m = record {
    memory_tracker = release entry_bytes m.memory_tracker;
    policy = on_delete key m.policy;
  }

  -- What one round of the loop does with the answer of `SelectVictim`; `rest` is the loop after it.
  abbrev pub round :
      (EvictionManager P → List Str → Option (Outcome (List Str) × EvictionManager P))
      → MemoryTracker
      → List Str
      → Outcome (Option Str) × P
      → Option (Outcome (List Str) × EvictionManager P)
  round rest t victims (throws x, p) = some (throws x, record { memory_tracker = t; policy = p })
  round rest t victims (returns none, p) =
      some (returns victims, record { memory_tracker = t; policy = p })
  round rest t victims (returns (some key), p) =
      rest (record { memory_tracker = release entry_bytes t; policy = p }) (victims ++ key ∷ [])

  -- The loop of `CollectEvictionCandidates`; `none` means that the fuel ran out.
  unfoldable pub collect :
      ℕ → EvictionManager P → List Str → Option (Outcome (List Str) × EvictionManager P)
  collect zero m victims = none
  collect (suc fuel) m victims = elim (is_over_limit m.memory_tracker) [
    | false ↦ some (returns victims, m)
    | true ↦ round (collect fuel) m.memory_tracker victims (select_victim m.policy)
  ]
