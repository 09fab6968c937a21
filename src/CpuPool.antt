-- ===== src/CpuPool.antt =====
-- internal/cpupool/cpupool.go: the shared RT budget of each node's cores. This module holds the
-- data; a Go map is an association list in its order of iteration. Every method takes the lock of
-- the pool for its whole body, so a call is one step and the mutexes are not represented.
pub mod Store
pub mod Accounting
pub mod Removal
pub mod Board
pub mod Refinement
pub mod Victims
pub mod Cover
pub mod Distinct
pub mod Search
pub mod Placement
pub mod Feasibility
pub mod Relisted
pub mod CoreSet
pub mod LeastLoaded
pub mod Tests
use mc_kube.Prelude.{
  ℕ, zero, suc, ◌+◌, String, List, [], ◌∷◌, Option, none, some, lookup, string_eq, ℤ, pos,
}

-- `RTCapacityPerCore` and `coreUtilizationThreshold` are decimals of `Float64`; this is the one
-- whole constant.
abbrev pub default_num_cores : ℕ
default_num_cores = 16

abbrev pub ranks : List (String × ℕ)
ranks = ("LOW", 0) ∷ ("MIDDLE", 1) ∷ ("HIGH", 2) ∷ []

abbrev pub or_zero : Option ℕ → ℕ
or_zero none = 0
or_zero (some r) = r

-- `CriticalityRank[c]`: an unknown criticality reads as 0.
unfoldable pub criticality_rank : String → ℕ
criticality_rank c = or_zero (lookup c ranks)

pub record PodInfo : Type 0 where
  pub name : String
  pub namespace : String
  pub criticality : String
  pub cpu_millis : ℤ
  pub core_set : List ℤ

pub record CpuCoreInfo : Type 0 where
  pub core_id : ℤ
  pub usage_millis : ℤ
  pub pods : List (String × PodInfo)

pub record CpuPool : Type 0 where
  pub node_name : String
  pub cores : List (ℤ × CpuCoreInfo)

-- `globalPools`
abbrev pub Pools : Type 0
Pools = List (String × CpuPool)

-- The values of a map, in its order of iteration.
unfoldable pub values {ℓ κ} : {K : Type ℓ} {V : Type κ} → List (K × V) → List V
values [] = []
values ((k, v) ∷ m) = v ∷ values m
