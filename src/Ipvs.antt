-- ===== src/Ipvs.antt =====
-- internal/ipvs: the monitor that degrades and evicts pods on a node whose CPU is under pressure.
-- This module holds the data. A CPU quantity is its number of millicores.
pub mod Pods
pub mod Tiers
pub mod Pressure
pub mod Events
pub mod Collector
pub mod Node
pub mod Tests
use mc_kube.Prelude.{ℕ, String, Bool, List, [], ◌∷◌, Option, none, some, lookup, string_eq, ℤ}

-- No requests at all, or the CPU request, which is 0 if the requests name no CPU.
pub record Container : Type 0 where
  pub name : String
  pub cpu_request : Option ℤ
  pub limits : List (String × String)

pub record Pod : Type 0 where
  pub name : String
  pub namespace : String
  pub node_name : String
  pub labels : List (String × String)
  pub containers : List Container

pub record RealTimeWcet : Type 0 where
  pub node : String
  pub rt_wcet : ℤ

pub record RealTimeData : Type 0 where
  pub criticality : String
  pub rt_deadline : ℤ
  pub rt_period : ℤ
  pub rt_wcets : List RealTimeWcet

pub record PerTierState : Type 0 where
  pub elapsed_sec : ℤ
  pub degrade_count : ℤ
  pub evict_tried : Bool
  pub missing_ticks : ℤ
  pub last_degrade_time : ℤ

pub record NodePressureState : Type 0 where
  pub above_sec : ℤ
  pub tiers : List String
  pub current_tier_idx : ℕ
  pub current_tier : String
  pub per_tier : List (String × PerTierState)

abbrev pub tier_ranks : List (String × ℕ)
tier_ranks = ("LOW", 0) ∷ ("MIDDLE", 1) ∷ ("HIGH", 2) ∷ []

-- `CriticalityRank[c]` with its `ok`.
unfoldable pub tier_rank : String → Option ℕ
tier_rank c = lookup c tier_ranks

-- `p.Labels["sdv.com"]`: a missing label reads as the empty text.
abbrev pub or_blank : Option String → String
or_blank none = ""
or_blank (some v) = v

abbrev pub app_of : Pod → String
app_of p = or_blank (lookup "sdv.com" p.labels)
