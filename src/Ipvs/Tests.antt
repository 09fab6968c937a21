-- ===== src/Ipvs/Tests.antt =====
-- internal/ipvs: the theorems at a node with two pods.
use mc_kube.Prelude.{
  ℕ, ◌≡◌, ◌↔◌, refl, String, Bool, false, true, IsMap, List, [], ◌∷◌, some, string_eq, int_eq,
  lookup, insert, ℤ, pos, arith,
}
use mathlib.Core.List.{Memᴰ}
use mc_kube.CpuPool.CoreSet.{is_empty, is_digit, starts_digit}
use mc_kube.Ipvs.Events.{
  ann_text, ann_usage_key, Monitor, find_objects_for_node, clear_processing, changes, here, next,
}
use mc_kube.Ipvs.Events.Exclusion.{AreAlone, Reach-AreAlone, clear_processing_doubles}
use mc_kube.Ipvs.Collector.{Item, found, missing, mapping, whole}
use mc_kube.Ipvs.Node.{handle_node}
use mc_kube.Ipvs.Node.Incomplete.{IsComplete, integral, MakesNoRequest, handle_node_incomplete}
use mc_kube.Prelude.Float.{Millionths, millionths}
use mc_kube.Ipvs.{Pod, RealTimeData, PerTierState, NodePressureState, tier_rank}
use mc_kube.Ipvs.Pods.{filter_pods_by_criticality, has_actionable_in_tier}
use mc_kube.Ipvs.Tiers.{tier_of, collect_sorted_tiers}
use mc_kube.Ipvs.Tiers.Sorted.{IsAscending, collect_sorted_tiers_lem}
use mc_kube.Ipvs.Pressure.{
  Cluster, Request, fresh_tier, process_current_tier, handle_node_cpu_pressure,
}
use mc_kube.Ipvs.Pressure.Order.{IsOrderly, process_current_tier-IsOrderly}
use mc_kube.Ipvs.Pressure.Frame.{EndsHere, handle_node_cpu_pressure-EndsHere}
use mc_kube.Ipvs.Pressure.Stuck.{process_current_tier_stuck}

abbrev pod_named : String → ℤ → Pod
pod_named name milli = record {
  name = name;
  namespace = "default";
  node_name = "n1";
  labels = ("sdv.com", name) ∷ [];
  containers = record { name = "main"; cpu_request = some milli; limits = [] } ∷ [];
}

abbrev batch : Pod
batch = pod_named "batch" (pos 600)

abbrev control : Pod
control = pod_named "control" (pos 300)

abbrev node_pods : List Pod
node_pods = control ∷ batch ∷ []

abbrev data_of : String → RealTimeData
data_of criticality = record {
  criticality = criticality;
  rt_deadline = pos 10;
  rt_period = pos 10;
  rt_wcets = [];
}

abbrev rt_data : List (String × RealTimeData)
rt_data = ("control", data_of "HIGH") ∷ ("batch", data_of "LOW") ∷ []

abbrev pod_milli : List (String × ℤ)
pod_milli = ("control", pos 300) ∷ ("batch", pos 600) ∷ []

-- The resizes and evictions are accepted.
abbrev willing : Cluster
willing = record { accepts_resize = λ p patches. true; accepts_eviction = λ p. true }

abbrev tried : PerTierState
tried = record fresh_tier { degrade_count = pos 1; evict_tried = true }

abbrev state_with : PerTierState → NodePressureState
state_with pts = record {
  above_sec = pos 4;
  tiers = "LOW" ∷ "HIGH" ∷ [];
  current_tier_idx = 0;
  current_tier = "LOW";
  per_tier = ("LOW", pts) ∷ [];
}

tiers_in_order : collect_sorted_tiers node_pods rt_data ≡ "LOW" ∷ "HIGH" ∷ []
unfolding collect_sorted_tiers lookup insert tier_rank
tiers_in_order = refl

collect_sorted_tiers_lem_example :
    IsAscending (collect_sorted_tiers node_pods rt_data)
    × ((c : String)
        → Memᴰ c (collect_sorted_tiers node_pods rt_data)
          ↔ ((p : Pod) × Memᴰ p node_pods × (tier_of rt_data p ≡ some c)))
collect_sorted_tiers_lem_example = collect_sorted_tiers_lem node_pods rt_data

process_current_tier-IsOrderly_example :
    (after : NodePressureState) × (requests : List Request) × (process_current_tier Millionths
        willing node_pods rt_data pod_milli
        (pos 4)
        3
        (state_with fresh_tier)
      ≡ some (after, requests))
    × IsOrderly Millionths willing node_pods rt_data pod_milli
        (pos 4)
        (state_with fresh_tier)
        after
        requests
process_current_tier-IsOrderly_example =
    process_current_tier-IsOrderly Millionths willing node_pods rt_data pod_milli (pos 4) 3
      (state_with fresh_tier) (omega arith)

handle_node_cpu_pressure-EndsHere_example :
    EndsHere Millionths willing 3 "n1" rt_data []
      (handle_node_cpu_pressure Millionths willing 3 "n1" rt_data node_pods (pos 4) [])
handle_node_cpu_pressure-EndsHere_example =
    handle_node_cpu_pressure-EndsHere Millionths willing 3 "n1" rt_data node_pods (pos 4) []
      (omega arith)

process_current_tier_stuck_example :
    process_current_tier Millionths willing node_pods rt_data pod_milli
      (pos 60)
      3
      (state_with tried)
    ≡ some (
      record (state_with tried) {
        per_tier = insert "LOW" (record tried { missing_ticks = pos 0 }) (("LOW", tried) ∷ []);
      },
      [],
    )
unfolding lookup filter_pods_by_criticality has_actionable_in_tier
process_current_tier_stuck_example =
    process_current_tier_stuck Millionths willing node_pods rt_data pod_milli (pos 60) 2
      (state_with tried) tried batch [] refl refl refl refl

-- Enough for the texts below.
abbrev accepts_digits : List ℕ → Bool
accepts_digits text = starts_digit text

abbrev busy_node : List (String × String)
busy_node = ("mckube.sdv.com/cpu-usage", " 93.5") ∷ ("mckube.sdv.com/isCpuBusy", "true") ∷ []

abbrev quiet : Monitor
quiet = record { processing_nodes = []; workers = [] }

abbrev at_work : Monitor
at_work = record { processing_nodes = ("n1", true) ∷ []; workers = ("n1", true) ∷ [] }

Reach-AreAlone_example :
    AreAlone
      (find_objects_for_node accepts_digits "n1"
        (some busy_node)
        (find_objects_for_node accepts_digits "n1" (some busy_node) quiet)).workers
Reach-AreAlone_example =
    Reach-AreAlone accepts_digits _
      (next (next here (changes "n1" (some busy_node) quiet)) (changes "n1" (some busy_node) _))

processing-IsMap : IsMap at_work.processing_nodes
unfolding lookup
processing-IsMap = (refl, tt)

usage_there : is_empty (ann_text ann_usage_key busy_node) ≡ false
unfolding ann_text lookup
usage_there = refl

usage_read : accepts_digits (ann_text ann_usage_key busy_node) ≡ true
unfolding ann_text lookup is_digit
usage_read = refl

clear_processing_doubles_example :
    ¬ AreAlone
      (find_objects_for_node accepts_digits "n1"
        (some busy_node)
        (clear_processing "n1" at_work)).workers
clear_processing_doubles_example =
    clear_processing_doubles accepts_digits "n1" busy_node true at_work processing-IsMap
      (Memᴰ.head refl) usage_there usage_read

abbrev full_item : Item Millionths
full_item = record {
  app_name = found "batch";
  criticality = found "LOW";
  rt_deadline = found (pos 100);
  rt_period = found (pos 100);
  rt_wcets = found (mapping "n1" (whole (pos 40)) ∷ []);
}

abbrev bare_item : Item Millionths
bare_item = record full_item { app_name = found "control"; criticality = missing }

full_item-IsComplete : IsComplete Millionths full_item
full_item-IsComplete = record {
  name_there = ("batch", refl);
  criticality_there = ("LOW", refl);
  deadline_there = (pos 100, refl);
  period_there = (pos 100, refl);
  wcets_there = (mapping "n1" (whole (pos 40)) ∷ [], refl, (integral "n1" (pos 40), tt));
}

handle_node_incomplete_example : MakesNoRequest Millionths willing 3 "n1" (
    handle_node Millionths willing 3 accepts_digits "n1"
      (some busy_node)
      (some (full_item ∷ bare_item ∷ []))
      (some node_pods)
      true
      [])
handle_node_incomplete_example =
    handle_node_incomplete Millionths willing 3 "n1" accepts_digits (some busy_node)
      (full_item ∷ []) bare_item [] (some node_pods) true [] (full_item-IsComplete, tt)
      (record { name_there = ("control", refl); lacks = refl })
