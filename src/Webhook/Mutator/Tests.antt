-- ===== src/Webhook/Mutator/Tests.antt =====
-- internal/webhook/pod_mutator.go: the theorems at a concrete pod.
use mc_kube.Prelude.{
  ◌≡◌, refl, String, true, false, List, [], ◌∷◌, none, some, string_eq, int_eq, lookup, pos, ◌-ℤ◌,
  ◌+ℤ◌, arith,
}
use mc_kube.Prelude.Float.{Millionths, millionths}
use mc_kube.Prelude.Sort.{insertion, insertion_sort}
use mc_kube.Api.{RtSettings, Mckube}
use mc_kube.CpuPool.{Pools, values}
use mc_kube.CpuPool.Victims.{pool_eviction_lookahead}
use mathlib.Core.List.{Memᴰ}
use mc_kube.CpuPool.Relisted.{relisted_itself}
use mc_kube.CpuPool.Search.{
  cores_to_check, core_of, judge, Node, FeasibilityResult, select_best_node_and_core,
}
use mc_kube.CpuPool.CoreSet.Sprint.{sprint}
use mc_kube.Webhook.Validator.{allowed, core_confirmed, selected_core, check_fixed}
use mc_kube.Webhook.Mutator.{Pod, in_progress, skipped, patched_cr, annotate, place, handle}
use mc_kube.Webhook.Mutator.Confirmed.{place-check_fixed}
use mc_kube.Webhook.Mutator.Repeat.{handle-again}

abbrev settings : RtSettings
settings = record {
  period = pos 1000000;
  runtime_low = pos 200000;
  runtime_hi = pos 500000;
  core = none;
}

abbrev cr_at : String → Mckube
cr_at node = record {
  name = "control-rt";
  namespace = "plant";
  spec = record {
    node = node;
    pod_name = "control";
    criticality = "HIGH";
    pressured_deadlines_total = pos 3;
    pressured_deadlines_period = pos 10;
    rt_settings = some settings;
  };
  status = record { current_runtime = ""; last_overrun_time = none; allocated_core = "" };
}

abbrev pools : Pools
pools =
    (
      "n1",
      record {
        node_name = "n1";
        cores =
            (pos 0, record { core_id = pos 0; usage_millis = pos 600; pods = [] })
            ∷ (pos 1, record { core_id = pos 1; usage_millis = pos 0; pods = [] })
            ∷ [];
      },
    )
    ∷ []

abbrev n1 : Node
n1 = record { name = "n1"; cpu_capacity = some (pos 2) }

abbrev nodes : List Node
nodes = n1 ∷ []

abbrev pod : Pod
pod = record { name = "control"; namespace = "plant"; node_name = ""; annotations = [] }

abbrev on_core1 : FeasibilityResult
on_core1 = record {
  feasible = true;
  selected_node_name = "n1";
  selected_core_id = pos 1;
  victim_pod_names = [];
}

place-check_fixed_example :
    (cr' : Mckube) × (rt' : RtSettings) × (place Millionths insertion pools false
        (cr_at "")
        settings
        pod
        on_core1
      ≡ (record pod { node_name = cr'.spec.node }, some cr', rt'))
    × (cr'.spec.rt_settings ≡ some rt')
    × (check_fixed Millionths insertion pools cr' rt' (selected_core cr' rt')
        ≡ allowed core_confirmed)
unfolding select_best_node_and_core lookup insertion_sort ◌-ℤ◌ ◌+ℤ◌ pool_eviction_lookahead values
    judge core_of cores_to_check
place-check_fixed_example =
    place-check_fixed Millionths insertion pools pools nodes (cr_at "") settings pod 1 n1 (pos 1)
      (relisted_itself pools) refl refl (Memᴰ.head refl, Memᴰ.tail (Memᴰ.head refl)) refl refl
      (omega arith)

handle-again_example :
    handle Millionths insertion [] true
      (λ namespace. none)
      none
      (some (annotate (record settings { core = some "1" }) (record pod { node_name = "n1" })))
    ≡ skipped in_progress
unfolding handle lookup select_best_node_and_core insertion_sort ◌-ℤ◌ ◌+ℤ◌ pool_eviction_lookahead
    values annotate sprint
handle-again_example =
    handle-again Millionths insertion pools [] false true (λ namespace. some (cr_at "" ∷ []))
      (λ namespace. none) (some nodes) none pod
      (annotate (record settings { core = some "1" }) (record pod { node_name = "n1" }))
      (some (patched_cr (cr_at "") settings "1" "n1")) (record settings { core = some "1" }) refl
