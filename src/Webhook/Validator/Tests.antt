-- ===== src/Webhook/Validator/Tests.antt =====
-- internal/webhook/rt_validator.go: the theorems at concrete resources and pools.
use mc_kube.Prelude.{
  ◌≡◌, refl, String, true, List, [], ◌∷◌, Option, none, some, string_eq, int_eq, lookup, pos, ◌-ℤ◌,
  ◌+ℤ◌,
}
use mc_kube.Prelude.Float.{Millionths, millionths}
use mc_kube.Prelude.Sort.{insertion}
use mc_kube.Api.{RtSettings, Mckube}
use mc_kube.CpuPool.{Pools, CpuCoreInfo, PodInfo, values, criticality_rank}
use mathlib.Core.List.{Memᴰ, Permᴰ}
use mc_kube.CpuPool.Relisted.{relisted_one}
use mc_kube.CpuPool.Search.{
  cores_to_check, core_of, judge, Node, select_best_node_and_core, check_node_core_feasibility,
}
use mc_kube.CpuPool.Victims.{pool_eviction_lookahead}
use mc_kube.CpuPool.CoreSet.{parse_core_set}
use mc_kube.Webhook.Validator.{Pod, allowed, core_confirmed, handle}
use mc_kube.Webhook.Validator.Admission.{IsJustified, handle-IsJustified}
use mc_kube.Webhook.Validator.Confirmed.{select_best-check}

abbrev settings : RtSettings
settings = record {
  period = pos 1000000;
  runtime_low = pos 200000;
  runtime_hi = pos 500000;
  core = some "1";
}

abbrev cr : Mckube
cr = record {
  name = "control-rt";
  namespace = "plant";
  spec = record {
    node = "n1";
    pod_name = "control";
    criticality = "HIGH";
    pressured_deadlines_total = pos 3;
    pressured_deadlines_period = pos 10;
    rt_settings = some settings;
  };
  status = record { current_runtime = ""; last_overrun_time = none; allocated_core = "" };
}

abbrev batch : PodInfo
batch = record {
  name = "batch";
  namespace = "plant";
  criticality = "LOW";
  cpu_millis = pos 600;
  core_set = pos 1 ∷ [];
}

abbrev core1 : CpuCoreInfo
core1 = record { core_id = pos 1; usage_millis = pos 600; pods = ("batch", batch) ∷ [] }

abbrev pools : Pools
pools = ("n1", record { node_name = "n1"; cores = (pos 1, core1) ∷ [] }) ∷ []

abbrev nodes : List Node
nodes = record { name = "n1"; cpu_capacity = some (pos 2) } ∷ []

abbrev pod : Pod
pod = record { name = "control"; namespace = "plant" }

abbrev list_mckubes : String → Option (List Mckube)
list_mckubes namespace = some (cr ∷ [])

handle-IsJustified_example :
    IsJustified Millionths insertion pools list_mckubes
      (some nodes)
      pod
      (handle Millionths insertion pools list_mckubes (some nodes) (some pod))
handle-IsJustified_example =
    handle-IsJustified Millionths insertion pools list_mckubes (some nodes) pod

confirmed_after_eviction :
    handle Millionths insertion pools list_mckubes (some nodes) (some pod) ≡ allowed core_confirmed
unfolding handle parse_core_set check_node_core_feasibility lookup ◌-ℤ◌ ◌+ℤ◌ pool_eviction_lookahead
    values criticality_rank
confirmed_after_eviction = refl

abbrev logger : PodInfo
logger = record batch { name = "logger"; cpu_millis = pos 100 }

-- With room for 0.25 more, and two pods that each call meets in an order of its own.
abbrev shared : List (String × PodInfo) → CpuCoreInfo
shared pods = record { core_id = pos 1; usage_millis = pos 700; pods = pods }

abbrev batch_first : CpuCoreInfo
batch_first = shared (("batch", batch) ∷ ("logger", logger) ∷ [])

abbrev logger_first : CpuCoreInfo
logger_first = shared (("logger", logger) ∷ ("batch", batch) ∷ [])

abbrev pools_of : CpuCoreInfo → Pools
pools_of core = ("n1", record { node_name = "n1"; cores = (pos 1, core) ∷ [] }) ∷ []

abbrev n1 : Node
n1 = record { name = "n1"; cpu_capacity = some (pos 2) }

select_best-check_example :
    let r =
      select_best_node_and_core {F = Millionths} insertion
        (pools_of batch_first)
        nodes
        (pos 200000)
        "HIGH"
        [] in
    (r.feasible ≡ true)
    × (check_node_core_feasibility insertion
          (pools_of logger_first)
          r.selected_node_name
          r.selected_core_id
          (pos 200000)
          "HIGH"
        ≡ (true, []))
unfolding judge core_of lookup ◌-ℤ◌ ◌+ℤ◌ cores_to_check pool_eviction_lookahead values
    criticality_rank
select_best-check_example =
    select_best-check insertion (pools_of batch_first) (pools_of logger_first) nodes (pos 200000)
      "HIGH" [] n1 (pos 1)
      (relisted_one "n1" (pos 1) batch_first logger_first (refl, Permᴰ.swap refl refl))
      (Memᴰ.head refl, Memᴰ.head refl) refl
