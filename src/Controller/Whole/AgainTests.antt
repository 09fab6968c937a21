-- ===== src/Controller/Whole/AgainTests.antt =====
-- internal/controller/mckube_controller.go: a pod that drives another one off its core, and is then
-- reconciled once more.
use mc_kube.Prelude.{
  ◌≡◌, refl, [], ◌∷◌, some, lookup, insert, delete, pos, string_eq, int_eq, ◌+ℤ◌, ◌-ℤ◌, wrap64,
}
use mc_kube.Prelude.Float.{Millionths, millionths}
use mc_kube.Prelude.Sort.{insertion, insertion_sort}
use mc_kube.Api.{Mckube}
use mc_kube.CpuPool.{CpuPool, criticality_rank, values}
use mc_kube.CpuPool.CoreSet.{code_points, parse_core_set}
use mc_kube.Controller.Process.{report_core, enter_with_core, check_and_preempt_for_pod}
use mc_kube.Controller.RoundTests.{settings, cr_on, control, willing, entry, start}
use mc_kube.Controller.Whole.Steady.{HasCores, enter_with_core-again}
use mc_kube.Controller.PoolUpdate.{
  needs_update, update_cpu_pool_for_pod, update_with_core, cpu_millis_of, effective_runtime,
  is_stale, refresh_pool, register_all,
}
use mc_kube.CpuPool.Store.{
  update_pool, get_pods_on_core, add_pod_to_core, get_core_utilization, get_or_create_cpu_pool,
  get_pool_for_node, remove_pod_from_core, take_pod,
}
use mc_kube.Controller.Preempt.{preempt_cores, preempt_pod, preempt_all, victims_on}
use mc_kube.Controller.Preemption.{
  find_preemption_victims, find_migration_target_core, migrate, target_from,
}
use mc_kube.CpuPool.Victims.{select_minimum_victims, pick_from, victim_before}
use mc_kube.CpuPool.Accounting.History.{register_pod}

abbrev cr : Mckube
cr = let given = cr_on "n1" in record given { status = record given.status { allocated_core = "" } }

abbrev pool_after : CpuPool
pool_after = record {
  node_name = "n1";
  cores =
      (
        pos 0,
        record {
          core_id = pos 0;
          pods = ("control", entry "control" "HIGH" (pos 200)) ∷ [];
          usage_millis = pos 200;
        },
      )
      ∷ (
        pos 1,
        record {
          core_id = pos 1;
          pods = ("batch", entry "batch" "LOW" (pos 800)) ∷ [];
          usage_millis = pos 800;
        },
      )
      ∷ [];
}

entered :
    lookup "n1"
      (enter_with_core Millionths insertion willing
        (pos 9)
        control
        cr
        settings
        "0"
        start).0.controller.pools
    ≡ some pool_after
unfolding enter_with_core lookup needs_update parse_core_set update_cpu_pool_for_pod
    update_with_core update_pool preempt_cores ◌+ℤ◌ cpu_millis_of effective_runtime
    find_preemption_victims get_pods_on_core criticality_rank select_minimum_victims insertion_sort
    ◌-ℤ◌ preempt_pod is_stale refresh_pool register_all preempt_all victims_on
    find_migration_target_core migrate target_from check_and_preempt_for_pod register_pod
    add_pod_to_core get_core_utilization get_or_create_cpu_pool get_pool_for_node
    remove_pod_from_core take_pod pick_from victim_before values wrap64 delete insert
entered = refl

has_core_zero : HasCores pool_after (parse_core_set (code_points "0"))
unfolding parse_core_set lookup
has_core_zero = ((_, refl), tt)

enter_with_core-again_example :
    let p' =
      (enter_with_core Millionths insertion willing (pos 9) control cr settings "0" start).0 in
    enter_with_core Millionths insertion willing (pos 9) control cr settings "0" p'
    ≡ (p', report_core Millionths insertion willing (pos 9) control cr "0")
enter_with_core-again_example =
    enter_with_core-again Millionths control settings "0" refl insertion willing (pos 9) cr start
      pool_after refl refl refl entered has_core_zero
