-- ===== src/Controller/Preemption.antt =====
-- internal/controller/mckube_controller.go: findPreemptionVictims, findMigrationTargetCore and the
-- migration of preemptPod.
use mc_kube.Prelude.{
  String, ◌&&◌, not, List, [], ◌∷◌, Option, none, some, filter, string_eq, int_eq, ◌==◌, ℤ, negsuc,
  ltb, if◌then◌else◌,
}
use mc_kube.Prelude.Float.{Float64, millis}
use mc_kube.CpuPool.{PodInfo, CpuCoreInfo, CpuPool, criticality_rank}
use mc_kube.CpuPool.Store.{get_pods_on_core, add_pod_to_core, remove_pod_from_core}

unfoldable pub find_preemption_victims : CpuPool → ℤ → String → List PodInfo
find_preemption_victims pool core_id preemptor_criticality =
    filter (λ pod. ltb (criticality_rank pod.criticality) (criticality_rank preemptor_criticality))
      (get_pods_on_core pool core_id)

module _ (F : Type 0) ⦃fl : Float64 F⦄ where
  -- The loop over `bestCore` and `bestUsage`.
  unfoldable pub target_from : ℤ → F → ℤ → F → List (ℤ × CpuCoreInfo) → ℤ
  target_from current_core victim_budget best_core best_usage [] = best_core
  target_from current_core victim_budget best_core best_usage ((core_id, core) ∷ cores) =
      let usage : F = millis core.usage_millis in
      let better =
        not (core_id == current_core)
        && (fl.le (fl.add usage victim_budget) (fl.decimal 9 1) && fl.lt usage best_usage) in
      target_from current_core victim_budget (if better then core_id else best_core)
        (if better then usage else best_usage) cores

  -- `-1` is the answer that there is none.
  unfoldable pub find_migration_target_core : CpuPool → ℤ → ℤ → Option ℤ
  unfolding target_from
  find_migration_target_core pool current_core victim_cpu_millis =
      let best =
        target_from current_core (millis victim_cpu_millis) (negsuc 0) (fl.decimal 2 0)
          pool.cores in
      if best == negsuc 0 then none else some best

-- What a migration does to the pool.
unfoldable pub migrate : PodInfo → ℤ → ℤ → CpuPool → CpuPool
migrate victim current_core new_core pool =
    add_pod_to_core new_core victim (remove_pod_from_core current_core victim.name pool)
