-- ===== src/Ipvs/Pressure/Stuck.antt =====
-- internal/ipvs/event_handler.go: a tier whose eviction was tried is done with, but not left.
use mc_kube.Prelude.{
  ℕ, suc, ◌≡◌, refl, ap, ◌∙◌, String, true, false, List, [], ◌∷◌, ◌++◌, some, ℤ, pos, arith, lookup,
  insert, string_eq, int_eq,
}
use mc_kube.Prelude.Float.{Float64}
use mc_kube.Ipvs.{Pod, RealTimeData, PerTierState, NodePressureState}
use mc_kube.Ipvs.Pods.{filter_pods_by_criticality, has_actionable_in_tier}
use mc_kube.Ipvs.Pressure.{
  Cluster, Request, or_fresh, degrades_now, evicts_now, degrade_step, evict_step, escalate,
  set_tier, process_targets, process_current_tier,
}

tried_degrades :
    (over_sec : ℤ) (pts : PerTierState) → pts.evict_tried ≡ true → degrades_now over_sec pts ≡ false
tried_degrades over_sec pts h = ground (arith, h)

tried_evicts :
    (over_sec : ℤ) (pts : PerTierState) → pts.evict_tried ≡ true → evicts_now over_sec pts ≡ false
tried_evicts over_sec pts h = ground (arith, h)

module _ (F : Type 0) ⦃fl : Float64 F⦄ (cluster : Cluster) (node_pods : List Pod)
    (rt_data : List (String × RealTimeData)) (pod_milli : List (String × ℤ)) (over_sec : ℤ) where
  degrade_step_tried :
      (targets : List Pod) (pts : PerTierState)
      → pts.evict_tried ≡ true
      → degrade_step F cluster targets pod_milli over_sec pts ≡ (pts, [])
  unfolding degrade_step
  degrade_step_tried targets pts h = rw (tried_degrades over_sec pts h) refl

  evict_step_tried :
      (targets : List Pod) (pts : PerTierState)
      → pts.evict_tried ≡ true
      → evict_step F cluster targets pod_milli over_sec pts ≡ (pts, [])
  unfolding evict_step
  evict_step_tried targets pts h = rw (tried_evicts over_sec pts h) refl

  escalate_actionable :
      (pts : PerTierState) (state : NodePressureState)
      → has_actionable_in_tier node_pods rt_data state.current_tier ≡ true
      → escalate F cluster node_pods rt_data pod_milli over_sec pts state ≡ state
  unfolding escalate
  escalate_actionable pts state h = ground (arith, h)

  process_targets_tried :
      (targets : List Pod) (pts : PerTierState) (state : NodePressureState)
      → pts.evict_tried ≡ true
      → has_actionable_in_tier node_pods rt_data state.current_tier ≡ true
      → process_targets F cluster node_pods rt_data pod_milli over_sec targets pts state ≡ (
        record state {
          per_tier =
              insert state.current_tier (record pts { missing_ticks = pos 0 }) state.per_tier;
        },
        [],
      )
  unfolding process_targets
  process_targets_tried targets pts state tried actionable =
      let reset : PerTierState = record pts { missing_ticks = pos 0 } in
      let cur = state.current_tier in
      let set = set_tier F cluster node_pods rt_data pod_milli over_sec cur in
      let next = escalate F cluster node_pods rt_data pod_milli over_sec in
      ap
        (λ (d : PerTierState × List Request).
          let e = evict_step F cluster targets pod_milli over_sec d.0 in
          (next e.0 (set e.0 state), d.1 ++ e.1))
        (degrade_step_tried targets reset tried)
      ∙ ap (λ (e : PerTierState × List Request). (next e.0 (set e.0 state), e.1))
          (evict_step_tried targets reset tried)
      ∙ ap (λ st. (st, [])) (escalate_actionable reset (set reset state) actionable)

  -- Once an eviction was tried in the current tier, and as long as a pod of the tier requests more
  -- than 10 millicores in a container, ProcessCurrentTier makes no request, whatever the duration,
  -- and stays in the tier: all that changes is the count of missing ticks, which is reset.
  pub process_current_tier_stuck :
      (fuel : ℕ) (state : NodePressureState) (pts : PerTierState) (p : Pod) (targets : List Pod)
      → lookup state.current_tier state.per_tier ≡ some pts
      → pts.evict_tried ≡ true
      → filter_pods_by_criticality node_pods rt_data state.current_tier ≡ p ∷ targets
      → has_actionable_in_tier node_pods rt_data state.current_tier ≡ true
      → process_current_tier F cluster node_pods rt_data pod_milli over_sec (suc fuel) state
        ≡ some (
          record state {
            per_tier =
                insert state.current_tier (record pts { missing_ticks = pos 0 }) state.per_tier;
          },
          [],
        )
  unfolding process_current_tier
  process_current_tier_stuck fuel state pts p targets found tried present actionable =
      let finish = process_targets F cluster node_pods rt_data pod_milli over_sec (p ∷ targets) in
      let stepped : process_current_tier F cluster node_pods rt_data pod_milli over_sec (suc fuel)
            state
          ≡ some (finish (or_fresh (lookup state.current_tier state.per_tier)) state) =
        rw (present, process_current_tier) refl in
      stepped
      ∙ ap (λ q. some (finish (or_fresh q) state)) found
      ∙ ap some (process_targets_tried (p ∷ targets) pts state tried actionable)
