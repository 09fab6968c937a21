-- ===== src/Ipvs/Pressure/Order.antt =====
-- internal/ipvs/event_handler.go: ProcessCurrentTier ends, and goes through the tiers in order.
use mc_kube.Prelude.{
  ℕ, zero, suc, ◌≤◌, ◌+◌, ◌≡◌, refl, sym, subst, ◌⊎◌, inl, inr, String, ◌&&◌, not, List, [], ◌∷◌,
  ◌++◌, some, ℤ, pos, ◌+ℤ◌, wrap64, leb_ℤ, ltb_ℤ, arith, Bool-cases, Option-cases, lookup,
  string_eq, All, All-append,
}
use mc_kube.Prelude.Float.{Float64}
use mc_kube.CpuPool.Placement.{List-cases}
use mc_kube.Ipvs.{Pod, RealTimeData, PerTierState, NodePressureState}
use mc_kube.Ipvs.Pods.{filter_pods_by_criticality, has_actionable_in_tier}
use mc_kube.Ipvs.Tiers.{next_higher_tier, rank_of}
use mc_kube.Ipvs.Tiers.Climb.{rank_of-bound, next_higher_tier-climbs}
use mc_kube.Ipvs.Pressure.{
  Request, Cluster, or_fresh, advance, degrade_step, evict_step, escalate, set_tier,
  process_targets, process_current_tier,
}
use mc_kube.Ipvs.Pressure.Requests.{IsDue, degrade_step-IsDue, evict_step-IsDue}

module _ (F : Type 0) ⦃fl : Float64 F⦄ (cluster : Cluster) (node_pods : List Pod)
    (rt_data : List (String × RealTimeData)) (pod_milli : List (String × ℤ)) (over_sec : ℤ) where
  abbrev targets_of : String → List Pod
  targets_of tier = filter_pods_by_criticality node_pods rt_data tier

  -- The tier does not fall, and all requests are due, for pods of one tier: the current one, or,
  -- if that has no pods, a higher one.
  abbrev pub IsOrderly : NodePressureState → NodePressureState → List Request → Type 0
  IsOrderly state after requests =
      (rank_of state.current_tier ≤ rank_of after.current_tier)
      × ((tier : String) × (rank_of state.current_tier ≤ rank_of tier)
          × ((tier ≡ state.current_tier) ⊎ (targets_of state.current_tier ≡ []))
          × All (IsDue (targets_of tier) over_sec) requests)

  escalate-climbs :
      (pts : PerTierState) (state : NodePressureState)
      → rank_of state.current_tier
        ≤ rank_of (escalate F cluster node_pods rt_data pod_milli over_sec pts state).current_tier
  unfolding escalate advance
  escalate-climbs pts state =
      elim (Bool-cases (
        ltb_ℤ (pos 0) pts.degrade_count
        && pts.evict_tried
        && not (has_actionable_in_tier node_pods rt_data state.current_tier))) [
          | inr e ↦ rw e (omega arith)
          | inl e ↦ elim (Option-cases (next_higher_tier state.current_tier state.tiers)) [
            | inl top ↦ rw (e, top, escalate) (omega arith)
            | inr (t, next) ↦
                rw (e, next, escalate)
                  (let up = next_higher_tier-climbs state.current_tier t state.tiers next in
                    omega arith)
          ]
        ]

  process_targets-IsOrderly :
      (targets : List Pod) (pts : PerTierState) (state : NodePressureState)
      → targets_of state.current_tier ≡ targets
      → let r = process_targets F cluster node_pods rt_data pod_milli over_sec targets pts state in
        IsOrderly state r.0 r.1
  unfolding process_targets
  process_targets-IsOrderly targets pts state e =
      let pts1 =
        degrade_step F cluster targets pod_milli over_sec (record pts { missing_ticks = pos 0 }) in
      let pts2 = evict_step F cluster targets pod_milli over_sec pts1.0 in
      (
        escalate-climbs pts2.0 (
            set_tier F cluster node_pods rt_data pod_milli over_sec state.current_tier pts2.0
              state),
        (
          state.current_tier,
          omega arith,
          inl refl,
          subst (λ ts. All (IsDue ts over_sec) (pts1.1 ++ pts2.1)) (sym e)
              (All-append (IsDue targets over_sec) pts1.1 pts2.1
                (degrade_step-IsDue targets over_sec F cluster pod_milli
                  (record pts { missing_ticks = pos 0 }))
                (evict_step-IsDue targets over_sec F cluster pod_milli pts1.0)),
        ),
      )

  -- Three calls are enough from any tier: ProcessCurrentTier has a result. The tier does not fall.
  -- All requests are for pods of one tier, the current one, or, if that has no pods, a higher one.
  -- A resize is made after a second above the threshold and leaves each container that it names at
  -- least 10 millicores; a label and an eviction are made after ten seconds.
  pub process_current_tier-IsOrderly :
      (fuel : ℕ) (state : NodePressureState)
      → 3 ≤ fuel + rank_of state.current_tier
      → (after : NodePressureState) × (requests : List Request) × (process_current_tier F cluster
            node_pods rt_data pod_milli over_sec fuel state
          ≡ some (after, requests))
        × IsOrderly state after requests
  unfolding process_current_tier process_targets advance
  process_current_tier-IsOrderly zero state h =
      absurd (ground (arith, h, rank_of-bound state.current_tier))
  process_current_tier-IsOrderly (suc fuel) state h =
      let pts = or_fresh (lookup state.current_tier state.per_tier) in
      let ticks = wrap64 (pts.missing_ticks +ℤ pos 1) in
      let state' =
        set_tier F cluster node_pods rt_data pod_milli over_sec state.current_tier
          (record pts { missing_ticks = ticks }) state in
      elim (List-cases (targets_of state.current_tier)) [
        | inr (target, targets, e) ↦
            let made =
              process_targets F cluster node_pods rt_data pod_milli over_sec (target ∷ targets) pts
                state in
            (
              made.0,
              made.1,
              rw (e, process_current_tier) refl,
              process_targets-IsOrderly (target ∷ targets) pts state e,
            )
        | inl e ↦ elim (Bool-cases (leb_ℤ (pos 2) ticks)) [
          | inr early ↦ (
            state',
            [],
            rw (e, process_current_tier, early) refl,
            (omega arith, (state.current_tier, omega arith, inl refl, tt)),
          )
          | inl late ↦ elim (Option-cases (next_higher_tier state.current_tier state.tiers)) [
            | inl top ↦ (
              state',
              [],
              rw (e, process_current_tier, late, top) refl,
              (omega arith, (state.current_tier, omega arith, inl refl, tt)),
            )
            | inr (t, next) ↦
                let climbs = next_higher_tier-climbs state.current_tier t state.tiers next in
                let (after, requests, result, (up, (tier, above, which, due))) =
                  process_current_tier-IsOrderly fuel (advance t state') (omega arith) in
                (
                  after,
                  requests,
                  rw (e, process_current_tier, late, next) result,
                  (omega arith, (tier, omega arith, inr e, due)),
                )
          ]
        ]
      ]
