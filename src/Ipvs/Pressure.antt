-- ===== src/Ipvs/Pressure.antt =====
-- internal/ipvs/event_handler.go: the handling of CPU pressure on a node, from the point where the
-- annotations are read. What the API server answers to a request is given; the requests that are
-- made are part of the result, in their order.
pub mod Requests
pub mod Order
pub mod Frame
pub mod Stuck
use mc_kube.Prelude.{
  ℕ, zero, suc, ◌+◌, String, Bool, true, false, ◌&&◌, ◌||◌, not, List, [], ◌∷◌, ◌++◌, Option, none,
  some, is_some, lookup, insert, filter, length, string_eq, int_eq, ◌==◌, ℤ, pos, ◌+ℤ◌, ◌-ℤ◌,
  wrap64, ltb_ℤ, leb_ℤ, leb, if◌then◌else◌,
}
use mc_kube.Prelude.Float.{Float64}
use mc_kube.Ipvs.{Pod, RealTimeData, PerTierState, NodePressureState}
use mc_kube.Ipvs.Pods.{
  min_milli, ContainerPatch, patch_of, pick_highest_cpu_from_milli, filter_pods_by_criticality,
  has_actionable_in_tier, list_pod_milli_cpu_by_node,
}
use mc_kube.Ipvs.Tiers.{collect_sorted_tiers, index_from, reindex_current_tier, next_higher_tier}

pub data Request : Type 0 where
  resizes : Pod → List ContainerPatch → Request
  labels : Pod → Request
  evicts : Pod → Request

-- What the API server answers: whether a resize or an eviction is accepted. The answer to a label
-- is not looked at.
pub record Cluster : Type 0 where
  pub accepts_resize : Pod → List ContainerPatch → Bool
  pub accepts_eviction : Pod → Bool

abbrev pub fresh_tier : PerTierState
fresh_tier = record {
  elapsed_sec = pos 0;
  degrade_count = pos 0;
  evict_tried = false;
  missing_ticks = pos 0;
  last_degrade_time = pos 0;
}

abbrev pub or_fresh : Option PerTierState → PerTierState
or_fresh none = fresh_tier
or_fresh (some pts) = pts

-- `podMilli[top.Name]`, or 0.
abbrev pub or_none : Option ℤ → ℤ
or_none none = pos 0
or_none (some m) = m

abbrev pub or_index : ℕ → Option ℕ → ℕ
or_index idx none = idx
or_index idx (some i) = i

-- Escalates to a tier, which gets a state of its own if it has none.
unfoldable pub advance : String → NodePressureState → NodePressureState
unfolding index_from
advance next_tier state = record state {
  current_tier = next_tier;
  current_tier_idx = or_index state.current_tier_idx (index_from 0 next_tier state.tiers);
  per_tier =
      if is_some (lookup next_tier state.per_tier)
      then state.per_tier
      else insert next_tier fresh_tier state.per_tier;
}

-- The first attempt, or three seconds after the last one.
abbrev pub degrades_now : ℤ → PerTierState → Bool
degrades_now over_sec pts =
    leb_ℤ (pos 1) over_sec
    && not pts.evict_tried
    && ((pts.degrade_count == pos 0) || leb_ℤ (pos 3) (wrap64 (over_sec -ℤ pts.last_degrade_time)))

abbrev pub evicts_now : ℤ → PerTierState → Bool
evicts_now over_sec pts =
    leb_ℤ (pos 10) over_sec && ltb_ℤ (pos 0) pts.degrade_count && not pts.evict_tried

unfoldable pub evict_pod : Cluster → Pod → Bool × List Request
evict_pod cluster pod =
    let pod' = record pod { labels = insert "evicted" "true" pod.labels } in
    (cluster.accepts_eviction pod', labels pod' ∷ evicts pod' ∷ [])

module _ (F : Type 0) ⦃fl : Float64 F⦄ (cluster : Cluster) where
  -- Whether there was no error, and the request made.
  unfoldable pub degrade_pod_requests : Pod → F → Bool × List Request
  degrade_pod_requests pod ratio = elim (patch_of F ratio pod.containers) [
    | [] ↦ (true, [])
    | c ∷ cs ↦ (cluster.accepts_resize pod (c ∷ cs), resizes pod (c ∷ cs) ∷ [])
  ]

  -- The degradation of one pod of the tier.
  unfoldable pub degrade_top :
      List (String × ℤ) → ℤ → Pod → PerTierState → PerTierState × List Request
  unfolding degrade_pod_requests
  degrade_top pod_milli over_sec top pts =
      let m = or_none (lookup top.name pod_milli) in
      let current_milli = if ltb_ℤ (pos 0) m then m else pos 0 in
      let (ok, requests) = degrade_pod_requests top (fl.decimal 2 1) in
      if ltb_ℤ min_milli current_milli
      then (
        if ok
            then record pts {
              degrade_count = wrap64 (pts.degrade_count +ℤ pos 1);
              last_degrade_time = over_sec;
            }
            else pts,
        requests,
      )
      else (record pts { degrade_count = pos 999 }, [])

  unfoldable pub degrade_step :
      List Pod → List (String × ℤ) → ℤ → PerTierState → PerTierState × List Request
  unfolding degrade_top
  degrade_step targets pod_milli over_sec pts =
      if degrades_now over_sec pts
      then elim (pick_highest_cpu_from_milli targets pod_milli) [
        | none ↦ (pts, [])
        | some top ↦ degrade_top pod_milli over_sec top pts
      ]
      else (pts, [])

  unfoldable pub evict_step :
      List Pod → List (String × ℤ) → ℤ → PerTierState → PerTierState × List Request
  unfolding evict_pod
  evict_step targets pod_milli over_sec pts =
      if evicts_now over_sec pts
      then elim (pick_highest_cpu_from_milli targets pod_milli) [
        | none ↦ (pts, [])
        | some victim ↦ (record pts { evict_tried = true }, (evict_pod cluster victim).1)
      ]
      else (pts, [])

  module _ (node_pods : List Pod) (rt_data : List (String × RealTimeData))
      (pod_milli : List (String × ℤ)) (over_sec : ℤ) where
    -- After the steps: on to the next tier if the pods of this one are spent.
    unfoldable pub escalate : PerTierState → NodePressureState → NodePressureState
    unfolding advance
    escalate pts state =
        if ltb_ℤ (pos 0) pts.degrade_count
          && pts.evict_tried
          && not (has_actionable_in_tier node_pods rt_data state.current_tier)
        then elim (next_higher_tier state.current_tier state.tiers) [
          | none ↦ state
          | some next_tier ↦ advance next_tier state
        ]
        else state

    abbrev pub set_tier : String → PerTierState → NodePressureState → NodePressureState
    set_tier tier pts state = record state { per_tier = insert tier pts state.per_tier }

    -- The handling of a tier that has pods.
    unfoldable pub process_targets :
        List Pod → PerTierState → NodePressureState → NodePressureState × List Request
    unfolding degrade_step evict_step escalate
    process_targets targets pts state =
        let (pts1, degrades) =
          degrade_step targets pod_milli over_sec (record pts { missing_ticks = pos 0 }) in
        let (pts2, evictions) = evict_step targets pod_milli over_sec pts1 in
        (escalate pts2 (set_tier state.current_tier pts2 state), degrades ++ evictions)

    -- No result where the fuel is short.
    unfoldable pub process_current_tier :
        ℕ → NodePressureState → Option (NodePressureState × List Request)
    unfolding process_targets advance
    process_current_tier zero state = none
    process_current_tier (suc fuel) state =
        let pts = or_fresh (lookup state.current_tier state.per_tier) in
        elim (filter_pods_by_criticality node_pods rt_data state.current_tier) [
          | target ∷ targets ↦ some (process_targets (target ∷ targets) pts state)
          | [] ↦
              let ticks = wrap64 (pts.missing_ticks +ℤ pos 1) in
              let state' =
                set_tier state.current_tier (record pts { missing_ticks = ticks }) state in
              elim (leb_ℤ (pos 2) ticks) [
                | false ↦ some (state', [])
                | true ↦ elim (next_higher_tier state.current_tier state.tiers) [
                  | none ↦ some (state', [])
                  | some next_tier ↦ process_current_tier fuel (advance next_tier state')
                ]
              ]
        ]

abbrev pub fresh_state : NodePressureState
fresh_state = record {
  above_sec = pos 0;
  tiers = [];
  current_tier_idx = 0;
  current_tier = "";
  per_tier = [];
}

abbrev pub or_fresh_state : Option NodePressureState → NodePressureState
or_fresh_state none = fresh_state
or_fresh_state (some state) = state

-- Sets the current tier if it is still empty or out of the list.
unfoldable pub ensure_tier : String → NodePressureState → NodePressureState
ensure_tier first state =
    if (state.current_tier == "") || leb (length state.tiers) state.current_tier_idx
    then record state {
      current_tier_idx = 0;
      current_tier = first;
      per_tier =
          if is_some (lookup first state.per_tier)
          then state.per_tier
          else insert first fresh_tier state.per_tier;
    }
    else state

-- Puts the state after the tiers back under the node's name.
unfoldable pub store :
    String
    → List (String × NodePressureState)
    → Option (NodePressureState × List Request)
    → Option (List (String × NodePressureState) × List Request)
store node_name pressure_state none = none
store node_name pressure_state (some (after, requests)) =
    some (insert node_name after pressure_state, requests)

module _ (F : Type 0) ⦃fl : Float64 F⦄ (cluster : Cluster) (fuel : ℕ) (node_name : String)
    (rt_data : List (String × RealTimeData)) where
  -- On the state whose tiers are current, and these tiers.
  unfoldable pub handle_tiers :
      List Pod
      → List (String × ℤ)
      → ℤ
      → List (String × NodePressureState)
      → NodePressureState
      → List String
      → Option (List (String × NodePressureState) × List Request)
  handle_tiers node_pods pod_milli over_sec pressure_state state [] =
      some (insert node_name state pressure_state, [])
  handle_tiers node_pods pod_milli over_sec pressure_state state (first ∷ rest) =
      store node_name pressure_state (
        process_current_tier F cluster node_pods rt_data pod_milli over_sec fuel
          (ensure_tier first state))

  -- HandleNodeCPUPressure on the duration, the data and the pods that it has read: the new
  -- `PressureState`, and the requests.
  unfoldable pub handle_node_cpu_pressure :
      List Pod
      → ℤ
      → List (String × NodePressureState)
      → Option (List (String × NodePressureState) × List Request)
  handle_node_cpu_pressure pods over_sec pressure_state =
      elim (filter (λ (p : Pod). p.node_name == node_name) pods) [
        | [] ↦ some (pressure_state, [])
        | p ∷ ps ↦
            let state =
              reindex_current_tier (record (or_fresh_state (lookup node_name pressure_state)) {
                tiers = collect_sorted_tiers (p ∷ ps) rt_data;
                above_sec = over_sec;
              }) in
            handle_tiers (p ∷ ps) (list_pod_milli_cpu_by_node node_name pods []) over_sec
              pressure_state state state.tiers
      ]
