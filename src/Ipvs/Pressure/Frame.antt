-- ===== src/Ipvs/Pressure/Frame.antt =====
-- internal/ipvs/event_handler.go: HandleNodeCPUPressure ends, and touches one node's state only.
use mc_kube.Prelude.{
  ℕ, ◌≤◌, ◌≡◌, ◌≢◌, refl, ap, inl, inr, String, List, [], ◌∷◌, Option, some, ℤ, lookup, insert,
  lookup-insert, filter, string_eq, ◌==◌, arith,
}
use text.Mathlib.TextEquality.{eq_iff}
use mc_kube.Prelude.Float.{Float64}
use mc_kube.CpuPool.Placement.{List-cases}
use mc_kube.Ipvs.{Pod, RealTimeData, NodePressureState}
use mc_kube.Ipvs.Pods.{list_pod_milli_cpu_by_node}
use mc_kube.Ipvs.Tiers.{collect_sorted_tiers, reindex_current_tier}
use mc_kube.Ipvs.Pressure.{
  Cluster, Request, or_fresh_state, ensure_tier, store, handle_tiers, handle_node_cpu_pressure,
}
use mc_kube.Ipvs.Pressure.Order.{process_current_tier-IsOrderly}

-- Only the entry of this node differs.
abbrev pub AgreeElsewhere :
    String → List (String × NodePressureState) → List (String × NodePressureState) → Type 0
AgreeElsewhere node_name before after =
    (other : String) → node_name ≢ other → lookup other after ≡ lookup other before

insert-AgreeElsewhere :
    (node_name : String) (state : NodePressureState) (before : List (String × NodePressureState))
    → AgreeElsewhere node_name before (insert node_name state before)
insert-AgreeElsewhere node_name state before other distinct =
    ground (arith, lookup-insert node_name other state before, eq_iff node_name other, distinct)

module _ (F : Type 0) ⦃fl : Float64 F⦄ (cluster : Cluster) (fuel : ℕ) (node_name : String)
    (rt_data : List (String × RealTimeData)) where
  -- There is a result, and the other nodes are as before.
  abbrev pub EndsHere :
      List (String × NodePressureState)
      → Option (List (String × NodePressureState) × List Request)
      → Type 0
  EndsHere before result =
      (after : List (String × NodePressureState)) × (requests : List Request) × (result
        ≡ some (after, requests))
      × AgreeElsewhere node_name before after

  handle_tiers-EndsHere :
      (node_pods : List Pod) (pod_milli : List (String × ℤ)) (over_sec : ℤ)
      (before : List (String × NodePressureState)) (state : NodePressureState) (tiers : List String)
      → 3 ≤ fuel
      → EndsHere before (
          handle_tiers F cluster fuel node_name rt_data node_pods pod_milli over_sec before state
            tiers)
  unfolding handle_tiers store
  handle_tiers-EndsHere node_pods pod_milli over_sec before state [] h =
      (insert node_name state before, [], refl, insert-AgreeElsewhere node_name state before)
  handle_tiers-EndsHere node_pods pod_milli over_sec before state (first ∷ rest) h =
      let (after, requests, result, _) =
        process_current_tier-IsOrderly F cluster node_pods rt_data pod_milli over_sec fuel
          (ensure_tier first state) (omega arith) in
      (
        insert node_name after before,
        requests,
        ap (store node_name before) result,
        insert-AgreeElsewhere node_name after before,
      )

  -- With fuel for three tiers HandleNodeCPUPressure has a result, and the pressure state of every
  -- other node is as before.
  pub handle_node_cpu_pressure-EndsHere :
      (pods : List Pod) (over_sec : ℤ) (before : List (String × NodePressureState))
      → 3 ≤ fuel
      → EndsHere before
          (handle_node_cpu_pressure F cluster fuel node_name rt_data pods over_sec before)
  unfolding handle_node_cpu_pressure
  handle_node_cpu_pressure-EndsHere pods over_sec before h =
      elim (List-cases (filter (λ (p : Pod). p.node_name == node_name) pods)) [
        | inl e ↦ (before, [], rw (e, handle_node_cpu_pressure) refl, λ other _. refl)
        | inr (p, ps, e) ↦
            let state = reindex_current_tier (record (or_fresh_state (lookup node_name before)) {
              tiers = collect_sorted_tiers (p ∷ ps) rt_data;
              above_sec = over_sec;
            }) in
            rw (e, handle_node_cpu_pressure)
              (handle_tiers-EndsHere (p ∷ ps) (list_pod_milli_cpu_by_node node_name pods [])
                over_sec before state state.tiers h)
      ]
