-- ===== src/Webhook/Validator/Confirmed.antt =====
-- internal/webhook/rt_validator.go against the search of the mutating webhook, which comes earlier and
-- ranges over the maps of the pools on its own.
use mc_kube.Prelude.{◌≡◌, String, true, List, [], string_eq, int_eq, ℤ, lookup}
use mc_kube.Prelude.Float.{Float64}
use mc_kube.Prelude.Sort.{Sorter}
use mc_kube.CpuPool.{Pools}
use mc_kube.CpuPool.Search.{
  Node, direct, core_of, judge, select_best_node_and_core, check_node_core_feasibility,
}
use mc_kube.CpuPool.Placement.{IsSite}
use mc_kube.CpuPool.Placement.Direct.{select_best-IsDirect}
use mc_kube.CpuPool.Relisted.{AreRelisted, check-direct}

module _ {F : Type 0} ⦃fl : Float64 F⦄ (s : Sorter) (pools pools' : Pools) where
  -- If some core that the mutating webhook's search looks at takes the pod as it is, the search is
  -- positive, and the node and core that it selects pass the validating webhook's check, on the same
  -- pools with their maps met in any other order, for the same budget and criticality and without
  -- victims.
  pub select_best-check :
      (nodes : List Node) (required : F) (incoming : String) (preferred : List ℤ) (node : Node)
      (id : ℤ)
      → AreRelisted pools pools'
      → IsSite preferred pools nodes node id
      → judge s required incoming (core_of (lookup node.name pools) id) ≡ direct
      → let r = select_best_node_and_core s pools nodes required incoming preferred in
        (r.feasible ≡ true)
        × (check_node_core_feasibility s pools' r.selected_node_name r.selected_core_id required
              incoming
            ≡ (true, []))
  select_best-check nodes required incoming preferred node id relisted site judged =
      let r = select_best_node_and_core s pools nodes required incoming preferred in
      let found =
        select_best-IsDirect s pools nodes required incoming preferred node id site judged in
      (
        found.0,
        check-direct s pools pools' r.selected_node_name r.selected_core_id required incoming
            relisted found.1,
      )
