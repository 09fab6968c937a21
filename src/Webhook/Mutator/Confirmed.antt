-- ===== src/Webhook/Mutator/Confirmed.antt =====
-- internal/webhook/pod_mutator.go, then rt_validator.go: the selected core passes the validation.
use mc_kube.Prelude.{
  ℕ, ◌<◌, ◌≡◌, refl, sym, ap, subst, ◌∙◌, String, Bool, true, false, List, [], ◌∷◌, some, lookup,
  string_eq, int_eq, ◌==◌, ℤ, pos,
}
use text.Mathlib.TextEquality.{eq_iff}
use mc_kube.Prelude.Float.{Float64}
use mc_kube.Prelude.Sort.{Sorter}
use mc_kube.Api.{RtSettings, Mckube}
use mc_kube.CpuPool.{Pools}
use mc_kube.CpuPool.Search.{
  Node, FeasibilityResult, direct, core_of, judge, select_best_node_and_core,
  check_node_core_feasibility,
}
use mc_kube.CpuPool.Placement.{IsSite}
use mc_kube.CpuPool.Relisted.{AreRelisted}
use mc_kube.CpuPool.CoreSet.{code_points, int_limit, parse_core_set}
use mc_kube.CpuPool.CoreSet.Sprint.{sprint, parse_core_set-sprint}
use mc_kube.Webhook.Validator.{allowed, core_confirmed, required_budget, selected_core, check_fixed}
use mc_kube.Webhook.Validator.Confirmed.{select_best-check}
use mc_kube.Webhook.Mutator.{Pod, patched_cr, place}

module _ (F : Type 0) ⦃fl : Float64 F⦄ (s : Sorter) (pools pools' : Pools) where
  abbrev search : List Node → Mckube → RtSettings → FeasibilityResult
  search nodes cr rt =
      select_best_node_and_core s pools nodes (required_budget F rt) cr.spec.criticality []

  check_fixed-confirms :
      (cr : Mckube) (rt : RtSettings) (core : String) (id : ℤ)
      → parse_core_set (code_points core) ≡ id ∷ []
      → (check_node_core_feasibility s pools' cr.spec.node id
          (required_budget F rt)
          cr.spec.criticality).0
        ≡ true
      → check_fixed F s pools' cr rt core ≡ allowed core_confirmed
  unfolding check_fixed
  check_fixed-confirms cr rt core id parsed fits = rw (parsed, check_fixed, fits) refl

  selected_core-core :
      (cr : Mckube) (rt : RtSettings) (core : String)
      → cr.status.allocated_core ≡ ""
      → rt.core ≡ some core
      → selected_core cr rt ≡ core
  unfolding selected_core
  selected_core-core cr rt core unallocated given =
      let blank : (cr.status.allocated_core == "") ≡ true = (eq_iff _ _).1 unallocated in
      rw (blank, given) refl

  -- Where the resource names no node and has no allocated core, some core that the search looks at
  -- takes the pod as it is, and the core that it selects has a number in the range of `int`: the
  -- mutating webhook sends a resource whose node and core the validating webhook confirms, on the same
  -- pools with their maps met in any other order, and binds the pod to that node.
  pub place-check_fixed :
      (nodes : List Node) (cr : Mckube) (rt : RtSettings) (pod : Pod) (n : ℕ) (node : Node) (id : ℤ)
      → AreRelisted pools pools'
      → cr.spec.node ≡ ""
      → cr.status.allocated_core ≡ ""
      → IsSite [] pools nodes node id
      → judge s (required_budget F rt) cr.spec.criticality (core_of (lookup node.name pools) id)
        ≡ direct
      → (search nodes cr rt).selected_core_id ≡ pos n
      → n < int_limit
      → (cr' : Mckube) × (rt' : RtSettings) × (place F s pools false cr rt pod (search nodes cr rt)
          ≡ (record pod { node_name = cr'.spec.node }, some cr', rt'))
        × (cr'.spec.rt_settings ≡ some rt')
        × (check_fixed F s pools' cr' rt' (selected_core cr' rt') ≡ allowed core_confirmed)
  unfolding place
  place-check_fixed nodes cr rt pod n node id relisted unbound unallocated site judged at_n
        in_range =
      let r = search nodes cr rt in
      let core = sprint r.selected_core_id in
      let cr' = patched_cr cr rt core r.selected_node_name in
      let rt' : RtSettings = record rt { core = some core } in
      let blank : (cr.spec.node == "") ≡ true = (eq_iff cr.spec.node "").1 unbound in
      let bound : cr'.spec.node ≡ r.selected_node_name = rw blank refl in
      let budget = required_budget F rt in
      let check : String → ℤ → Bool =
        λ name id. (check_node_core_feasibility s pools' name id budget cr.spec.criticality).0 in
      let confirmed =
        select_best-check s pools pools' nodes budget cr.spec.criticality [] node id relisted site
          judged in
      let feasible = confirmed.0 in
      let fits : check r.selected_node_name r.selected_core_id ≡ true = ap (λ q. q.0) confirmed.1 in
      (
        cr',
        rt',
        rw (feasible, blank, place) refl,
        refl,
        ap (check_fixed F s pools' cr' rt') (selected_core-core cr' rt' core unallocated refl)
            ∙ check_fixed-confirms cr' rt' core (pos n)
                (ap (λ i. parse_core_set (code_points (sprint i))) at_n
                  ∙ parse_core_set-sprint n in_range)
                (subst (λ id. check cr'.spec.node id ≡ true) at_n
                  (subst (λ name. check name r.selected_core_id ≡ true) (sym bound) fits)),
      )
