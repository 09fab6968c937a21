-- ===== src/Webhook/Validator/Admission.antt =====
-- internal/webhook/rt_validator.go: what each answer of the validating webhook says of the pod.
use mc_kube.Prelude.{
  ◌≡◌, refl, inl, inr, String, Bool, true, false, not, List, [], ◌∷◌, Option, none, some, string_eq,
  int_eq, ◌==◌, ℤ, arith, Bool-cases, ◌&&◌, Option-cases,
}
use mathlib.Core.List.{Memᴰ}
use mc_kube.Prelude.Float.{Float64}
use mc_kube.Prelude.Sort.{Sorter}
use mc_kube.Api.{RtSettings, Mckube}
use mc_kube.CpuPool.{Pools}
use mc_kube.CpuPool.Search.{
  Node, FeasibilityResult, select_best_node_and_core, check_node_core_feasibility,
}
use mc_kube.CpuPool.CoreSet.{code_points, parse_core_set}
use mc_kube.CpuPool.Placement.{List-cases}
use mc_kube.CpuPool.Placement.Complete.{AllRefuse, select_best_infeasible_iff}
use mc_kube.Webhook.Validator.{
  Pod, invalid_settings, invalid_core, core_full, cluster_full, no_cr_found, no_rt_settings,
  check_skipped, core_confirmed, cluster_confirmed, Response, errored, allowed, denied,
  validate_rt_settings, find_in, find_mckube_for_pod, selected_core, required_budget, check_fixed,
  check_cluster, review, review_found, handle,
}
use mc_kube.Webhook.Validator.Settings.{AreValid, validate-AreValid_iff, find_in-some, find_in-none}

-- A resource of the pod's namespace names the pod and has these settings.
abbrev pub Governs : (String → Option (List Mckube)) → Pod → Mckube → RtSettings → Type 0
Governs list_mckubes pod cr rt =
    (items : List Mckube) × (list_mckubes pod.namespace ≡ some items)
    × Memᴰ cr items
    × (cr.spec.pod_name ≡ pod.name)
    × (cr.spec.rt_settings ≡ some rt)

module _ (F : Type 0) ⦃fl : Float64 F⦄ (s : Sorter) (pools : Pools) where
  -- The check of one core of the node that the resource names.
  abbrev pub checks : Mckube → RtSettings → ℤ → Bool
  checks cr rt id =
      (check_node_core_feasibility s pools cr.spec.node id (required_budget F rt)
        cr.spec.criticality).0

  -- The search over all nodes.
  abbrev pub placement : List Node → Mckube → RtSettings → FeasibilityResult
  placement nodes cr rt =
      select_best_node_and_core s pools nodes (required_budget F rt) cr.spec.criticality []

  -- What the review of a resource says.
  abbrev pub IsReviewed : Option (List Node) → Mckube → RtSettings → Response → Type 0
  IsReviewed list_nodes cr rt (denied (invalid_settings e)) = validate_rt_settings F rt ≡ some e
  IsReviewed list_nodes cr rt (allowed check_skipped) = AreValid F rt × (list_nodes ≡ none)
  IsReviewed list_nodes cr rt (denied (invalid_core c)) =
      AreValid F rt × (c ≡ selected_core cr rt) × (parse_core_set (code_points c) ≡ [])
  IsReviewed list_nodes cr rt (denied (core_full node id)) =
      AreValid F rt
      × (node ≡ cr.spec.node)
      × ((rest : List ℤ) × (parse_core_set (code_points (selected_core cr rt)) ≡ id ∷ rest))
      × (checks cr rt id ≡ false)
  IsReviewed list_nodes cr rt (allowed core_confirmed) =
      AreValid F rt
      × ((id : ℤ) × (rest : List ℤ) × (parse_core_set (code_points (selected_core cr rt))
            ≡ id ∷ rest)
          × (checks cr rt id ≡ true))
  IsReviewed list_nodes cr rt (denied cluster_full) =
      AreValid F rt
      × ((nodes : List Node) × (list_nodes ≡ some nodes)
          × AllRefuse s pools nodes (required_budget F rt) cr.spec.criticality [])
  IsReviewed list_nodes cr rt (allowed cluster_confirmed) =
      AreValid F rt
      × ((nodes : List Node) × (list_nodes ≡ some nodes)
          × ((placement nodes cr rt).feasible ≡ true))
  IsReviewed list_nodes cr rt other = ⊥

  module _ (cr : Mckube) (rt : RtSettings) (valid : AreValid F rt) where
    fixed-IsReviewed :
        (list_nodes : Option (List Node))
        → IsReviewed list_nodes cr rt (check_fixed F s pools cr rt (selected_core cr rt))
    unfolding check_fixed
    fixed-IsReviewed list_nodes =
        elim (List-cases (parse_core_set (code_points (selected_core cr rt)))) [
          | inl e ↦ rw (e, check_fixed) (valid, refl, e)
          | inr (id, rest, e) ↦ elim (Bool-cases (checks cr rt id)) [
            | inl fits ↦ rw (e, check_fixed, fits) (valid, (id, rest, e, fits))
            | inr full ↦ rw (e, check_fixed, full) (valid, refl, (rest, e), full)
          ]
        ]

    cluster-IsReviewed :
        (nodes : List Node) → IsReviewed (some nodes) cr rt (check_cluster F s pools cr rt nodes)
    unfolding check_cluster
    cluster-IsReviewed nodes = elim (Bool-cases (placement nodes cr rt).feasible) [
      | inl found ↦ rw found (valid, (nodes, refl, found))
      | inr full ↦ rw full (
        valid,
        (
          nodes,
          refl,
          (select_best_infeasible_iff s pools nodes (required_budget F rt) cr.spec.criticality []).0
              full,
        ),
      )
    ]

  review-IsReviewed :
      (list_nodes : Option (List Node)) (cr : Mckube) (rt : RtSettings)
      → IsReviewed list_nodes cr rt (review F s pools list_nodes cr rt)
  unfolding review
  review-IsReviewed list_nodes cr rt = elim (Option-cases (validate_rt_settings F rt)) [
    | inr (e, h) ↦ rw (h, review) h
    | inl h ↦ valid_case list_nodes h
  ]
    where
      valid_case :
          (list_nodes : Option (List Node))
          → validate_rt_settings F rt ≡ none
          → IsReviewed list_nodes cr rt (review F s pools list_nodes cr rt)
      valid_case none h = rw (h, review) ((validate-AreValid_iff F rt).0 h, refl)
      valid_case (some nodes) h =
          let valid = (validate-AreValid_iff F rt).0 h in
          let core = selected_core cr rt in
          elim (Bool-cases (not (core == "") && not (cr.spec.node == ""))) [
            | inl e ↦ rw (h, review, e) (fixed-IsReviewed cr rt valid (some nodes))
            | inr e ↦ rw (h, review, e) (cluster-IsReviewed cr rt valid nodes)
          ]

  module _ (list_mckubes : String → Option (List Mckube)) (list_nodes : Option (List Node)) where
    -- What an answer to a pod says. A pod is let in unchecked if the resources cannot be listed, or
    -- if none that names it has settings; otherwise a resource that names it has been reviewed.
    abbrev pub IsJustified : Pod → Response → Type 0
    IsJustified pod errored = ⊥
    IsJustified pod (allowed no_cr_found) = list_mckubes pod.namespace ≡ none
    IsJustified pod (allowed no_rt_settings) =
        (items : List Mckube) × (list_mckubes pod.namespace ≡ some items)
        × ((m : Mckube) → Memᴰ m items → m.spec.pod_name ≡ pod.name → m.spec.rt_settings ≡ none)
    IsJustified pod answer =
        (cr : Mckube) × (rt : RtSettings) × Governs list_mckubes pod cr rt
        × IsReviewed list_nodes cr rt answer

    reviewed-IsJustified :
        (pod : Pod) (cr : Mckube) (rt : RtSettings) (answer : Response)
        → Governs list_mckubes pod cr rt
        → IsReviewed list_nodes cr rt answer
        → IsJustified pod answer
    reviewed-IsJustified pod cr rt errored g r = r
    reviewed-IsJustified pod cr rt (allowed no_cr_found) g r = absurd r
    reviewed-IsJustified pod cr rt (allowed no_rt_settings) g r = absurd r
    reviewed-IsJustified pod cr rt (allowed check_skipped) g r = (cr, rt, g, r)
    reviewed-IsJustified pod cr rt (allowed core_confirmed) g r = (cr, rt, g, r)
    reviewed-IsJustified pod cr rt (allowed cluster_confirmed) g r = (cr, rt, g, r)
    reviewed-IsJustified pod cr rt (denied d) g r = (cr, rt, g, r)

    found-IsJustified :
        (pod : Pod) (items : List Mckube)
        → list_mckubes pod.namespace ≡ some items
        → IsJustified pod (review_found F s pools list_nodes (some (find_in pod.name items)))
    unfolding review_found
    found-IsJustified pod items listed = elim (Option-cases (find_in pod.name items)) [
      | inl e ↦
          rw (e, review_found) (items, listed, λ m k named. find_in-none pod.name items m e k named)
      | inr (cr, e) ↦
          let (inside, named, has) = find_in-some pod.name items cr e in
          elim (Option-cases cr.spec.rt_settings) [
            | inl unset ↦ absurd (ground (arith, has, unset))
            | inr (rt, set) ↦
                rw (e, review_found, set)
                  (reviewed-IsJustified pod cr rt (review F s pools list_nodes cr rt)
                    (items, listed, inside, named, set) (review-IsReviewed list_nodes cr rt))
          ]
    ]

    -- Every answer of the validating webhook to a decoded pod is justified. A pod is let in
    -- unchecked only if the resources of its namespace cannot be listed, or if none of them that
    -- names it has settings. Otherwise a resource names it, and: the settings are refused with the
    -- error found; or they are valid and the nodes cannot be listed; or they are valid, and the
    -- first core of the selected set passes or fails the check of its node, or the set is empty,
    -- or the search over all nodes finds a core, or every core of every node refuses the pod.
    pub handle-IsJustified :
        (pod : Pod) → IsJustified pod (handle F s pools list_mckubes list_nodes (some pod))
    unfolding handle
    handle-IsJustified pod = elim (Option-cases (list_mckubes pod.namespace)) [
      | inl e ↦ rw (e, find_mckube_for_pod) e
      | inr (items, e) ↦ rw (e, find_mckube_for_pod) (found-IsJustified pod items e)
    ]
