-- ===== src/Webhook/Validator.antt =====
-- internal/webhook/rt_validator.go: the validating webhook. What the API server answers is given:
-- the decoded pod, the resources of a namespace, the nodes; an absent answer is an error.
pub mod Settings
pub mod Admission
pub mod Confirmed
pub mod Tests
use mc_kube.Prelude.{
  ℕ, String, Bool, true, false, ◌&&◌, not, List, [], ◌∷◌, Option, none, some, is_some, string_eq,
  ◌==◌, ℤ, pos, leb_ℤ, ltb_ℤ, if◌then◌else◌,
}
use mc_kube.Prelude.Float.{Float64}
use mc_kube.Prelude.Sort.{Sorter}
use mc_kube.Api.{RtSettings, Mckube}
use mc_kube.CpuPool.{Pools}
use mc_kube.CpuPool.Search.{
  Node, FeasibilityResult, select_best_node_and_core, check_node_core_feasibility,
}
use mc_kube.CpuPool.CoreSet.{parse_core_set, code_points}

-- What the handler reads of a `corev1.Pod`.
pub record Pod : Type 0 where
  pub name : String
  pub namespace : String

-- The errors of `validateRTSettings`.
pub data RtError : Type 0 where
  period_not_positive : RtError
  budget_lo_not_positive : RtError
  budget_lo_above_period : RtError
  budget_hi_not_positive : RtError
  budget_hi_above_period : RtError
  budget_lo_above_hi : RtError
  budget_hi_above_capacity : RtError
  core_empty : RtError

pub data Denial : Type 0 where
  invalid_settings : RtError → Denial
  invalid_core : String → Denial
  core_full : String → ℤ → Denial
  cluster_full : Denial

-- The messages of `admission.Allowed`.
pub data Grant : Type 0 where
  no_cr_found : Grant
  no_rt_settings : Grant
  check_skipped : Grant
  core_confirmed : Grant
  cluster_confirmed : Grant

pub data Response : Type 0 where
  errored : Response
  allowed : Grant → Response
  denied : Denial → Response

abbrev pub is_empty_core : Option String → Bool
is_empty_core none = false
is_empty_core (some c) = c == ""

module _ (F : Type 0) ⦃fl : Float64 F⦄ where
  -- `int(float64(rtSettings.Period) * cpupool.RTCapacityPerCore)`
  abbrev pub max_runtime : ℤ → ℤ
  max_runtime period = fl.to_int (fl.mul (fl.of_int period) (fl.decimal 95 2))

  -- `float64(rtSettings.RuntimeHi) / float64(rtSettings.Period)`
  abbrev pub required_budget : RtSettings → F
  required_budget rt = fl.div (fl.of_int rt.runtime_hi) (fl.of_int rt.period)

  unfoldable pub validate_rt_settings : RtSettings → Option RtError
  validate_rt_settings rt =
      if leb_ℤ rt.period (pos 0)
      then some period_not_positive
      else if leb_ℤ rt.runtime_low (pos 0)
      then some budget_lo_not_positive
      else if ltb_ℤ rt.period rt.runtime_low
      then some budget_lo_above_period
      else if leb_ℤ rt.runtime_hi (pos 0)
      then some budget_hi_not_positive
      else if ltb_ℤ rt.period rt.runtime_hi
      then some budget_hi_above_period
      else if ltb_ℤ rt.runtime_hi rt.runtime_low
      then some budget_lo_above_hi
      else if ltb_ℤ (max_runtime rt.period) rt.runtime_hi
      then some budget_hi_above_capacity
      else if is_empty_core rt.core
      then some core_empty
      else none

-- The loop of `findMcKubeForPod` over the resources of the pod's namespace.
unfoldable pub find_in : String → List Mckube → Option Mckube
find_in pod_name [] = none
find_in pod_name (mc ∷ items) =
    if (mc.spec.pod_name == pod_name) && is_some mc.spec.rt_settings
    then some mc
    else find_in pod_name items

-- No answer of the API server is an error; no resource found is not.
unfoldable pub find_mckube_for_pod : (String → Option (List Mckube)) → Pod → Option (Option Mckube)
unfolding find_in
find_mckube_for_pod list_mckubes pod = elim (list_mckubes pod.namespace) [
  | none ↦ none
  | some items ↦ some (find_in pod.name items)
]

-- `*rtSettings.Core`, or the empty text.
abbrev pub or_empty : Option String → String
or_empty none = ""
or_empty (some c) = c

-- The core that the mutating webhook selected, if any.
unfoldable pub selected_core : Mckube → RtSettings → String
selected_core cr rt =
    if not (cr.status.allocated_core == "") then cr.status.allocated_core else or_empty rt.core

module _ (F : Type 0) ⦃fl : Float64 F⦄ (s : Sorter) (pools : Pools) where
  -- Case A: the node and the core are fixed.
  unfoldable pub check_fixed : Mckube → RtSettings → String → Response
  check_fixed cr rt core = elim (parse_core_set (code_points core)) [
    | [] ↦ denied (invalid_core core)
    | id ∷ _ ↦
        let (feasible, victims) =
          check_node_core_feasibility s pools cr.spec.node id (required_budget F rt)
            cr.spec.criticality in
        if not feasible then denied (core_full cr.spec.node id) else allowed core_confirmed
  ]

  -- Case B: the search over all nodes.
  unfoldable pub check_cluster : Mckube → RtSettings → List Node → Response
  check_cluster cr rt nodes =
      let result =
        select_best_node_and_core s pools nodes (required_budget F rt) cr.spec.criticality [] in
      if not result.feasible then denied cluster_full else allowed cluster_confirmed

  -- Both phases, on the settings of the resource found.
  unfoldable pub review : Option (List Node) → Mckube → RtSettings → Response
  unfolding validate_rt_settings check_fixed check_cluster selected_core
  review list_nodes cr rt = elim (validate_rt_settings F rt) [
    | some e ↦ denied (invalid_settings e)
    | none ↦ elim list_nodes [
      | none ↦ allowed check_skipped
      | some nodes ↦
          let core = selected_core cr rt in
          if not (core == "") && not (cr.spec.node == "")
          then check_fixed cr rt core
          else check_cluster cr rt nodes
    ]
  ]

  unfoldable pub review_found : Option (List Node) → Option (Option Mckube) → Response
  unfolding review
  review_found list_nodes none = allowed no_cr_found
  review_found list_nodes (some none) = allowed no_rt_settings
  review_found list_nodes (some (some cr)) = elim cr.spec.rt_settings [
    | none ↦ allowed no_rt_settings
    | some rt ↦ review list_nodes cr rt
  ]

  unfoldable pub handle :
      (String → Option (List Mckube)) → Option (List Node) → Option Pod → Response
  unfolding review_found find_mckube_for_pod
  handle list_mckubes list_nodes none = errored
  handle list_mckubes list_nodes (some pod) =
      review_found list_nodes (find_mckube_for_pod list_mckubes pod)
