-- ===== src/Webhook/Mutator.antt =====
-- internal/webhook/pod_mutator.go: the mutating webhook, up to the start of the goroutine that
-- waits for the containers. What the API server answers is given; the resource that the handler
-- sends to it and the settings that it hands to the goroutine are part of the result.
pub mod Confirmed
pub mod Repeat
pub mod Tests
use mc_kube.Prelude.{
  ℕ, String, Bool, true, false, ◌||◌, not, List, [], ◌∷◌, Option, none, some, lookup, insert,
  string_eq, ◌==◌, ℤ, pos, if◌then◌else◌,
}
use mc_kube.Prelude.Float.{Float64}
use mc_kube.Prelude.Sort.{Sorter}
use mc_kube.Api.{RtSettings, Mckube}
use mc_kube.CpuPool.{Pools}
use mc_kube.CpuPool.Search.{Node, FeasibilityResult, select_best_node_and_core}
use mc_kube.CpuPool.CoreSet.Sprint.{sprint}
use mc_kube.Webhook.Validator.{find_in, or_empty, required_budget}

-- What the handler reads and writes of a `corev1.Pod`. No annotations are an empty map.
pub record Pod : Type 0 where
  pub name : String
  pub namespace : String
  pub node_name : String
  pub annotations : List (String × String)

-- The messages of `admission.Allowed`.
pub data Skip : Type 0 where
  already_applied : Skip
  in_progress : Skip
  no_cr_found : Skip
  no_rt_settings : Skip
  already_handled : Skip

-- A mutated pod comes with the resource sent in a patch, if one was, and with the settings.
pub data Response : Type 0 where
  errored : Response
  skipped : Skip → Response
  mutated : Pod → Option Mckube → RtSettings → Response

-- `pod.Annotations[key] == "true"`
abbrev pub is_true : String → Pod → Bool
is_true key pod = or_empty (lookup key pod.annotations) == "true"

-- The resource that `patchMcKubeCore` sends.
unfoldable pub patched_cr : Mckube → RtSettings → String → String → Mckube
patched_cr cr rt core node_name =
    let spec = cr.spec in
    record cr {
      spec = record spec {
        rt_settings = some (record rt { core = some core });
        node = if spec.node == "" then node_name else spec.node;
      };
    }

-- The annotations but for the core.
unfoldable pub marked : RtSettings → List (String × String) → List (String × String)
marked rt annotations = insert "mckube.io/rt-current" "low" (
    insert "mckube.io/rt-runtime-hi" (sprint rt.runtime_hi) (
      insert "mckube.io/rt-runtime-low" (sprint rt.runtime_low) (
        insert "mckube.io/rt-period" (sprint rt.period)
          (insert "mckube.io/rt-pending" "true" annotations))))

unfoldable pub with_core : Option String → List (String × String) → List (String × String)
with_core none annotations = annotations
with_core (some core) annotations = insert "mckube.io/rt-core" core annotations

unfoldable pub annotate : RtSettings → Pod → Pod
unfolding marked with_core
annotate rt pod = record pod { annotations = with_core rt.core (marked rt pod.annotations) }

module _ (F : Type 0) ⦃fl : Float64 F⦄ (s : Sorter) (pools : Pools) (dry_run : Bool) where
  -- The pod bound to the node, the resource sent, and the settings from there on. The settings are
  -- part of the resource, so they have the core as soon as it is written there, whatever the API
  -- server answers to the patch.
  unfoldable pub place :
      Mckube → RtSettings → Pod → FeasibilityResult → Pod × Option Mckube × RtSettings
  unfolding patched_cr
  place cr rt pod result =
      if not result.feasible
      then (pod, none, rt)
      else let selected_core = sprint result.selected_core_id in
        let bound = record pod { node_name = result.selected_node_name } in
        if dry_run then (bound, none, rt) else (
          bound,
          some (patched_cr cr rt selected_core result.selected_node_name),
          record rt { core = some selected_core },
        )

  -- The selection of a core, where none is given and the nodes can be listed.
  unfoldable pub select_core :
      Option (List Node) → Mckube → RtSettings → Pod → Pod × Option Mckube × RtSettings
  unfolding place
  select_core list_nodes cr rt pod = elim rt.core [
    | some core ↦ (pod, none, rt)
    | none ↦ elim list_nodes [
      | none ↦ (pod, none, rt)
      | some nodes ↦
          place cr rt pod
            (select_best_node_and_core s pools nodes (required_budget F rt) cr.spec.criticality [])
    ]
  ]

  unfoldable pub mutate_found : Option (List Node) → Pod → Option (Option Mckube) → Response
  unfolding select_core annotate
  mutate_found list_nodes pod none = skipped no_cr_found
  mutate_found list_nodes pod (some none) = skipped no_rt_settings
  mutate_found list_nodes pod (some (some cr)) = elim cr.spec.rt_settings [
    | none ↦ skipped no_rt_settings
    | some rt ↦
        if is_true "mckube.io/rt-pending" pod || is_true "mckube.io/rt-configured" pod
        then skipped already_handled
        else let (bound, sent, settings) = select_core list_nodes cr rt pod in
          mutated (annotate settings bound) sent settings
  ]

  abbrev pub found_for : (String → Option (List Mckube)) → Pod → Option (Option Mckube)
  found_for list_mckubes pod = elim (list_mckubes pod.namespace) [
    | none ↦ none
    | some items ↦ some (find_in pod.name items)
  ]

  unfoldable pub handle :
      (String → Option (List Mckube)) → Option (List Node) → Option Pod → Response
  unfolding mutate_found find_in
  handle list_mckubes list_nodes none = errored
  handle list_mckubes list_nodes (some pod) =
      if is_true "mckube.io/rt-applied" pod
      then skipped already_applied
      else if is_true "mckube.io/rt-pending" pod
      then skipped in_progress
      else mutate_found list_nodes pod (found_for list_mckubes pod)
