-- ===== src/Controller/Containers.antt =====
-- internal/controller/mckube_controller.go: findPodByContainerID, and the handler of the overrun
-- listener, which gives the pod to handleOverrunEvent.
pub mod Search
pub mod Blank
pub mod Tests
use mc_kube.Prelude.{
  ℕ, String, Bool, true, false, ◌&&◌, ◌||◌, List, [], ◌∷◌, Option, none, some, any, string_eq, ◌==◌,
  ℤ, if◌then◌else◌,
}
use mc_kube.Prelude.Text.{behind_first, contains_text}
use mc_kube.Api.{Mckube}
use mc_kube.Controller.Runtime.{CgroupRequest, RunningPod, RuntimeState, handle_overrun_event}

-- A pod of the listing, with the identifiers of its init containers.
pub record ListedPod : Type 0 where
  pub pod : RunningPod
  pub init_ids : List String

pub record OverrunData : Type 0 where
  pub node_name : String
  pub container_id : String

abbrev pub rest_of : String → Option String → String
rest_of whole none = whole
rest_of whole (some rest) = rest

unfoldable pub normalized : String → String
normalized id = rest_of id (behind_first "://" id)

unfoldable pub same_container : String → String → Bool
unfolding normalized
same_container container_id status_id =
    status_id == container_id
    || (normalized status_id == normalized container_id
        || contains_text status_id (normalized container_id))

unfoldable pub matches : String → String → ListedPod → Bool
unfolding same_container
matches node_name container_id p =
    (node_name == "" || p.pod.node_name == node_name)
    && (any (same_container container_id) p.pod.container_ids
        || any (same_container container_id) p.init_ids)

unfoldable pub first_match : String → String → List ListedPod → Option RunningPod
unfolding matches
first_match node_name container_id [] = none
first_match node_name container_id (p ∷ pods) =
    let rest = first_match node_name container_id pods in
    if matches node_name container_id p then some p.pod else rest

-- No result where the pods cannot be listed.
unfoldable pub find_pod_by_container_id :
    String → String → Option (List ListedPod) → Option (Option RunningPod)
unfolding first_match
find_pod_by_container_id node_name container_id none = none
find_pod_by_container_id node_name container_id (some pods) =
    some (first_match node_name container_id pods)

module _ (sends : String → CgroupRequest → Bool) (now : ℤ)
    (list_mckubes : RunningPod → Option (List Mckube)) (list_pods : Option (List ListedPod)) where
  abbrev pub overrun_at : String → Option (Option RunningPod) → RuntimeState → RuntimeState
  overrun_at container_id none state = state
  overrun_at container_id (some pod) state =
      handle_overrun_event sends now container_id list_mckubes pod state

  abbrev pub overrun_decoded : Option OverrunData → RuntimeState → ℕ × RuntimeState
  overrun_decoded none state = (400, state)
  overrun_decoded (some data_in) state = (
    200,
    overrun_at data_in.container_id
        (find_pod_by_container_id data_in.node_name data_in.container_id list_pods) state,
  )

  -- The status of the answer. A body that is not the expected JSON gives none.
  unfoldable pub serve_overrun : Bool → Option OverrunData → RuntimeState → ℕ × RuntimeState
  serve_overrun is_post body state = if is_post then overrun_decoded body state else (405, state)
