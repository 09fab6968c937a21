-- ===== src/Controller/Watch.antt =====
-- internal/controller/mckube_controller.go: findObjectsForPod, which turns a change of a pod into
-- requests for Reconcile.
use mc_kube.Prelude.{
  String, Bool, ◌||◌, not, List, [], ◌∷◌, Option, none, some, string_eq, ◌==◌, if◌then◌else◌,
}
use mc_kube.Api.{Mckube}
use mc_kube.Controller.{ControllerState}
use mc_kube.Controller.PoolUpdate.{cleanup_pod_state}

-- `targetNamespace`
abbrev pub target_namespace : String
target_namespace = "default"

-- The app is the label `sdv.com`, empty where the pod has none.
pub record WatchedPod : Type 0 where
  pub name : String
  pub namespace : String
  pub app : String
  pub deleting : Bool

pub record ObjectKey : Type 0 where
  pub name : String
  pub namespace : String

-- A request for the first resource that names the pod.
unfoldable pub requests_for : String → List Mckube → List ObjectKey
requests_for pod_name [] = []
requests_for pod_name (cr ∷ items) =
    let rest = requests_for pod_name items in
    if cr.spec.pod_name == pod_name
    then record { name = cr.name; namespace = cr.namespace } ∷ []
    else rest

abbrev pub requests_listed : String → Option (List Mckube) → List ObjectKey
requests_listed pod_name none = []
requests_listed pod_name (some items) = requests_for pod_name items

unfoldable pub find_objects_for_pod :
    (String → Option (List Mckube))
    → WatchedPod
    → ControllerState
    → List ObjectKey × ControllerState
unfolding requests_for cleanup_pod_state
find_objects_for_pod list_mckubes pod state =
    if not (pod.namespace == target_namespace) || pod.app == "" then ([], state) else (
      requests_listed pod.name (list_mckubes pod.namespace),
      if pod.deleting then cleanup_pod_state pod.name state else state,
    )
