-- ===== src/Controller/Containers/Tests.antt =====
-- internal/controller/mckube_controller.go: the overrun listener at a node with two pods.
use mc_kube.Prelude.{
  ◌≡◌, refl, ◌⊎◌, String, Bool, true, List, [], ◌∷◌, Option, some, pos, string_eq,
}
use mc_kube.Prelude.Text.{behind_prefix, behind_first}
use mc_kube.Api.{Mckube}
use mc_kube.Controller.Runtime.{CgroupRequest, RunningPod, RuntimeState}
use mc_kube.Controller.Containers.{
  ListedPod, OverrunData, normalized, find_pod_by_container_id, serve_overrun,
}
use mc_kube.Controller.Containers.Search.{IsHandled, serve_overrun-IsHandled}
use mc_kube.Controller.Containers.Blank.{first_with_container, find_pod_by_container_id_blank}

abbrev pod_with : String → String → ListedPod
pod_with name id = record {
  pod = record {
    name = name;
    node_name = "n1";
    app = name;
    host_ip = "10.0.0.1";
    container_ids = id ∷ [];
  };
  init_ids = [];
}

abbrev pods : List ListedPod
pods = pod_with "batch" "containerd://c1" ∷ pod_with "control" "containerd://c2" ∷ []

abbrev report : OverrunData
report = record { node_name = "n1"; container_id = "c2" }

abbrev quiet : RuntimeState
quiet = record {
  pod_runtime_state = [];
  pressure_state = [];
  processing_nodes = [];
  requests = [];
  status_updates = [];
}

abbrev willing_daemon : String → CgroupRequest → Bool
willing_daemon node_ip req = true

abbrev list_crs : RunningPod → Option (List Mckube)
list_crs pod = some []

finds_control :
    find_pod_by_container_id "n1" "c2" (some pods)
    ≡ some (some (pod_with "control" "containerd://c2").pod)
unfolding find_pod_by_container_id behind_first
finds_control = refl

serve_overrun-IsHandled_example :
    let (status, after) =
      serve_overrun willing_daemon (pos 7) list_crs (some pods) true (some report) quiet in
    (after ≡ quiet)
    ⊎ ((status ≡ 200)
        × (true ≡ true)
        × IsHandled willing_daemon (pos 7) list_crs (some pods) (some report) quiet after)
serve_overrun-IsHandled_example =
    serve_overrun-IsHandled willing_daemon (pos 7) list_crs true (some report) (some pods) quiet

empty_is_blank : normalized "" ≡ ""
unfolding normalized behind_first behind_prefix
empty_is_blank = refl

find_pod_by_container_id_blank_example :
    find_pod_by_container_id "n1" "" (some pods) ≡ some (first_with_container "n1" pods)
find_pod_by_container_id_blank_example = find_pod_by_container_id_blank "n1" "" pods empty_is_blank
