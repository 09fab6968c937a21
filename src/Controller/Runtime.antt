-- ===== src/Controller/Runtime.antt =====
-- internal/controller/mckube_controller.go: handleOverrunEvent and handleCPURecovery, which raise a
-- pod to its high runtime and bring it back. An answer of the API server or of a node's daemon is
-- an argument; what is sent to them is recorded in the state, in order.
use mc_kube.Prelude.{
  String, Bool, true, ◌&&◌, not, List, [], ◌∷◌, ◌++◌, map, Option, none, some, lookup, insert,
  delete, filter, string_eq, ◌==◌, ℤ, if◌then◌else◌,
}
use mc_kube.Api.{RtSettings, Mckube}
use mc_kube.Ipvs.{NodePressureState}
use mc_kube.Webhook.Validator.{or_empty}

-- What these two read of a `corev1.Pod`; the app is its label `sdv.com`.
pub record RunningPod : Type 0 where
  pub name : String
  pub node_name : String
  pub app : String
  pub host_ip : String
  pub container_ids : List String

pub record CgroupRequest : Type 0 where
  pub container_id : String
  pub period : ℤ
  pub runtime : ℤ
  pub core : Option String
  pub only_runtime : Bool

-- With each request the address of the node it goes to.
pub record RuntimeState : Type 0 where
  pub pod_runtime_state : List (String × String)
  pub pressure_state : List (String × NodePressureState)
  pub processing_nodes : List (String × Bool)
  pub requests : List (String × CgroupRequest)
  pub status_updates : List Mckube

unfoldable pub is_hi : String → RuntimeState → Bool
is_hi name state = or_empty (lookup name state.pod_runtime_state) == "hi"

-- The first resource of the namespace that names the pod, with settings or without.
unfoldable pub target_of : String → List Mckube → Option Mckube
target_of pod_name [] = none
target_of pod_name (cr ∷ items) =
    if cr.spec.pod_name == pod_name then some cr else target_of pod_name items

abbrev pub low_request : RtSettings → String → CgroupRequest
low_request rt id = record {
  container_id = id;
  period = rt.period;
  runtime = rt.runtime_low;
  core = rt.core;
  only_runtime = true;
}

abbrev pub low_requests : RunningPod → RtSettings → List (String × CgroupRequest)
low_requests pod rt =
    map (λ id. (pod.host_ip, low_request rt id)) (filter (λ id. not (id == "")) pod.container_ids)

abbrev pub with_runtime : Mckube → String → Mckube
with_runtime cr current = record cr { status = record cr.status { current_runtime = current } }

-- The state is low afterwards whether or not the daemon took the requests.
unfoldable pub revert_to_low : RunningPod → Mckube → Option RtSettings → RuntimeState → RuntimeState
revert_to_low pod cr none state = state
revert_to_low pod cr (some rt) state = if pod.host_ip == "" then state else record state {
  pod_runtime_state = insert pod.name "low" state.pod_runtime_state;
  requests = state.requests ++ low_requests pod rt;
  status_updates = state.status_updates ++ (with_runtime cr "low" ∷ []);
}

abbrev pub revert_found : RunningPod → Option Mckube → RuntimeState → RuntimeState
revert_found pod none state = state
revert_found pod (some cr) state = revert_to_low pod cr cr.spec.rt_settings state

abbrev pub revert_listed : RunningPod → Option (List Mckube) → RuntimeState → RuntimeState
revert_listed pod none state = state
revert_listed pod (some items) state = revert_found pod (target_of pod.name items) state

module _ (list_mckubes : RunningPod → Option (List Mckube)) where
  unfoldable pub revert_pod : RunningPod → RuntimeState → RuntimeState
  revert_pod pod state =
      if is_hi pod.name state then revert_listed pod (list_mckubes pod) state else state

  unfoldable pub revert_all : List RunningPod → RuntimeState → RuntimeState
  revert_all [] state = state
  revert_all (pod ∷ pods) state = revert_all pods (revert_pod pod state)

  unfoldable pub recover : String → List RunningPod → RuntimeState → RuntimeState
  recover node_name [] state = state
  recover node_name (pod ∷ pods) state =
      let after = revert_all (pod ∷ pods) state in
      record after {
        pressure_state = delete node_name after.pressure_state;
        processing_nodes = delete node_name after.processing_nodes;
      }

  -- The pods on the node that have an app.
  unfoldable pub handle_cpu_recovery :
      String → Option (List RunningPod) → RuntimeState → RuntimeState
  handle_cpu_recovery node_name none state = state
  handle_cpu_recovery node_name (some pods) state =
      recover node_name (filter (λ pod. pod.node_name == node_name && not (pod.app == "")) pods)
        state

abbrev pub hi_request : RtSettings → String → CgroupRequest
hi_request rt id = record {
  container_id = id;
  period = rt.period;
  runtime = rt.runtime_hi;
  core = rt.core;
  only_runtime = true;
}

module _ (sends : String → CgroupRequest → Bool) (now : ℤ) (container_id : String) where
  -- The request is on record whether or not the daemon takes it.
  unfoldable pub raise_to_hi : RunningPod → Mckube → Option RtSettings → RuntimeState → RuntimeState
  raise_to_hi pod cr none state = state
  raise_to_hi pod cr (some rt) state =
      if is_hi pod.name state
      then state
      else if pod.host_ip == ""
      then state
      else let req = hi_request rt container_id in
        let asked = record state { requests = state.requests ++ ((pod.host_ip, req) ∷ []) } in
        let raised = record cr {
          status = record cr.status { current_runtime = "hi"; last_overrun_time = some now };
        } in
        if sends pod.host_ip req
        then record asked {
          pod_runtime_state = insert pod.name "hi" state.pod_runtime_state;
          status_updates = state.status_updates ++ (raised ∷ []);
        }
        else asked

  abbrev pub raise_found : RunningPod → Option Mckube → RuntimeState → RuntimeState
  raise_found pod none state = state
  raise_found pod (some cr) state = raise_to_hi pod cr cr.spec.rt_settings state

  abbrev pub raise_listed : RunningPod → Option (List Mckube) → RuntimeState → RuntimeState
  raise_listed pod none state = state
  raise_listed pod (some items) state = raise_found pod (target_of pod.name items) state

  -- With the pod that findPodByContainerID finds, if any.
  unfoldable pub handle_overrun_event :
      (RunningPod → Option (List Mckube)) → Option RunningPod → RuntimeState → RuntimeState
  handle_overrun_event list_mckubes none state = state
  handle_overrun_event list_mckubes (some pod) state = raise_listed pod (list_mckubes pod) state
