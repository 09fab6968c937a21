-- ===== src/Controller/Whole.antt =====
-- internal/controller/mckube_controller.go: Reconcile from its beginning to its end, on the state that
-- the process shares between its goroutines.
pub mod Recovered
pub mod Panicked
pub mod Run
pub mod Lowers
pub mod Reverts
pub mod Raised
pub mod Caused
pub mod Steady
pub mod AgainTests
pub mod Tests
use mc_kube.Prelude.{
  String, Bool, true, false, not, ◌&&◌, List, [], Option, none, some, string_eq, ◌==◌, ℤ,
  if◌then◌else◌,
}
use mathlib.Core.Option
use mc_kube.Prelude.Float.{Float64}
use mc_kube.Prelude.Sort.{Sorter}
use mc_kube.Api.{Mckube}
use mc_kube.Ipvs.{NodePressureState}
use mc_kube.Ipvs.Pressure.{Request}
use mc_kube.Ipvs.Node.{Outcome}
use mc_kube.Controller.Runtime.{CgroupRequest, RunningPod, RuntimeState}
use mc_kube.Controller.Cluster.{Got, got, absent, broken, Cluster}
use mc_kube.Controller.Process.{Process}
use mc_kube.Controller.Reconcile.{
  Resource, Queued, done, requeue, requeue_after, failed, panicked, Round, mckube_finalizer,
  contains_string, reconcile,
}
use mc_kube.Controller.Turn.{Turn, turn_of, handle_turn}

-- The state of the process with `lastCpuBusyState`, and with the states of the monitor.
pub record World : Type 0 where
  pub process : Process
  pub pressure_state : List (String × NodePressureState)
  pub processing_nodes : List (String × Bool)
  pub last_cpu_busy_state : List (String × Bool)
  pub requests : List (String × CgroupRequest)
  pub status_updates : List Mckube

-- The part that handleCPURecovery works on.
abbrev pub runtime_of : World → RuntimeState
runtime_of w = record {
  pod_runtime_state = w.process.controller.pod_runtime_state;
  pressure_state = w.pressure_state;
  processing_nodes = w.processing_nodes;
  requests = w.requests;
  status_updates = w.status_updates;
}

abbrev pub with_runtime_state : RuntimeState → World → World
with_runtime_state state w = record w {
  process = record w.process {
    controller = record w.process.controller { pod_runtime_state = state.pod_runtime_state };
  };
  pressure_state = state.pressure_state;
  processing_nodes = state.processing_nodes;
  requests = state.requests;
  status_updates = state.status_updates;
}

-- The answers for the nodes: the annotations of a node that is found and has any, the pods, the
-- resources for a pod, and what HandleNodeCPUPressure makes of the states of the nodes.
pub record NodeAnswers : Type 0 where
  pub annotations_of : String → Option (List (String × String))
  pub list_pods : Option (List RunningPod)
  pub list_mckubes : RunningPod → Option (List Mckube)
  pub press : String → List (String × NodePressureState) → Outcome

-- Whether Reconcile gets to the pressure of the node.
abbrev pub gets_to_node : Resource → Bool
gets_to_node r =
    not r.deleting
    && (contains_string r.finalizers mckube_finalizer
        && (not (r.mckube.spec.pod_name == "") && not (r.mckube.spec.node == "")))

module _ (answers : NodeAnswers) where
  abbrev pub turn_world : Turn → String → World → Option (World × List Request)
  turn_world turn node_name w =
      Option.map (λ after. (with_runtime_state after.0 w, after.1))
        (handle_turn answers.list_mckubes node_name answers.list_pods (answers.press node_name) turn
          (runtime_of w))

  unfoldable pub check_node : String → World → Option (World × List Request)
  unfolding turn_of handle_turn
  check_node node_name w =
      let (turn, last) =
        turn_of node_name (answers.annotations_of node_name) w.last_cpu_busy_state in
      turn_world turn node_name (record w { last_cpu_busy_state = last })

  abbrev pub check_if : Bool → String → World → Option (World × List Request)
  check_if false node_name w = some (w, [])
  check_if true node_name w = check_node node_name w

  abbrev pub check_got : Got Resource → World → Option (World × List Request)
  check_got absent w = some (w, [])
  check_got broken w = some (w, [])
  check_got (got r) w = check_if (gets_to_node r) r.mckube.spec.node w

  -- A round that panicked does not get there.
  abbrev pub check_after : Queued → Got Resource → World → Option (World × List Request)
  check_after panicked answer w = some (w, [])
  check_after done answer w = check_got answer w
  check_after requeue answer w = check_got answer w
  check_after (requeue_after seconds) answer w = check_got answer w
  check_after failed answer w = check_got answer w

  module _ (F : Type 0) ⦃fl : Float64 F⦄ (s : Sorter) (cluster : Cluster) (now : ℤ) where
    -- What is sent for pods, and then to the API server for the node. No result where
    -- HandleNodeCPUPressure gives none.
    unfoldable pub reconcile_whole :
        (Resource → Bool) → Got Resource → World → Option (World × Round × List Request)
    unfolding check_node reconcile
    reconcile_whole accepts answer w =
        let round = reconcile F s cluster now accepts answer w.process in
        Option.map (λ after. (after.0, round, after.1))
          (check_after round.queued answer (record w { process = round.process }))
