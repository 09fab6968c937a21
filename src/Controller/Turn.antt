-- ===== src/Controller/Turn.antt =====
-- internal/controller/mckube_controller.go: the end of Reconcile, which acts on a change of a node's
-- pressure.
pub mod Edges
use mc_kube.Prelude.{
  ℕ, String, Bool, true, false, not, ◌||◌, ◌&&◌, List, [], ◌∷◌, ◌++◌, Option, none, some, any,
  filter, lookup, insert, string_eq, ◌==◌, ℤ, if◌then◌else◌,
}
use mathlib.Core.Option
use mc_kube.Prelude.Float.{Float64}
use mc_kube.Prelude.Sort.{Sorter}
use mc_kube.Api.{RtSettings, Mckube}
use mc_kube.CpuPool.{PodInfo, CpuPool, Pools, default_num_cores}
use mc_kube.CpuPool.Store.{get_or_create_cpu_pool, get_pool_for_node, update_pool}
use mc_kube.CpuPool.CoreSet.{code_points, parse_core_set}
use mc_kube.Webhook.Validator.{or_empty}
use mc_kube.Ipvs.{NodePressureState}
use mc_kube.Ipvs.Pressure.{Request}
use mc_kube.Ipvs.Node.{Outcome}
use mc_kube.Ipvs.Events.{ann_cpu_busy_key, ann_text, same_text}
use mc_kube.Controller.{ControllerState}
use mc_kube.Controller.PoolUpdate.{
  effective_runtime, cpu_millis_of, needs_update, update_cpu_pool_for_pod, cleanup_pod_state,
  ensure_pod_runtime_state_initialized, pod_info_of,
}
use mc_kube.Controller.Runtime.{CgroupRequest, RunningPod, RuntimeState, handle_cpu_recovery}
use mc_kube.Controller.Throttle.{cleanup_expired_throttled_victims, is_victim_throttled}
use mc_kube.Controller.Cluster.{
  Phase, pending, running, ended, ClusterPod, pod_of, Effect, asks, reports, Got, got, absent,
  broken, Cluster,
}
use mc_kube.Controller.Preempt.{Preemption, preempt_cores, with_allocated}

-- What the annotation of a node calls for, against what it was when it was last looked at.
pub data Turn : Type 0 where
  same : Turn
  pressed : Turn
  recovered : Turn

-- `!hasLastState || lastState != isCpuBusy`
abbrev pub differs : Bool → Option Bool → Bool
differs busy none = true
differs true (some last) = not last
differs false (some last) = last

abbrev pub with_busy : String → Bool → List (String × Bool) → Turn × List (String × Bool)
with_busy node_name busy last_cpu_busy_state =
    if differs busy (lookup node_name last_cpu_busy_state)
    then (if busy then pressed else recovered, insert node_name busy last_cpu_busy_state)
    else (same, last_cpu_busy_state)

abbrev pub turn_for :
    String → Bool → Option String → List (String × Bool) → Turn × List (String × Bool)
turn_for node_name busy none last_cpu_busy_state = (same, last_cpu_busy_state)
turn_for node_name busy (some text) last_cpu_busy_state =
    with_busy node_name busy last_cpu_busy_state

-- A node without annotations, or without this one, is the first case.
unfoldable pub turn_of :
    String → Option (List (String × String)) → List (String × Bool) → Turn × List (String × Bool)
unfolding ann_text
turn_of node_name none last_cpu_busy_state = (same, last_cpu_busy_state)
turn_of node_name (some ann) last_cpu_busy_state =
    turn_for node_name (same_text (ann_text ann_cpu_busy_key ann) (code_points "true"))
      (lookup ann_cpu_busy_key ann) last_cpu_busy_state

-- The pressure of the node at the end of Reconcile, with what HandleNodeCPUPressure makes of the
-- states of the nodes.
unfoldable pub handle_turn :
    (RunningPod → Option (List Mckube))
    → String
    → Option (List RunningPod)
    → (List (String × NodePressureState) → Outcome)
    → Turn
    → RuntimeState
    → Option (RuntimeState × List Request)
unfolding handle_cpu_recovery
handle_turn list_mckubes node_name pods press same state = some (state, [])
handle_turn list_mckubes node_name pods press recovered state =
    some (handle_cpu_recovery list_mckubes node_name pods state, [])
handle_turn list_mckubes node_name pods press pressed state =
    Option.map (λ after. (record state { pressure_state = after.0 }, after.1))
      (press state.pressure_state)
