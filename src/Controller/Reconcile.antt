-- ===== src/Controller/Reconcile.antt =====
-- internal/controller/mckube_controller.go: Reconcile, from a resource as the API server gives it to
-- the state of the process, what is sent, and the answer to the work queue.
pub mod Deletion
pub mod Status
pub mod Settling
use mc_kube.Prelude.{
  ℕ, String, Bool, true, false, not, ◌||◌, ◌&&◌, List, [], ◌∷◌, ◌++◌, Option, none, some, any,
  filter, lookup, insert, string_eq, ◌==◌, ℤ, if◌then◌else◌,
}
use mathlib.Core.Option
use mc_kube.Prelude.Float.{Float64}
use mc_kube.Prelude.Sort.{Sorter}
use mc_kube.Api.{RtSettings, Mckube}
use mc_kube.CpuPool.{PodInfo, CpuPool, Pools, default_num_cores}
use mc_kube.CpuPool.Store.{get_or_create_cpu_pool, get_pool_for_node, update_pool}
use mc_kube.CpuPool.CoreSet.{code_points, parse_core_set}
use mc_kube.Webhook.Validator.{or_empty}
use mc_kube.Ipvs.{NodePressureState}
use mc_kube.Ipvs.Pressure.{Request}
use mc_kube.Ipvs.Node.{Outcome}
use mc_kube.Ipvs.Events.{ann_cpu_busy_key, ann_text, same_text}
use mc_kube.Controller.{ControllerState}
use mc_kube.Controller.PoolUpdate.{
  effective_runtime, cpu_millis_of, needs_update, update_cpu_pool_for_pod, cleanup_pod_state,
  ensure_pod_runtime_state_initialized, pod_info_of,
}
use mc_kube.Controller.Runtime.{CgroupRequest, RunningPod, RuntimeState, handle_cpu_recovery}
use mc_kube.Controller.Throttle.{cleanup_expired_throttled_victims, is_victim_throttled}
use mc_kube.Controller.Cluster.{
  Phase, pending, running, ended, ClusterPod, pod_of, Effect, asks, reports, Got, got, absent,
  broken, Cluster,
}
use mc_kube.Controller.Preempt.{Preemption, preempt_cores, with_allocated}
use mc_kube.Controller.Process.{Process, is_active, is_running, process_got}

abbrev pub mckube_finalizer : String
mckube_finalizer = "mckube.mcoperator.sdv.com/finalizer"

unfoldable pub contains_string : List String → String → Bool
contains_string slice s = any (λ item. item == s) slice

unfoldable pub remove_string : List String → String → List String
remove_string slice s = filter (λ item. not (item == s)) slice

-- A resource with the metadata that Reconcile reads; `deleting` is a deletion timestamp that is set.
pub record Resource : Type 0 where
  pub mckube : Mckube
  pub finalizers : List String
  pub deleting : Bool

-- The answer to the work queue: nothing more to do, once more now, once more after some seconds, an
-- error, which is retried, and a panic, which ends the round where it is.
pub data Queued : Type 0 where
  done : Queued
  requeue : Queued
  requeue_after : ℕ → Queued
  failed : Queued
  panicked : Queued

pub record Round : Type 0 where
  pub process : Process
  pub effects : List Effect
  pub stored : Option Resource
  pub queued : Queued

-- Nothing sent and nothing stored.
abbrev pub stop : Process → Queued → Round
stop p q = record { process = p; effects = []; stored = none; queued = q }

-- An update of the resource, which fails or is stored.
abbrev pub updating : Process → Bool → Resource → Queued → Round
updating p true r q = record { process = p; effects = []; stored = some r; queued = q }
updating p false r q = stop p failed

abbrev pub with_node : Resource → String → Resource
with_node r node = record r {
  mckube = record r.mckube { spec = record r.mckube.spec { node = node } };
}

-- The pod that the resource has been given its node by.
unfoldable pub assign_node : Process → (Resource → Bool) → Resource → Got ClusterPod → Round
assign_node p accepts r absent = stop p (requeue_after 5)
assign_node p accepts r broken = stop p failed
assign_node p accepts r (got pod) =
    if (pod.node_name == "") || not (is_active pod.phase)
    then stop p (requeue_after 5)
    else let r' = with_node r pod.node_name in updating p (accepts r') r' (requeue_after 1)

-- A resource that is being deleted.
unfoldable pub finalize : Process → (Resource → Bool) → Resource → Round
unfolding contains_string remove_string
finalize p accepts r =
    let cleaned =
      if r.mckube.spec.pod_name == ""
      then p
      else record p { controller = cleanup_pod_state r.mckube.spec.pod_name p.controller } in
    let r' = record r { finalizers = remove_string r.finalizers mckube_finalizer } in
    if contains_string r.finalizers mckube_finalizer
    then updating cleaned (accepts r') r' done
    else stop p done

module _ (F : Type 0) ⦃fl : Float64 F⦄ (s : Sorter) (cluster : Cluster) (now : ℤ) where
  unfoldable pub process_active : (Resource → Bool) → Resource → Process → Round
  unfolding assign_node
  process_active accepts r p =
      if r.mckube.spec.pod_name == ""
      then stop p done
      else if r.mckube.spec.node == ""
      then assign_node p accepts r (cluster.get_pod r.mckube.namespace r.mckube.spec.pod_name)
      else let (after, effects, panics) =
          process_got F s cluster now (cluster.get_pod r.mckube.namespace r.mckube.spec.pod_name)
            r.mckube r.mckube.spec.rt_settings p in
        record {
          process = after;
          effects = effects;
          stored = none;
          queued = if panics then panicked else done;
        }

  abbrev pub reconcile_got : (Resource → Bool) → Got Resource → Process → Round
  reconcile_got accepts absent p = stop p done
  reconcile_got accepts broken p = stop p failed
  reconcile_got accepts (got r) p =
      if r.deleting
      then finalize p accepts r
      else if contains_string r.finalizers mckube_finalizer
      then process_active accepts r p
      else let r' = record r { finalizers = r.finalizers ++ mckube_finalizer ∷ [] } in
        updating p (accepts r') r' requeue

  -- Reconcile but for the pressure of the node, which comes last.
  unfoldable pub reconcile : (Resource → Bool) → Got Resource → Process → Round
  unfolding finalize process_active contains_string
  reconcile accepts answer p =
      reconcile_got accepts answer
        (record p { throttled_victims = cleanup_expired_throttled_victims now p.throttled_victims })
