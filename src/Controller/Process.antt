-- ===== src/Controller/Process.antt =====
-- internal/controller/mckube_controller.go: the part of Reconcile that enters a pod into the pool of its
-- node, with the preemption before and the requests to its containers after.
pub mod Stale
pub mod Cored
use mc_kube.Prelude.{
  ℕ, String, Bool, true, false, not, ◌||◌, ◌&&◌, List, [], ◌∷◌, ◌++◌, Option, none, some, any,
  filter, lookup, insert, string_eq, ◌==◌, ℤ, if◌then◌else◌,
}
use mathlib.Core.Option
use mc_kube.Prelude.Float.{Float64}
use mc_kube.Prelude.Sort.{Sorter}
use mc_kube.Api.{RtSettings, Mckube}
use mc_kube.CpuPool.{PodInfo, CpuPool, Pools, default_num_cores}
use mc_kube.CpuPool.Store.{get_or_create_cpu_pool, get_pool_for_node, update_pool}
use mc_kube.CpuPool.CoreSet.{code_points, parse_core_set}
use mc_kube.Webhook.Validator.{or_empty}
use mc_kube.Ipvs.{NodePressureState}
use mc_kube.Ipvs.Pressure.{Request}
use mc_kube.Ipvs.Node.{Outcome}
use mc_kube.Ipvs.Events.{ann_cpu_busy_key, ann_text, same_text}
use mc_kube.Controller.{ControllerState}
use mc_kube.Controller.PoolUpdate.{
  effective_runtime, cpu_millis_of, needs_update, update_cpu_pool_for_pod, cleanup_pod_state,
  ensure_pod_runtime_state_initialized, pod_info_of,
}
use mc_kube.Controller.Runtime.{CgroupRequest, RunningPod, RuntimeState, handle_cpu_recovery}
use mc_kube.Controller.Upkeep.{or_same}
use mc_kube.Controller.Throttle.{cleanup_expired_throttled_victims, is_victim_throttled}
use mc_kube.Controller.Cluster.{
  Phase, pending, running, ended, ClusterPod, pod_of, Effect, asks, reports, Got, got, absent,
  broken, Cluster,
}
use mc_kube.Controller.Preempt.{Preemption, preempt_cores, with_allocated}

-- The state of the process but for that of the monitor.
pub record Process : Type 0 where
  pub controller : ControllerState
  pub throttled_victims : List (String × ℤ)

abbrev pub is_active : Phase → Bool
is_active pending = true
is_active running = true
is_active ended = false

abbrev pub is_running : Phase → Bool
is_running running = true
is_running pending = false
is_running ended = false

abbrev pub names_core : Option String → Bool
names_core none = false
names_core (some core) = true

module _ (F : Type 0) ⦃fl : Float64 F⦄ (s : Sorter) (cluster : Cluster) (now : ℤ) where
  -- checkAndPreemptForPod, whose error its caller only logs: without a node or a pool of it nothing
  -- happens. The pool is written through its pointer.
  abbrev pub preempt_in :
      String → Option CpuPool → ℤ → String → List ℤ → Process → Process × List Effect
  preempt_in node_name none cpu_millis criticality cores p = (p, [])
  preempt_in node_name (some pool) cpu_millis criticality cores p =
      let (after, effects) =
        preempt_cores F cluster s cpu_millis criticality cores
          (record { pool = pool; throttled_victims = p.throttled_victims }) in
      (
        record {
          controller = record p.controller {
            pools = update_pool node_name (λ old. after.pool) p.controller.pools;
          };
          throttled_victims = after.throttled_victims;
        },
        effects,
      )

  unfoldable pub check_and_preempt_for_pod :
      ClusterPod → List ℤ → ℤ → String → Process → Process × List Effect
  unfolding get_pool_for_node
  check_and_preempt_for_pod pod cores cpu_millis criticality p =
      if pod.node_name == ""
      then (p, [])
      else preempt_in pod.node_name (get_pool_for_node pod.node_name p.controller.pools) cpu_millis
          criticality cores p

  abbrev pub with_pool : ClusterPod → Mckube → Process → Process
  with_pool pod cr p = record p {
    controller = or_same p.controller (update_cpu_pool_for_pod F (pod_of pod) cr p.controller);
  }

  -- `rt.Status.AllocatedCore`, or the core of the settings, which is then reported as allocated.
  abbrev pub actual_core : Mckube → String → String
  actual_core cr core = if cr.status.allocated_core == "" then core else cr.status.allocated_core

  abbrev pub allocated_cr : Mckube → String → Mckube
  allocated_cr cr core =
      if cr.status.allocated_core == "" then with_allocated cluster cr core else cr

  abbrev pub report_core : ClusterPod → Mckube → String → List Effect
  report_core pod cr core =
      if cr.status.allocated_core == ""
      then reports pod (with_allocated cluster cr core) ∷ []
      else []

  -- What Reconcile compares with the entries of the pool.
  abbrev pub wanted : ClusterPod → Mckube → RtSettings → String → Process → PodInfo
  wanted pod cr rt core p =
      pod_info_of F p.controller.pod_runtime_state (pod_of pod) cr rt (actual_core cr core)

  -- Without preemption if the pod stands on its cores as it should.
  unfoldable pub enter_with_core :
      ClusterPod → Mckube → RtSettings → String → Process → Process × List Effect
  unfolding check_and_preempt_for_pod get_or_create_cpu_pool
  enter_with_core pod cr rt core p =
      let pi = wanted pod cr rt core p in
      let opened = get_or_create_cpu_pool pod.node_name default_num_cores p.controller.pools in
      let p1 = record p { controller = record p.controller { pools = opened.1 } } in
      let preempted = check_and_preempt_for_pod pod pi.core_set pi.cpu_millis pi.criticality p1 in
      if needs_update pi opened.0 pi.core_set
      then (
        with_pool pod (allocated_cr cr core) preempted.0,
        report_core pod cr core ++ preempted.1,
      )
      else (p1, report_core pod cr core)

  abbrev pub enter_pod :
      ClusterPod → Mckube → RtSettings → Option String → Process → Process × List Effect
  enter_pod pod cr rt none p = (with_pool pod cr p, [])
  enter_pod pod cr rt (some core) p = enter_with_core pod cr rt core p

  abbrev pub container_request : Mckube → RtSettings → ℤ → String → CgroupRequest
  container_request cr rt runtime id = record {
    container_id = id;
    period = rt.period;
    runtime = runtime;
    core = if cr.status.allocated_core == "" then rt.core else some cr.status.allocated_core;
    only_runtime = false;
  }

  -- Up to the first request that is refused. With what is sent, whether it panics: once a request
  -- was sent, taken or not, `*coreToUse` is read for the log, and that pointer is nil where neither
  -- the settings nor the status name a core.
  unfoldable pub apply_to_containers :
      ClusterPod → Mckube → RtSettings → ℤ → List String → List Effect × Bool
  apply_to_containers pod cr rt runtime [] = ([], false)
  apply_to_containers pod cr rt runtime (id ∷ ids) =
      let (rest, panics) = apply_to_containers pod cr rt runtime ids in
      let req = container_request cr rt runtime id in
      if id == ""
      then (rest, panics)
      else if names_core req.core
      then if cluster.sends pod.host_ip req
        then (asks pod req ∷ rest, panics)
        else (asks pod req ∷ [], false)
      else (asks pod req ∷ [], true)

  unfoldable pub apply_rt_settings_to_containers :
      ClusterPod → Mckube → RtSettings → Process → List Effect × Bool
  unfolding apply_to_containers is_victim_throttled
  apply_rt_settings_to_containers pod cr rt p =
      if not (pod.uid == "") && is_victim_throttled now pod.uid p.throttled_victims
      then ([], false)
      else if pod.host_ip == ""
      then ([], false)
      else apply_to_containers pod cr rt
          (effective_runtime p.controller.pod_runtime_state pod.name rt) pod.container_ids

  -- The pod and its resource in Pending or Running, on a node. The last component says whether it
  -- panics.
  unfoldable pub process_pod :
      ClusterPod → Mckube → RtSettings → Process → Process × List Effect × Bool
  unfolding enter_with_core apply_rt_settings_to_containers
  process_pod pod cr rt p =
      let p1 = record p {
        controller = ensure_pod_runtime_state_initialized pod.name p.controller;
      } in
      let entered = enter_pod pod cr rt rt.core p1 in
      let reported : Mckube = elim rt.core [ none ↦ cr | some core ↦ allocated_cr cr core ] in
      let applied =
        if is_running pod.phase && not pod.deleting
        then apply_rt_settings_to_containers pod reported rt entered.0
        else ([], false) in
      if not (pod.node_name == "") && is_active pod.phase
      then (entered.0, entered.1 ++ applied.0, applied.1)
      else (p, [], false)

  abbrev pub process_got :
      Got ClusterPod → Mckube → Option RtSettings → Process → Process × List Effect × Bool
  process_got answer cr none p = (p, [], false)
  process_got absent cr (some rt) p = (p, [], false)
  process_got broken cr (some rt) p = (p, [], false)
  process_got (got pod) cr (some rt) p = process_pod pod cr rt p
