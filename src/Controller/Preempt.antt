-- ===== src/Controller/Preempt.antt =====
-- internal/controller/mckube_controller.go: checkAndPreemptForPod, preemptPod,
-- throttlePodRuntimeBeforeEviction and updatePodCoreAffinity. Each gives what it sends, in order.
pub mod Subject
pub mod Standing
pub mod Lower
pub mod Placed
pub mod Keeping
use mc_kube.Prelude.{
  String, Bool, true, false, not, List, [], ◌∷◌, ◌++◌, ◌&&◌, Option, none, some, lookup, string_eq,
  ◌==◌, ℤ, pos, if◌then◌else◌,
}
use mc_kube.Prelude.Float.{Float64, millis}
use mc_kube.Prelude.Sort.{Sorter}
use mc_kube.Api.{RtSettings, Mckube}
use mc_kube.CpuPool.{PodInfo, CpuPool, Pools}
use mc_kube.CpuPool.Store.{get_core_utilization}
use mc_kube.CpuPool.Victims.{select_minimum_victims}
use mc_kube.CpuPool.CoreSet.Sprint.{sprint}
use mc_kube.Controller.Runtime.{CgroupRequest, target_of}
use mc_kube.Controller.Preemption.{find_preemption_victims, find_migration_target_core, migrate}
use mc_kube.Controller.Throttle.{mark_throttled_victim}
use mc_kube.Controller.Cluster.{
  ClusterPod, Effect, asks, reports, labels, evicts, Got, got, absent, broken, Cluster,
}

-- `minAllowedDLRuntimeUS`
abbrev pub min_allowed_dl_runtime_us : ℤ
min_allowed_dl_runtime_us = pos 2

-- The resource that names the pod, with its settings, if the listing succeeds and has one.
abbrev pub settings_of : Mckube → Option RtSettings → Option (Mckube × RtSettings)
settings_of cr none = none
settings_of cr (some rt) = some (cr, rt)

abbrev pub target_settings : Option Mckube → Option (Mckube × RtSettings)
target_settings none = none
target_settings (some cr) = settings_of cr cr.spec.rt_settings

module _ (cluster : Cluster) where
  abbrev pub throttle_request : RtSettings → String → CgroupRequest
  throttle_request rt id = record {
    container_id = id;
    period = rt.period;
    runtime = min_allowed_dl_runtime_us;
    core = rt.core;
    only_runtime = true;
  }

  -- `throttlingAppliedAt`: the time of the first request that was accepted.
  abbrev pub first_of : Option ℤ → ℤ → Option ℤ
  first_of none now = some now
  first_of (some earlier) now = some earlier

  -- The loop over the containers, with the time of the first success so far.
  unfoldable pub throttle_containers :
      ClusterPod → RtSettings → Option ℤ → List String → Option ℤ × List Effect
  throttle_containers pod rt applied_at [] = (applied_at, [])
  throttle_containers pod rt applied_at (id ∷ ids) =
      let req = throttle_request rt id in
      let accepted = not (id == "") && cluster.sends pod.host_ip req in
      let (at_time, effects) =
        throttle_containers pod rt
          (if accepted then first_of applied_at (cluster.answered_at id) else applied_at) ids in
      (at_time, if id == "" then effects else asks pod req ∷ effects)

  abbrev pub mark_if_applied : ClusterPod → Option ℤ → List (String × ℤ) → List (String × ℤ)
  mark_if_applied pod none victims = victims
  mark_if_applied pod (some at_time) victims =
      if pod.uid == "" then victims else mark_throttled_victim pod.uid at_time victims

  abbrev pub throttle_target :
      ClusterPod
      → Option (Mckube × RtSettings)
      → List (String × ℤ)
      → List (String × ℤ) × List Effect
  throttle_target pod none victims = (victims, [])
  throttle_target pod (some (cr, rt)) victims =
      if pod.host_ip == ""
      then (victims, [])
      else let (applied_at, effects) = throttle_containers pod rt none pod.container_ids in
        (mark_if_applied pod applied_at victims, effects)

  -- The marks afterwards. Its caller only logs an error.
  abbrev pub throttle_listed :
      ClusterPod → Option (List Mckube) → List (String × ℤ) → List (String × ℤ) × List Effect
  throttle_listed pod none victims = (victims, [])
  throttle_listed pod (some items) victims =
      throttle_target pod (target_settings (target_of pod.name items)) victims

  unfoldable pub throttle_pod_runtime_before_eviction :
      ClusterPod → List (String × ℤ) → List (String × ℤ) × List Effect
  unfolding throttle_containers
  throttle_pod_runtime_before_eviction pod victims =
      throttle_listed pod (cluster.list_mckubes pod.namespace) victims

  abbrev pub core_request : RtSettings → String → String → CgroupRequest
  core_request rt core id = record {
    container_id = id;
    period = rt.period;
    runtime = rt.runtime_low;
    core = some core;
    only_runtime = false;
  }

  unfoldable pub core_requests : ClusterPod → RtSettings → String → List String → List Effect
  core_requests pod rt core [] = []
  core_requests pod rt core (id ∷ ids) =
      let rest = core_requests pod rt core ids in
      if id == "" then rest else asks pod (core_request rt core id) ∷ rest

  abbrev pub with_allocated : Mckube → String → Mckube
  with_allocated cr core = record cr { status = record cr.status { allocated_core = core } }

  -- Whether there was no error, and what was sent.
  abbrev pub move_target : ClusterPod → String → Option (Mckube × RtSettings) → Bool × List Effect
  move_target pod core none = (true, [])
  move_target pod core (some (cr, rt)) =
      let reported = with_allocated cr core in
      if cluster.accepts_status reported
      then if pod.host_ip == ""
        then (false, reports pod reported ∷ [])
        else (true, reports pod reported ∷ core_requests pod rt core pod.container_ids)
      else (false, reports pod reported ∷ [])

  abbrev pub move_listed : ClusterPod → String → Option (List Mckube) → Bool × List Effect
  move_listed pod core none = (false, [])
  move_listed pod core (some items) =
      move_target pod core (target_settings (target_of pod.name items))

  unfoldable pub update_pod_core_affinity : ClusterPod → ℤ → Bool × List Effect
  unfolding core_requests
  update_pod_core_affinity pod new_core =
      move_listed pod (sprint new_core) (cluster.list_mckubes pod.namespace)

-- What a preemption changes: the pool of the node and the marks of throttled victims.
pub record Preemption : Type 0 where
  pub pool : CpuPool
  pub throttled_victims : List (String × ℤ)

module _ (F : Type 0) ⦃fl : Float64 F⦄ (cluster : Cluster) where
  -- The pool is changed before the new core is known to the API server, and stays so.
  abbrev pub preempt_to :
      ClusterPod → PodInfo → ℤ → Option ℤ → Preemption → Preemption × List Effect
  preempt_to pod victim current_core (some new_core) p = (
    record p { pool = migrate victim current_core new_core p.pool },
    (update_pod_core_affinity cluster pod new_core).1,
  )
  preempt_to pod victim current_core none p =
      let (victims, throttles) =
        throttle_pod_runtime_before_eviction cluster pod p.throttled_victims in
      (record p { throttled_victims = victims }, throttles ++ labels pod ∷ evicts pod ∷ [])

  abbrev pub preempt_got : PodInfo → ℤ → Got ClusterPod → Preemption → Preemption × List Effect
  preempt_got victim current_core absent p = (p, [])
  preempt_got victim current_core broken p = (p, [])
  preempt_got victim current_core (got pod) p =
      preempt_to pod victim current_core
        (find_migration_target_core F p.pool current_core victim.cpu_millis) p

  unfoldable pub preempt_pod : PodInfo → ℤ → Preemption → Preemption × List Effect
  preempt_pod victim current_core p =
      preempt_got victim current_core (cluster.get_pod victim.namespace victim.name) p

  -- An error of one victim does not keep the next from its turn.
  unfoldable pub preempt_all : ℤ → List PodInfo → Preemption → Preemption × List Effect
  preempt_all core_id [] p = (p, [])
  preempt_all core_id (victim ∷ victims) p =
      let (p1, first) = preempt_pod victim core_id p in
      let (p2, rest) = preempt_all core_id victims p1 in (p2, first ++ rest)

  module _ (s : Sorter) (cpu_millis : ℤ) (criticality : String) where
    abbrev pub after_usage : CpuPool → ℤ → F
    after_usage pool core_id = fl.add (get_core_utilization pool core_id) (millis cpu_millis)

    abbrev pub select_if_any : F → List PodInfo → List PodInfo
    select_if_any needed [] = []
    select_if_any needed (c ∷ cs) = select_minimum_victims s (c ∷ cs) needed

    -- The victims on a core; none where it is not overloaded or has no candidate.
    unfoldable pub victims_on : CpuPool → ℤ → List PodInfo
    unfolding get_core_utilization
    victims_on pool core_id =
        if fl.lt (fl.decimal 9 1) (after_usage pool core_id)
        then select_if_any (fl.sub (after_usage pool core_id) (fl.decimal 9 1))
            (find_preemption_victims pool core_id criticality)
        else []

    unfoldable pub preempt_cores : List ℤ → Preemption → Preemption × List Effect
    unfolding preempt_all victims_on
    preempt_cores [] p = (p, [])
    preempt_cores (core_id ∷ cores) p =
        let (p1, first) = preempt_all core_id (victims_on p.pool core_id) p in
        let (p2, rest) = preempt_cores cores p1 in (p2, first ++ rest)
