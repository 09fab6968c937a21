-- ===== src/Controller/Upkeep.antt =====
-- internal/controller/mckube_controller.go: the accounts of the pools over any sequence of the calls
-- that enter a pod and clean up after one. What else Reconcile does with the pools, preemption and
-- the migration of its victims, is not among them.
use mc_kube.Prelude.{
  inl, inr, String, Bool, List, [], ◌∷◌, Option, none, some, string_eq, ◌==◌, Bool-cases,
}
use mc_kube.Prelude.Float.{Float64}
use mc_kube.Api.{RtSettings, Mckube}
use mc_kube.CpuPool.{default_num_cores}
use mc_kube.CpuPool.Accounting.{ArePoolsSound}
use mc_kube.CpuPool.Accounting.Bulk.{
  remove_pod_from_pool-ArePoolsSound, remove_pods_not_in-ArePoolsSound,
}
use mc_kube.CpuPool.Accounting.History.{update_pool-ArePoolsSound, get_or_create-ArePoolsSound}
use mc_kube.Controller.{ControllerState}
use mc_kube.Controller.PoolUpdate.{
  Pod, update_with_core, update_on_core, update_with_settings, update_cpu_pool_for_pod,
  cleanup_pod_state, cleanup_missing, ensure_pod_runtime_state_initialized, refresh_pool,
  pod_info_of,
}
use mc_kube.Controller.Registered.{refresh_pool-IsSound}

-- A call of updateCPUPoolForPod, of cleanupPodState, of the cleanup when a resource is deleted, of
-- ensurePodRuntimeStateInitialized.
pub data Upkeep : Type 0 where
  updates : Pod → Mckube → Upkeep
  deletes_pod : String → Upkeep
  deletes_cr : List (String × Bool) → Upkeep
  initializes : String → Upkeep

-- An update that fails leaves the state as it is.
abbrev pub or_same : ControllerState → Option ControllerState → ControllerState
or_same state none = state
or_same state (some after) = after

module _ (F : Type 0) ⦃fl : Float64 F⦄ where
  unfoldable pub attend : Upkeep → ControllerState → ControllerState
  attend (updates pod mckube) state = or_same state (update_cpu_pool_for_pod F pod mckube state)
  attend (deletes_pod name) state = cleanup_pod_state name state
  attend (deletes_cr existing_pods) state = cleanup_missing existing_pods state
  attend (initializes name) state = ensure_pod_runtime_state_initialized name state

  unfoldable pub attend_all : List Upkeep → ControllerState → ControllerState
  attend_all [] state = state
  attend_all (u ∷ us) state = attend_all us (attend u state)

  update_with_core-ArePoolsSound :
      (pod : Pod) (mckube : Mckube) (rt : RtSettings) (core : String) (state : ControllerState)
      → ArePoolsSound state.pools
      → ArePoolsSound (or_same state (update_with_core F pod mckube rt core state)).pools
  unfolding update_with_core
  update_with_core-ArePoolsSound pod mckube rt core state h =
      elim (Bool-cases (pod.node_name == "")) [
        | inl e ↦ rw e h
        | inr e ↦
            let pi = pod_info_of F state.pod_runtime_state pod mckube rt core in
            rw e (
              update_pool-ArePoolsSound pod.node_name (refresh_pool pi) _ (refresh_pool-IsSound pi)
                (get_or_create-ArePoolsSound pod.node_name default_num_cores state.pools h))
      ]

  update_on_core-ArePoolsSound :
      (pod : Pod) (mckube : Mckube) (rt : RtSettings) (core : Option String)
      (state : ControllerState)
      → ArePoolsSound state.pools
      → ArePoolsSound (or_same state (update_on_core F pod mckube rt core state)).pools
  update_on_core-ArePoolsSound pod mckube rt none state h = h
  update_on_core-ArePoolsSound pod mckube rt (some core) state h =
      update_with_core-ArePoolsSound pod mckube rt core state h

  update_with_settings-ArePoolsSound :
      (pod : Pod) (mckube : Mckube) (settings : Option RtSettings) (state : ControllerState)
      → ArePoolsSound state.pools
      → ArePoolsSound (or_same state (update_with_settings F pod mckube settings state)).pools
  update_with_settings-ArePoolsSound pod mckube none state h = h
  update_with_settings-ArePoolsSound pod mckube (some rt) state h =
      update_on_core-ArePoolsSound pod mckube rt rt.core state h

  attend-ArePoolsSound :
      (u : Upkeep) (state : ControllerState)
      → ArePoolsSound state.pools
      → ArePoolsSound (attend u state).pools
  unfolding attend update_cpu_pool_for_pod cleanup_pod_state cleanup_missing
      ensure_pod_runtime_state_initialized
  attend-ArePoolsSound (updates pod mckube) state h =
      update_with_settings-ArePoolsSound pod mckube mckube.spec.rt_settings state h
  attend-ArePoolsSound (deletes_pod name) state h =
      remove_pod_from_pool-ArePoolsSound name state.pools h
  attend-ArePoolsSound (deletes_cr existing_pods) state h =
      remove_pods_not_in-ArePoolsSound existing_pods state.pools h
  attend-ArePoolsSound (initializes name) state h = h

  -- Whatever pods are entered by updateCPUPoolForPod, deleted, found missing or seen for the first
  -- time, in any order and with no preemption between, from pools whose accounts are right: the
  -- accounts stay right.
  pub attend_all-ArePoolsSound :
      (us : List Upkeep) (state : ControllerState)
      → ArePoolsSound state.pools
      → ArePoolsSound (attend_all us state).pools
  unfolding attend_all
  attend_all-ArePoolsSound [] state h = h
  attend_all-ArePoolsSound (u ∷ us) state h =
      attend_all-ArePoolsSound us (attend u state) (attend-ArePoolsSound u state h)
