-- ===== src/Controller/PoolUpdate.antt =====
-- internal/controller/mckube_controller.go: updateCPUPoolForPod, cleanupPodState,
-- cleanupPodStateByMcKubeName and ensurePodRuntimeStateInitialized.
use mc_kube.Prelude.{
  String, Bool, true, ◌||◌, not, List, [], ◌∷◌, Option, none, some, is_some, any, filter, lookup,
  insert, delete, string_eq, int_eq, ◌==◌, ℤ, pos, ltb_ℤ, if◌then◌else◌,
}
use mc_kube.Prelude.Float.{Float64}
use mc_kube.Api.{RtSettings, Mckube}
use mc_kube.CpuPool.{PodInfo, CpuCoreInfo, CpuPool, default_num_cores}
use mc_kube.CpuPool.Store.{
  get_or_create_cpu_pool, update_pool, remove_pod_from_pool, remove_pods_not_in, exists_pod,
}
use mc_kube.CpuPool.Accounting.History.{register_pod}
use mc_kube.CpuPool.CoreSet.{code_points, parse_core_set}
use mc_kube.Webhook.Validator.{or_empty}
use mc_kube.Controller.{ControllerState}

-- What the update reads of a `corev1.Pod`.
pub record Pod : Type 0 where
  pub name : String
  pub namespace : String
  pub node_name : String

-- A state that is missing reads as the empty text.
unfoldable pub effective_runtime : List (String × String) → String → RtSettings → ℤ
effective_runtime states pod_name rt =
    if or_empty (lookup pod_name states) == "hi" then rt.runtime_hi else rt.runtime_low

module _ (F : Type 0) ⦃fl : Float64 F⦄ where
  unfoldable pub cpu_millis_of : ℤ → ℤ → ℤ
  cpu_millis_of runtime period =
      let share =
        if ltb_ℤ (pos 0) period
        then fl.to_int (fl.mul (fl.div (fl.of_int runtime) (fl.of_int period)) (fl.decimal 1000 0))
        else pos 0 in
      if share == pos 0 then pos 100 else share

-- The entry of the pod on the core says something else.
unfoldable pub is_stale : PodInfo → Option CpuCoreInfo → Bool
is_stale pi none = true
is_stale pi (some core) = elim (lookup pi.name core.pods) [
  | none ↦ true
  | some old ↦ not (old.cpu_millis == pi.cpu_millis) || not (old.criticality == pi.criticality)
]

unfoldable pub needs_update : PodInfo → CpuPool → List ℤ → Bool
unfolding is_stale
needs_update pi pool core_set = any (λ core_id. is_stale pi (lookup core_id pool.cores)) core_set

unfoldable pub register_all : PodInfo → List ℤ → CpuPool → CpuPool
register_all pi [] pool = pool
register_all pi (core_id ∷ core_set) pool = register_all pi core_set (register_pod core_id pi pool)

-- The update of the pool that has been fetched.
unfoldable pub refresh_pool : PodInfo → CpuPool → CpuPool
unfolding needs_update register_all
refresh_pool pi pool =
    if needs_update pi pool pi.core_set then register_all pi pi.core_set pool else pool

module _ (F : Type 0) ⦃fl : Float64 F⦄ where
  abbrev pub pod_info_of : List (String × String) → Pod → Mckube → RtSettings → String → PodInfo
  pod_info_of states pod mckube rt core = record {
    name = pod.name;
    namespace = pod.namespace;
    criticality = mckube.spec.criticality;
    cpu_millis = cpu_millis_of F (effective_runtime states pod.name rt) rt.period;
    core_set = parse_core_set (code_points core);
  }

  -- No result where the pod has no node.
  unfoldable pub update_with_core :
      Pod → Mckube → RtSettings → String → ControllerState → Option ControllerState
  unfolding refresh_pool get_or_create_cpu_pool
  update_with_core pod mckube rt core state =
      if pod.node_name == ""
      then none
      else let pools = (get_or_create_cpu_pool pod.node_name default_num_cores state.pools).1 in
        let pi = pod_info_of state.pod_runtime_state pod mckube rt core in
        some (record state { pools = update_pool pod.node_name (refresh_pool pi) pools })

  abbrev pub update_on_core :
      Pod → Mckube → RtSettings → Option String → ControllerState → Option ControllerState
  update_on_core pod mckube rt none state = some state
  update_on_core pod mckube rt (some core) state = update_with_core pod mckube rt core state

  abbrev pub update_with_settings :
      Pod → Mckube → Option RtSettings → ControllerState → Option ControllerState
  update_with_settings pod mckube none state = some state
  update_with_settings pod mckube (some rt) state = update_on_core pod mckube rt rt.core state

  unfoldable pub update_cpu_pool_for_pod : Pod → Mckube → ControllerState → Option ControllerState
  update_cpu_pool_for_pod pod mckube state =
      update_with_settings pod mckube mckube.spec.rt_settings state

unfoldable pub cleanup_pod_state : String → ControllerState → ControllerState
cleanup_pod_state pod_name state = record state {
  pod_runtime_state = delete pod_name state.pod_runtime_state;
  pools = (remove_pod_from_pool pod_name state.pools).0;
}

-- On the pods of the namespace that have an app label.
unfoldable pub cleanup_missing : List (String × Bool) → ControllerState → ControllerState
cleanup_missing existing_pods state = record state {
  pod_runtime_state = filter (λ entry. exists_pod existing_pods entry.0) state.pod_runtime_state;
  pools = remove_pods_not_in existing_pods state.pools;
}

unfoldable pub ensure_pod_runtime_state_initialized : String → ControllerState → ControllerState
ensure_pod_runtime_state_initialized pod_name state = record state {
  pod_runtime_state =
      if is_some (lookup pod_name state.pod_runtime_state)
      then state.pod_runtime_state
      else insert pod_name "low" state.pod_runtime_state;
}
