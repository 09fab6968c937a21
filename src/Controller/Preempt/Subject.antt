-- ===== src/Controller/Preempt/Subject.antt =====
-- internal/controller/mckube_controller.go: the pod that preemptPod sends something for.
use mc_kube.Prelude.{
  int_eq, ◌≡◌, refl, inl, inr, String, List, [], ◌∷◌, Option, none, some, All, All-append,
  string_eq, ◌==◌, ℤ, Bool-cases,
}
use mc_kube.Prelude.Float.{Float64}
use mc_kube.Api.{RtSettings, Mckube}
use mc_kube.CpuPool.{PodInfo}
use mc_kube.Controller.Runtime.{target_of}
use mc_kube.Controller.Cluster.{ClusterPod, Effect, asks, reports, labels, evicts, Cluster}
use mc_kube.Controller.Preempt.{
  target_settings, throttle_containers, throttle_target, throttle_listed,
  throttle_pod_runtime_before_eviction, core_requests, move_target, move_listed, with_allocated,
  update_pod_core_affinity, Preemption, preempt_to,
}

-- The pod that something is sent for.
abbrev pub subject : Effect → ClusterPod
subject (asks pod req) = pod
subject (reports pod cr) = pod
subject (labels pod) = pod
subject (evicts pod) = pod

abbrev pub IsFor : ClusterPod → Effect → Type 0
IsFor pod effect = subject effect ≡ pod

module _ (cluster : Cluster) where
  throttle_containers-IsFor :
      (pod : ClusterPod) (rt : RtSettings) (ids : List String) (applied_at : Option ℤ)
      → All (IsFor pod) (throttle_containers cluster pod rt applied_at ids).1
  unfolding throttle_containers
  throttle_containers-IsFor pod rt [] applied_at = tt
  throttle_containers-IsFor pod rt (id ∷ ids) applied_at = elim (Bool-cases (id == "")) [
    | inl e ↦ rw e (throttle_containers-IsFor pod rt ids applied_at)
    | inr e ↦ rw e (refl, throttle_containers-IsFor pod rt ids _)
  ]

  throttle_target-IsFor :
      (pod : ClusterPod) (target : Option (Mckube × RtSettings)) (victims : List (String × ℤ))
      → All (IsFor pod) (throttle_target cluster pod target victims).1
  throttle_target-IsFor pod none victims = tt
  throttle_target-IsFor pod (some (cr, rt)) victims = elim (Bool-cases (pod.host_ip == "")) [
    | inl e ↦ rw e tt
    | inr e ↦ rw e (throttle_containers-IsFor pod rt pod.container_ids none)
  ]

  throttle_listed-IsFor :
      (pod : ClusterPod) (answer : Option (List Mckube)) (victims : List (String × ℤ))
      → All (IsFor pod) (throttle_listed cluster pod answer victims).1
  throttle_listed-IsFor pod none victims = tt
  throttle_listed-IsFor pod (some items) victims =
      throttle_target-IsFor pod (target_settings (target_of pod.name items)) victims

  core_requests-IsFor :
      (pod : ClusterPod) (rt : RtSettings) (core : String) (ids : List String)
      → All (IsFor pod) (core_requests cluster pod rt core ids)
  unfolding core_requests
  core_requests-IsFor pod rt core [] = tt
  core_requests-IsFor pod rt core (id ∷ ids) = elim (Bool-cases (id == "")) [
    | inl e ↦ rw e (core_requests-IsFor pod rt core ids)
    | inr e ↦ rw e (refl, core_requests-IsFor pod rt core ids)
  ]

  move_target-IsFor :
      (pod : ClusterPod) (core : String) (target : Option (Mckube × RtSettings))
      → All (IsFor pod) (move_target cluster pod core target).1
  move_target-IsFor pod core none = tt
  move_target-IsFor pod core (some (cr, rt)) =
      elim (Bool-cases (cluster.accepts_status (with_allocated cluster cr core))) [
        | inr e ↦ rw e (refl, tt)
        | inl e ↦ elim (Bool-cases (pod.host_ip == "")) [
          | inl f ↦ rw (e, f) (refl, tt)
          | inr f ↦ rw (e, f) (refl, core_requests-IsFor pod rt core pod.container_ids)
        ]
      ]

  move_listed-IsFor :
      (pod : ClusterPod) (core : String) (answer : Option (List Mckube))
      → All (IsFor pod) (move_listed cluster pod core answer).1
  move_listed-IsFor pod core none = tt
  move_listed-IsFor pod core (some items) =
      move_target-IsFor pod core (target_settings (target_of pod.name items))

module _ (F : Type 0) ⦃fl : Float64 F⦄ (cluster : Cluster) where
  pub preempt_to-IsFor :
      (pod : ClusterPod) (victim : PodInfo) (current_core : ℤ) (target : Option ℤ) (p : Preemption)
      → All (IsFor pod) (preempt_to F cluster pod victim current_core target p).1
  unfolding update_pod_core_affinity throttle_pod_runtime_before_eviction
  preempt_to-IsFor pod victim current_core (some new_core) p =
      move_listed-IsFor cluster pod _ (cluster.list_mckubes pod.namespace)
  preempt_to-IsFor pod victim current_core none p =
      All-append (IsFor pod)
        (throttle_pod_runtime_before_eviction cluster pod p.throttled_victims).1
        (labels pod ∷ evicts pod ∷ [])
        (throttle_listed-IsFor cluster pod (cluster.list_mckubes pod.namespace) p.throttled_victims)
        (refl, (refl, tt))
