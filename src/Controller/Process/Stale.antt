-- ===== src/Controller/Process/Stale.antt =====
-- internal/controller/mckube_controller.go: Reconcile looks for the pod on its allocated core, and
-- updateCPUPoolForPod enters it on the cores of its settings.
use mc_kube.Prelude.{
  ◌≡◌, refl, sym, ap, subst, ◌∙◌, inl, inr, String, true, false, List, [], ◌∷◌, some, All, lookup,
  string_eq, int_eq, ◌==◌, ℤ, Bool-cases,
}
use mc_kube.Prelude.Float.{Float64}
use mc_kube.Prelude.Sort.{Sorter}
use mc_kube.Api.{RtSettings, Mckube}
use mc_kube.CpuPool.{PodInfo, CpuPool, Pools}
use mc_kube.CpuPool.Store.{get_or_create_cpu_pool, update_pool, remove_pod_from_core}
use mc_kube.CpuPool.Accounting.History.{register_pod}
use mc_kube.CpuPool.CoreSet.{code_points, parse_core_set}
use mc_kube.Controller.{ControllerState}
use mc_kube.Controller.PoolUpdate.{
  needs_update, register_all, refresh_pool, pod_info_of, update_with_core, update_on_core,
  update_with_settings, update_cpu_pool_for_pod,
}
use mc_kube.Controller.Registered.{lookup-add_pod_to_core, lookup-remove_pod_from_core}
use mc_kube.Controller.Cluster.{ClusterPod, pod_of, Cluster}
use mc_kube.Controller.Upkeep.{or_same}
use mc_kube.Controller.Process.{Process, with_pool}

IsOther : ℤ → ℤ → Type 0
IsOther d c = (c == d) ≡ false

abbrev pub AreOther : ℤ → List ℤ → Type 0
AreOther d cores = All (λ c. (c == d) ≡ false) cores

register_all-elsewhere :
    (pi : PodInfo) (d : ℤ) (core_set : List ℤ) (p : CpuPool)
    → AreOther d core_set
    → lookup d (register_all pi core_set p).cores ≡ lookup d p.cores
unfolding register_all register_pod
register_all-elsewhere pi d [] p h = refl
register_all-elsewhere pi d (c ∷ core_set) p h =
    register_all-elsewhere pi d core_set (register_pod c pi p) h.1
    ∙ lookup-add_pod_to_core pi (remove_pod_from_core c pi.name p) c d h.0
    ∙ lookup-remove_pod_from_core pi.name p c d h.0

refresh_pool-elsewhere :
    (pi : PodInfo) (d : ℤ) (p : CpuPool)
    → AreOther d pi.core_set
    → lookup d (refresh_pool pi p).cores ≡ lookup d p.cores
unfolding refresh_pool
refresh_pool-elsewhere pi d p h = elim (Bool-cases (needs_update pi p pi.core_set)) [
  | inl stale ↦ rw stale (register_all-elsewhere pi d pi.core_set p h)
  | inr fresh ↦ rw fresh refl
]

pub lookup-update_pool :
    (node : String) (f : CpuPool → CpuPool) (pools : Pools) (pool : CpuPool)
    → lookup node pools ≡ some pool
    → lookup node (update_pool node f pools) ≡ some (f pool)
unfolding lookup update_pool
lookup-update_pool node f [] pool e = absurd (cc)
lookup-update_pool node f ((n, p) ∷ pools) pool e = elim (Bool-cases (n == node)) [
  | inl hit ↦
      let found = rw hit at e in
      let same : p ≡ pool = cc found in rw hit (ap (λ x. some (f x)) same)
  | inr miss ↦ let found = rw miss at e in rw miss (lookup-update_pool node f pools pool found)
]

-- The pool of the node afterwards, with the core as it was.
abbrev pub KeepsCore : String → ℤ → CpuPool → ControllerState → Type 0
KeepsCore node d pool after =
    (pool' : CpuPool) × (lookup node after.pools ≡ some pool')
    × (lookup d pool'.cores ≡ lookup d pool.cores)

module _ (F : Type 0) ⦃fl : Float64 F⦄ (s : Sorter) (cluster : Cluster) (now : ℤ) where
  update_with_core-KeepsCore :
      (pod : ClusterPod) (cr : Mckube) (rt : RtSettings) (core : String) (d : ℤ) (pool : CpuPool)
      (state : ControllerState)
      → lookup pod.node_name state.pools ≡ some pool
      → AreOther d (parse_core_set (code_points core))
      → KeepsCore pod.node_name d pool
          (or_same state (update_with_core F (pod_of pod) cr rt core state))
  unfolding update_with_core get_or_create_cpu_pool
  update_with_core-KeepsCore pod cr rt core d pool state e others =
      elim (Bool-cases (pod.node_name == "")) [
        | inl nowhere ↦ rw nowhere (pool, e, refl)
        | inr somewhere ↦
            let pi = pod_info_of F state.pod_runtime_state (pod_of pod) cr rt core in
            rw (somewhere, e, get_or_create_cpu_pool)
              (
                refresh_pool pi pool,
                lookup-update_pool pod.node_name (refresh_pool pi) state.pools pool e,
                refresh_pool-elsewhere pi d pool others,
              )
      ]

  -- updateCPUPoolForPod leaves a core that is not among those of the settings as it is. Where the
  -- allocated core is such a one, as after a migration, and the pod's entry there is not the wanted
  -- one, it is not afterwards, so the next Reconcile checks for preemption once more.
  pub with_pool-KeepsStale :
      (pod : ClusterPod) (cr : Mckube) (rt : RtSettings) (core : String) (d : ℤ) (pool : CpuPool)
      (p : Process) (pi : PodInfo)
      → cr.spec.rt_settings ≡ some rt
      → rt.core ≡ some core
      → lookup pod.node_name p.controller.pools ≡ some pool
      → AreOther d (parse_core_set (code_points core))
      → needs_update pi pool (d ∷ []) ≡ true
      → (pool' : CpuPool) × (lookup pod.node_name
            (with_pool F s cluster now pod cr p).controller.pools
          ≡ some pool')
        × (needs_update pi pool' (d ∷ []) ≡ true)
  unfolding update_cpu_pool_for_pod needs_update
  with_pool-KeepsStale pod cr rt core d pool p pi settled cored there others stale =
      let (pool', found, kept) =
        subst
          (λ settings.
            KeepsCore pod.node_name d pool
              (or_same p.controller (update_with_settings F (pod_of pod) cr settings p.controller)))
          (sym settled)
          (subst
            (λ c.
              KeepsCore pod.node_name d pool
                (or_same p.controller (update_on_core F (pod_of pod) cr rt c p.controller)))
            (sym cored)
            (update_with_core-KeepsCore pod cr rt core d pool p.controller there others)) in
      (pool', found, rw kept stale)
