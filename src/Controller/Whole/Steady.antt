-- ===== src/Controller/Whole/Steady.antt =====
-- internal/controller/mckube_controller.go: Reconcile comes to rest once a pod stands on its cores.
use mc_kube.Prelude.{
  ◌≡◌, refl, sym, ap, subst, ◌∙◌, inl, inr, String, true, false, List, [], ◌∷◌, some, All, lookup,
  string_eq, int_eq, ◌==◌, ℤ, ℕ, Bool-cases, Option-cases, arith, lookup-insert_self,
}
use mc_kube.Prelude.Float.{Float64}
use mc_kube.Prelude.Sort.{Sorter}
use mc_kube.Api.{RtSettings, Mckube}
use mc_kube.CpuPool.{PodInfo, CpuCoreInfo, CpuPool, Pools, default_num_cores}
use mc_kube.CpuPool.Store.{get_or_create_cpu_pool}
use mc_kube.CpuPool.CoreSet.{code_points, parse_core_set}
use mc_kube.Controller.{ControllerState}
use mc_kube.Controller.PoolUpdate.{
  is_stale, needs_update, refresh_pool, pod_info_of, update_with_core, update_on_core,
  update_with_settings, update_cpu_pool_for_pod,
}
use mc_kube.Controller.Registered.{Agrees, refresh_pool-Agrees}
use mc_kube.Controller.Cluster.{ClusterPod, pod_of, Cluster}
use mc_kube.Controller.Upkeep.{or_same}
use mc_kube.Controller.Process.{
  Process, with_pool, actual_core, allocated_cr, report_core, wanted, check_and_preempt_for_pod,
  enter_with_core,
}
use mc_kube.Controller.Process.Stale.{lookup-update_pool}
use mc_kube.Controller.Whole.Lowers.{states, with_pool-states}

-- The pool has all of these cores.
abbrev pub HasCores : CpuPool → List ℤ → Type 0
HasCores pool core_set =
    All (λ c. (core : CpuCoreInfo) × (lookup c pool.cores ≡ some core)) core_set

lookup-get_or_create :
    (node : String) (n : ℕ) (pools : Pools)
    → lookup node (get_or_create_cpu_pool node n pools).1
      ≡ some (get_or_create_cpu_pool node n pools).0
unfolding get_or_create_cpu_pool
lookup-get_or_create node n pools = elim (Option-cases (lookup node pools)) [
  | inl e ↦ rw (e, get_or_create_cpu_pool) (lookup-insert_self node _ pools)
  | inr (pool, e) ↦ rw (e, get_or_create_cpu_pool) e
]

get_or_create-again :
    (node : String) (n : ℕ) (pools : Pools) (pool : CpuPool)
    → lookup node pools ≡ some pool
    → get_or_create_cpu_pool node n pools ≡ (pool, pools)
unfolding get_or_create_cpu_pool
get_or_create-again node n pools pool e = rw (e, get_or_create_cpu_pool) refl

is_stale-Agrees :
    (pi : PodInfo) (pool : CpuPool) (c : ℤ) (core : CpuCoreInfo)
    → Agrees pi pool c
    → lookup c pool.cores ≡ some core
    → is_stale pi (lookup c pool.cores) ≡ false
unfolding is_stale
is_stale-Agrees pi pool c core agrees e =
    let (old, found, millis, criticality) = agrees core e in
    let m : (old.cpu_millis == pi.cpu_millis) ≡ true = (int_eq.equal_iff _ _).1 millis in
    let k : (old.criticality == pi.criticality) ≡ true = (string_eq.equal_iff _ _).1 criticality in
    rw (e, is_stale, found, m, k) refl

needs_update-Agrees :
    (pi : PodInfo) (pool : CpuPool) (core_set : List ℤ)
    → All (Agrees pi pool) core_set
    → HasCores pool core_set
    → needs_update pi pool core_set ≡ false
unfolding needs_update
needs_update-Agrees pi pool [] agrees has = refl
needs_update-Agrees pi pool (c ∷ core_set) agrees has =
    let first = is_stale-Agrees pi pool c has.0.0 agrees.0 has.0.1 in
    let rest = needs_update-Agrees pi pool core_set agrees.1 has.1 in ground (arith, first, rest)

module _ (F : Type 0) ⦃fl : Float64 F⦄ (pod : ClusterPod) (rt : RtSettings) (core : String)
    (somewhere : (pod.node_name == "") ≡ false) where
  update_with_core-fresh :
      (cr : Mckube) (state : ControllerState) (pool : CpuPool) (pi : PodInfo)
      → pi ≡ pod_info_of F state.pod_runtime_state (pod_of pod) cr rt core
      → lookup pod.node_name
          (or_same state (update_with_core F (pod_of pod) cr rt core state)).pools
        ≡ some pool
      → HasCores pool pi.core_set
      → needs_update pi pool pi.core_set ≡ false
  unfolding update_with_core
  update_with_core-fresh cr state pool pi e found has =
      let opened = get_or_create_cpu_pool pod.node_name default_num_cores state.pools in
      let there =
        lookup-update_pool pod.node_name (refresh_pool pi) opened.1 opened.0
          (lookup-get_or_create pod.node_name default_num_cores state.pools) in
      let found' = rw (somewhere, ← e) at found in
      let same : refresh_pool pi opened.0 ≡ pool = cc (there, found') in
      needs_update-Agrees pi pool pi.core_set
        (subst (λ q. All (Agrees pi q) pi.core_set) same (refresh_pool-Agrees pi opened.0)) has

  module _ (s : Sorter) (cluster : Cluster) (now : ℤ) where
    with_pool-fresh :
        (cr : Mckube) (p : Process) (pool : CpuPool) (pi : PodInfo)
        → cr.spec.rt_settings ≡ some rt
        → rt.core ≡ some core
        → pi ≡ pod_info_of F (states p) (pod_of pod) cr rt core
        → lookup pod.node_name (with_pool F s cluster now pod cr p).controller.pools ≡ some pool
        → HasCores pool pi.core_set
        → needs_update pi pool pi.core_set ≡ false
    unfolding update_cpu_pool_for_pod
    with_pool-fresh cr p pool pi settled cored e found has =
        let state = p.controller in
        let with_rt =
          subst
            (λ settings.
              lookup pod.node_name
                (or_same state (update_with_settings F (pod_of pod) cr settings state)).pools
              ≡ some pool)
            settled found in
        let with_core =
          subst
            (λ c.
              lookup pod.node_name
                (or_same state (update_on_core F (pod_of pod) cr rt c state)).pools
              ≡ some pool)
            cored with_rt in
        update_with_core-fresh cr state pool pi e with_core has

    -- Where the entries are as they should be, nothing is done but to report the core.
    enter_with_core-quiet :
        (cr : Mckube) (p : Process) (pool : CpuPool)
        → lookup pod.node_name p.controller.pools ≡ some pool
        → let pi = wanted F s cluster now pod cr rt core p in
          needs_update pi pool pi.core_set ≡ false
          → enter_with_core F s cluster now pod cr rt core p
            ≡ (p, report_core F s cluster now pod cr core)
    unfolding enter_with_core
    enter_with_core-quiet cr p pool there fresh =
        rw
          (get_or_create-again pod.node_name default_num_cores p.controller.pools pool there, fresh)
          refl

    allocated-wanted :
        (cr : Mckube) (m : List (String × String))
        → actual_core F s cluster now cr core ≡ core
        → pod_info_of F m (pod_of pod) cr rt (actual_core F s cluster now cr core)
          ≡ pod_info_of F m (pod_of pod) (allocated_cr F s cluster now cr core) rt core
    allocated-wanted cr m agree = elim (Bool-cases (cr.status.allocated_core == "")) [
      | inl e ↦ rw e refl
      | inr e ↦ let own : cr.status.allocated_core ≡ core = rw e at agree in rw (e, own) refl
    ]

    allocated-settings :
        (cr : Mckube)
        → (allocated_cr F s cluster now cr core).spec.rt_settings ≡ cr.spec.rt_settings
    allocated-settings cr = elim (Bool-cases (cr.status.allocated_core == "")) [
      | inl e ↦ rw e refl
      | inr e ↦ rw e refl
    ]

    entered-fresh :
        (cr : Mckube) (p : Process) (pool : CpuPool)
        → cr.spec.rt_settings ≡ some rt
        → rt.core ≡ some core
        → actual_core F s cluster now cr core ≡ core
        → let p' = (enter_with_core F s cluster now pod cr rt core p).0 in
          lookup pod.node_name p'.controller.pools ≡ some pool
          → HasCores pool (parse_core_set (code_points core))
          → let pi = wanted F s cluster now pod cr rt core p' in
            needs_update pi pool pi.core_set ≡ false
    unfolding enter_with_core
    entered-fresh cr p pool settled cored agree found has =
        let pi = wanted F s cluster now pod cr rt core p in
        let opened = get_or_create_cpu_pool pod.node_name default_num_cores p.controller.pools in
        let p1 = record p { controller = record p.controller { pools = opened.1 } } in
        let p2 =
          (check_and_preempt_for_pod F s cluster now pod pi.core_set pi.cpu_millis pi.criticality
            p1).0 in
        let cr' = allocated_cr F s cluster now cr core in
        elim (Bool-cases (needs_update pi opened.0 pi.core_set)) [
          | inr fresh ↦
              let found' = rw fresh at found in
              let same : opened.0 ≡ pool =
                cc (
                  lookup-get_or_create pod.node_name default_num_cores p.controller.pools,
                  found',
                ) in
              rw fresh (subst (λ q. needs_update pi q pi.core_set ≡ false) same fresh)
          | inl stale ↦
              let found' = rw stale at found in
              let after = with_pool F s cluster now pod cr' p2 in
              let pi2 = wanted F s cluster now pod cr rt core after in
              let same : pi2 ≡ pod_info_of F (states p2) (pod_of pod) cr' rt core =
                ap (λ m. pod_info_of F m (pod_of pod) cr rt (actual_core F s cluster now cr core))
                  (with_pool-states F s cluster now pod cr' p2)
                ∙ allocated-wanted cr (states p2) agree in
              let has' : HasCores pool pi2.core_set =
                subst (λ c. HasCores pool (parse_core_set (code_points c))) (sym agree) has in
              rw stale (
                with_pool-fresh cr' p2 pool pi2 (allocated-settings cr ∙ settled) cored same found'
                  has')
        ]

    -- A pod on a node, whose settings name cores that the pool of the node has after Reconcile has
    -- entered it, and whose allocated core, if it has one, is that of its settings: entering it once
    -- more changes nothing, preempts nobody, and sends at most the report of its core.
    pub enter_with_core-again :
        (cr : Mckube) (p : Process) (pool : CpuPool)
        → cr.spec.rt_settings ≡ some rt
        → rt.core ≡ some core
        → actual_core F s cluster now cr core ≡ core
        → let p' = (enter_with_core F s cluster now pod cr rt core p).0 in
          lookup pod.node_name p'.controller.pools ≡ some pool
          → HasCores pool (parse_core_set (code_points core))
          → enter_with_core F s cluster now pod cr rt core p'
            ≡ (p', report_core F s cluster now pod cr core)
    enter_with_core-again cr p pool settled cored agree found has =
        enter_with_core-quiet cr (enter_with_core F s cluster now pod cr rt core p).0 pool found
          (entered-fresh cr p pool settled cored agree found has)
