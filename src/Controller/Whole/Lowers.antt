-- ===== src/Controller/Whole/Lowers.antt =====
-- internal/controller/mckube_controller.go: what Reconcile does to the runtime states of the pods.
use mc_kube.Prelude.{
  ◌≡◌, refl, sym, subst, ◌∙◌, inl, inr, String, Bool, true, false, not, ◌&&◌, ◌||◌, List, Option,
  none, some, is_some, lookup, insert, delete, string_eq, ◌==◌, ℤ, Bool-cases, if◌then◌else◌,
}
use mc_kube.Prelude.Float.{Float64}
use mc_kube.Prelude.Sort.{Sorter}
use mc_kube.Api.{RtSettings, Mckube}
use mc_kube.CpuPool.{CpuPool, default_num_cores}
use mc_kube.CpuPool.Store.{get_or_create_cpu_pool}
use mc_kube.Controller.{ControllerState}
use mc_kube.Controller.PoolUpdate.{
  Pod, update_with_core, update_on_core, update_with_settings, update_cpu_pool_for_pod,
  needs_update, cleanup_pod_state, ensure_pod_runtime_state_initialized,
}
use mc_kube.Controller.Upkeep.{or_same}
use mc_kube.Controller.Cluster.{ClusterPod, pod_of, Got, got, absent, broken, Cluster}
use mc_kube.Controller.Process.{
  Process, is_active, preempt_in, check_and_preempt_for_pod, with_pool, wanted, enter_with_core,
  enter_pod, process_pod, process_got,
}
use mc_kube.Controller.Reconcile.{
  Resource, Queued, done, requeue, requeue_after, mckube_finalizer, contains_string, updating,
  assign_node, finalize, process_active, reconcile_got, reconcile,
}

abbrev pub States : Type 0
States = List (String × String)

abbrev pub states : Process → States
states p = p.controller.pod_runtime_state

-- States are set to low or dropped, and nothing else.
pub data Lowers (before : States) : States → Type 0 where
  kept : Lowers before before
  lowered :
      {after : States} (name : String)
      → Lowers before after
      → Lowers before (insert name "low" after)
  dropped :
      {after : States} (name : String) → Lowers before after → Lowers before (delete name after)

pub then_Lowers : {a b c : States} → Lowers b c → Lowers a b → Lowers a c
then_Lowers kept h = h
then_Lowers (lowered name k) h = lowered name (then_Lowers k h)
then_Lowers (dropped name k) h = dropped name (then_Lowers k h)

same_Lowers : {a b : States} → b ≡ a → Lowers a b
same_Lowers {a = a} e = subst (Lowers a) (sym e) kept

initialized-Lowers :
    (name : String) (state : ControllerState)
    → Lowers state.pod_runtime_state
        (ensure_pod_runtime_state_initialized name state).pod_runtime_state
unfolding ensure_pod_runtime_state_initialized
initialized-Lowers name state = elim (Bool-cases (is_some (lookup name state.pod_runtime_state))) [
  | inl e ↦ rw e kept
  | inr e ↦ rw e (lowered name kept)
]

pub cleanup-Lowers :
    (name : String) (state : ControllerState)
    → Lowers state.pod_runtime_state (cleanup_pod_state name state).pod_runtime_state
unfolding cleanup_pod_state
cleanup-Lowers name state = dropped name kept

updating-Lowers :
    (before : States) (p : Process) (accepted : Bool) (r : Resource) (q : Queued)
    → Lowers before (states p)
    → Lowers before (states (updating p accepted r q).process)
updating-Lowers before p true r q h = h
updating-Lowers before p false r q h = h

cleaned-Lowers :
    (p : Process) (name : String)
    → Lowers (states p) (
        states
          (if name == "" then p else record p { controller = cleanup_pod_state name p.controller }))
cleaned-Lowers p name = elim (Bool-cases (name == "")) [
  | inl e ↦ rw e kept
  | inr e ↦ rw e (cleanup-Lowers name p.controller)
]

finalize-Lowers :
    (p : Process) (accepts : Resource → Bool) (r : Resource)
    → Lowers (states p) (states (finalize p accepts r).process)
unfolding finalize
finalize-Lowers p accepts r = elim (Bool-cases (contains_string r.finalizers mckube_finalizer)) [
  | inl e ↦
      rw e
        (updating-Lowers (states p) _ (accepts _) _ done (cleaned-Lowers p r.mckube.spec.pod_name))
  | inr e ↦ rw e kept
]

module _ (F : Type 0) ⦃fl : Float64 F⦄ where
  update_on_core-states :
      (pod : Pod) (cr : Mckube) (rt : RtSettings) (core : Option String) (state : ControllerState)
      → (or_same state (update_on_core F pod cr rt core state)).pod_runtime_state
        ≡ state.pod_runtime_state
  unfolding update_with_core
  update_on_core-states pod cr rt none state = refl
  update_on_core-states pod cr rt (some core) state = elim (Bool-cases (pod.node_name == "")) [
    | inl e ↦ rw e refl
    | inr e ↦ rw e refl
  ]

  update-states :
      (pod : Pod) (cr : Mckube) (settings : Option RtSettings) (state : ControllerState)
      → (or_same state (update_with_settings F pod cr settings state)).pod_runtime_state
        ≡ state.pod_runtime_state
  update-states pod cr none state = refl
  update-states pod cr (some rt) state = update_on_core-states pod cr rt rt.core state

  module _ (s : Sorter) (cluster : Cluster) (now : ℤ) where
    pub with_pool-states :
        (pod : ClusterPod) (cr : Mckube) (p : Process)
        → states (with_pool F s cluster now pod cr p) ≡ states p
    unfolding update_cpu_pool_for_pod
    with_pool-states pod cr p = update-states (pod_of pod) cr cr.spec.rt_settings p.controller

    preempt_in-states :
        (node_name : String) (pool : Option CpuPool) (cpu_millis : ℤ) (criticality : String)
        (cores : List ℤ) (p : Process)
        → states (preempt_in F s cluster now node_name pool cpu_millis criticality cores p).0
          ≡ states p
    preempt_in-states node_name none cpu_millis criticality cores p = refl
    preempt_in-states node_name (some pool) cpu_millis criticality cores p = refl

    pub check-states :
        (pod : ClusterPod) (cores : List ℤ) (cpu_millis : ℤ) (criticality : String) (p : Process)
        → states (check_and_preempt_for_pod F s cluster now pod cores cpu_millis criticality p).0
          ≡ states p
    unfolding check_and_preempt_for_pod
    check-states pod cores cpu_millis criticality p = elim (Bool-cases (pod.node_name == "")) [
      | inl e ↦ rw e refl
      | inr e ↦ rw e (preempt_in-states pod.node_name _ cpu_millis criticality cores p)
    ]

    enter_with_core-states :
        (pod : ClusterPod) (cr : Mckube) (rt : RtSettings) (core : String) (p : Process)
        → states (enter_with_core F s cluster now pod cr rt core p).0 ≡ states p
    unfolding enter_with_core
    enter_with_core-states pod cr rt core p =
        let pi = wanted F s cluster now pod cr rt core p in
        let opened = get_or_create_cpu_pool pod.node_name default_num_cores p.controller.pools in
        let p1 = record p { controller = record p.controller { pools = opened.1 } } in
        elim (Bool-cases (needs_update pi opened.0 pi.core_set)) [
          | inr e ↦ rw e refl
          | inl e ↦ rw e (
              with_pool-states pod _
                (check_and_preempt_for_pod F s cluster now pod pi.core_set pi.cpu_millis
                  pi.criticality p1).0
              ∙ check-states pod pi.core_set pi.cpu_millis pi.criticality p1)
        ]

    enter_pod-states :
        (pod : ClusterPod) (cr : Mckube) (rt : RtSettings) (core : Option String) (p : Process)
        → states (enter_pod F s cluster now pod cr rt core p).0 ≡ states p
    enter_pod-states pod cr rt none p = with_pool-states pod cr p
    enter_pod-states pod cr rt (some core) p = enter_with_core-states pod cr rt core p

    process_pod-Lowers :
        (pod : ClusterPod) (cr : Mckube) (rt : RtSettings) (p : Process)
        → Lowers (states p) (states (process_pod F s cluster now pod cr rt p).0)
    unfolding process_pod
    process_pod-Lowers pod cr rt p =
        elim (Bool-cases (not (pod.node_name == "") && is_active pod.phase)) [
          | inr e ↦ rw e kept
          | inl e ↦ rw e (
              subst (Lowers (states p)) (sym (enter_pod-states pod cr rt rt.core _))
                (initialized-Lowers pod.name p.controller))
        ]

    process_got-Lowers :
        (answer : Got ClusterPod) (cr : Mckube) (settings : Option RtSettings) (p : Process)
        → Lowers (states p) (states (process_got F s cluster now answer cr settings p).0)
    process_got-Lowers answer cr none p = kept
    process_got-Lowers absent cr (some rt) p = kept
    process_got-Lowers broken cr (some rt) p = kept
    process_got-Lowers (got pod) cr (some rt) p = process_pod-Lowers pod cr rt p

    assign_node-Lowers :
        (p : Process) (accepts : Resource → Bool) (r : Resource) (answer : Got ClusterPod)
        → Lowers (states p) (states (assign_node p accepts r answer).process)
    unfolding assign_node
    assign_node-Lowers p accepts r absent = kept
    assign_node-Lowers p accepts r broken = kept
    assign_node-Lowers p accepts r (got pod) =
        elim (Bool-cases ((pod.node_name == "") || not (is_active pod.phase))) [
          | inl e ↦ rw e kept
          | inr e ↦ rw e (updating-Lowers (states p) p (accepts _) _ (requeue_after 1) kept)
        ]

    process_active-Lowers :
        (accepts : Resource → Bool) (r : Resource) (p : Process)
        → Lowers (states p) (states (process_active F s cluster now accepts r p).process)
    unfolding process_active
    process_active-Lowers accepts r p = elim (Bool-cases (r.mckube.spec.pod_name == "")) [
      | inl e ↦ rw e kept
      | inr e ↦ elim (Bool-cases (r.mckube.spec.node == "")) [
        | inl f ↦
            rw (e, f)
              (assign_node-Lowers p accepts r
                (cluster.get_pod r.mckube.namespace r.mckube.spec.pod_name))
        | inr f ↦
            rw (e, f)
              (process_got-Lowers (cluster.get_pod r.mckube.namespace r.mckube.spec.pod_name)
                r.mckube r.mckube.spec.rt_settings p)
      ]
    ]

    reconcile_got-Lowers :
        (accepts : Resource → Bool) (answer : Got Resource) (p : Process)
        → Lowers (states p) (states (reconcile_got F s cluster now accepts answer p).process)
    reconcile_got-Lowers accepts absent p = kept
    reconcile_got-Lowers accepts broken p = kept
    reconcile_got-Lowers accepts (got r) p = elim (Bool-cases r.deleting) [
      | inl e ↦ simp e (finalize-Lowers p accepts r)
      | inr e ↦ elim (Bool-cases (contains_string r.finalizers mckube_finalizer)) [
        | inl f ↦ simp (e, f) (process_active-Lowers accepts r p)
        | inr f ↦ simp (e, f) (updating-Lowers (states p) p (accepts _) _ requeue kept)
      ]
    ]

    pub reconcile-Lowers :
        (accepts : Resource → Bool) (answer : Got Resource) (p : Process)
        → Lowers (states p) (states (reconcile F s cluster now accepts answer p).process)
    unfolding reconcile
    reconcile-Lowers accepts answer p = reconcile_got-Lowers accepts answer _
