-- ===== src/Controller/Whole/Panicked.antt =====
-- internal/controller/mckube_controller.go: Reconcile at a pod for which neither the settings nor the
-- status name a core.
use mc_kube.Prelude.{
  ◌≡◌, refl, ap, String, Bool, true, false, not, ◌&&◌, List, [], ◌∷◌, Option, none, some, string_eq,
  ◌==◌, ℤ, arith,
}
use mc_kube.Prelude.Float.{Float64}
use mc_kube.Prelude.Sort.{Sorter}
use mc_kube.Api.{RtSettings, Mckube}
use mc_kube.Controller.PoolUpdate.{effective_runtime, ensure_pod_runtime_state_initialized}
use mc_kube.Controller.Throttle.{cleanup_expired_throttled_victims, is_victim_throttled}
use mc_kube.Controller.Runtime.{CgroupRequest}
use mc_kube.Controller.Cluster.{ClusterPod, running, Effect, asks, Got, got, Cluster}
use mc_kube.Controller.Process.{
  Process, container_request, apply_to_containers, apply_rt_settings_to_containers, enter_pod,
  process_pod, process_got,
}
use mc_kube.Controller.Reconcile.{
  Resource, panicked, mckube_finalizer, contains_string, process_active, reconcile,
}
use mc_kube.Controller.Whole.{World, NodeAnswers, gets_to_node, reconcile_whole}

-- It runs on a node, is not being deleted and not throttled, and has a container.
pub record IsServed (now : ℤ) (victims : List (String × ℤ)) (pod : ClusterPod) : Type 0 where
  pub scheduled : (pod.node_name == "") ≡ false
  pub runs : pod.phase ≡ running
  pub stays : pod.deleting ≡ false
  pub addressed : (pod.host_ip == "") ≡ false
  pub unthrottled : is_victim_throttled now pod.uid victims ≡ false
  pub id : String
  pub ids : List String
  pub contained : pod.container_ids ≡ id ∷ ids
  pub known : (id == "") ≡ false

module _ (F : Type 0) ⦃fl : Float64 F⦄ (s : Sorter) (cluster : Cluster) (now : ℤ) where
  -- One request is sent, and then it panics.
  abbrev pub Panics : ClusterPod → Process × List Effect × Bool → Type 0
  Panics pod result = (req : CgroupRequest) × (result.1 ≡ asks pod req ∷ []) × (result.2 ≡ true)

  containers-panic :
      (pod : ClusterPod) (cr : Mckube) (rt : RtSettings) (runtime : ℤ) (ids : List String)
      (id : String) (rest : List String)
      → rt.core ≡ none
      → (cr.status.allocated_core == "") ≡ true
      → (id == "") ≡ false
      → ids ≡ id ∷ rest
      → apply_to_containers F s cluster now pod cr rt runtime ids
        ≡ (asks pod (container_request F s cluster now cr rt runtime id) ∷ [], true)
  unfolding apply_to_containers
  containers-panic pod cr rt runtime [] id rest bare unallocated known e = absurd (cc)
  containers-panic pod cr rt runtime (i ∷ is) id rest bare unallocated known e =
      let same : i ≡ id = cc e in
      let bare_request : String → CgroupRequest = λ j. record {
        container_id = j;
        period = rt.period;
        runtime = runtime;
        core = none;
        only_runtime = false;
      } in
      let given : (i == "") ≡ false = rw same known in
      simp (bare, unallocated, given) (ap (λ j. (asks pod (bare_request j) ∷ [], true)) same)

  apply-Panics :
      (pod : ClusterPod) (cr : Mckube) (rt : RtSettings) (p : Process)
      → rt.core ≡ none
      → (cr.status.allocated_core == "") ≡ true
      → IsServed now p.throttled_victims pod
      → (req : CgroupRequest) × (apply_rt_settings_to_containers F s cluster now pod cr rt p
          ≡ (asks pod req ∷ [], true))
  unfolding apply_rt_settings_to_containers
  apply-Panics pod cr rt p bare unallocated h =
      let runtime = effective_runtime p.controller.pod_runtime_state pod.name rt in
      let free : (not (pod.uid == "") && is_victim_throttled now pod.uid p.throttled_victims)
          ≡ false =
        ground (arith, h.unthrottled) in
      (
        container_request F s cluster now cr rt runtime h.id,
        rw (free, h.addressed)
            (containers-panic pod cr rt runtime pod.container_ids h.id h.ids bare unallocated
              h.known h.contained),
      )

  process_pod-Panics :
      (pod : ClusterPod) (cr : Mckube) (rt : RtSettings) (p : Process)
      → rt.core ≡ none
      → (cr.status.allocated_core == "") ≡ true
      → IsServed now p.throttled_victims pod
      → Panics pod (process_pod F s cluster now pod cr rt p)
  unfolding process_pod
  process_pod-Panics pod cr rt p bare unallocated h =
      let p1 : Process = record p {
        controller = ensure_pod_runtime_state_initialized pod.name p.controller;
      } in
      let entered = (enter_pod F s cluster now pod cr rt none p1).0 in
      let (req, e) = apply-Panics pod cr rt entered bare unallocated (record {
        scheduled = h.scheduled;
        runs = h.runs;
        stays = h.stays;
        addressed = h.addressed;
        unthrottled = h.unthrottled;
        id = h.id;
        ids = h.ids;
        contained = h.contained;
        known = h.known;
      }) in
      (
        req,
        simp (bare, h.scheduled, h.runs, h.stays) (ap (λ (r : List Effect × Bool). r.0) e),
        simp (bare, h.scheduled, h.runs, h.stays) (ap (λ (r : List Effect × Bool). r.1) e),
      )

  process_got-Panics :
      (pod : ClusterPod) (cr : Mckube) (rt : RtSettings) (answer : Got ClusterPod)
      (settings : Option RtSettings) (p : Process)
      → answer ≡ got pod
      → settings ≡ some rt
      → rt.core ≡ none
      → (cr.status.allocated_core == "") ≡ true
      → IsServed now p.throttled_victims pod
      → Panics pod (process_got F s cluster now answer cr settings p)
  process_got-Panics pod cr rt answer settings p found settled bare unallocated h =
      rw (found, settled) (process_pod-Panics pod cr rt p bare unallocated h)

  -- A Reconcile of an active resource whose settings and status name no core, where its pod runs on a
  -- node, is not being deleted and not throttled, and has a container: it sends one request, and
  -- whether or not the daemon takes it, panics and never looks at the node, whatever its annotation
  -- says by then.
  pub reconcile_whole-panicked :
      (answers : NodeAnswers) (accepts : Resource → Bool) (resource : Resource) (rt : RtSettings)
      (pod : ClusterPod) (w : World)
      → gets_to_node resource ≡ true
      → resource.mckube.spec.rt_settings ≡ some rt
      → rt.core ≡ none
      → (resource.mckube.status.allocated_core == "") ≡ true
      → cluster.get_pod resource.mckube.namespace resource.mckube.spec.pod_name ≡ got pod
      → IsServed now (cleanup_expired_throttled_victims now w.process.throttled_victims) pod
      → let round = reconcile F s cluster now accepts (got resource) w.process in
        (reconcile_whole answers F s cluster now accepts (got resource) w
          ≡ some (record w { process = round.process }, round, []))
        × (round.queued ≡ panicked)
        × (req : CgroupRequest) × (round.effects ≡ asks pod req ∷ [])
  unfolding reconcile_whole reconcile process_active
  reconcile_whole-panicked answers accepts resource rt pod w active settled bare unallocated found
        h =
      let p : Process = record w.process {
        throttled_victims = cleanup_expired_throttled_victims now w.process.throttled_victims;
      } in
      let stays : resource.deleting ≡ false = ground (arith, active) in
      let kept : contains_string resource.finalizers mckube_finalizer ≡ true =
        ground (arith, active) in
      let named : (resource.mckube.spec.pod_name == "") ≡ false = ground (arith, active) in
      let placed : (resource.mckube.spec.node == "") ≡ false = ground (arith, active) in
      let (req, sent, panics) =
        process_got-Panics pod resource.mckube rt
          (cluster.get_pod resource.mckube.namespace resource.mckube.spec.pod_name)
          resource.mckube.spec.rt_settings p found settled bare unallocated h in
      let ends : (reconcile F s cluster now accepts (got resource) w.process).queued ≡ panicked =
        simp (stays, kept, named, placed, panics) refl in
      (rw ends refl, ends, req, simp (stays, kept, named, placed) sent)
