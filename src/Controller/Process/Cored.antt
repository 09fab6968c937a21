-- ===== src/Controller/Process/Cored.antt =====
-- internal/controller/mckube_controller.go: the requests for the containers of a pod whose settings name
-- a core.
use mc_kube.Prelude.{
  ◌≡◌, refl, inl, inr, String, true, false, not, ◌&&◌, List, [], ◌∷◌, Option, none, some, string_eq,
  ◌==◌, ℤ, Bool-cases,
}
use mc_kube.Prelude.Float.{Float64}
use mc_kube.Prelude.Sort.{Sorter}
use mc_kube.Api.{RtSettings, Mckube}
use mc_kube.Controller.PoolUpdate.{effective_runtime, ensure_pod_runtime_state_initialized}
use mc_kube.Controller.Throttle.{is_victim_throttled}
use mc_kube.Controller.Cluster.{ClusterPod, Got, got, absent, broken, Cluster}
use mc_kube.Controller.Process.{
  Process, enter_pod, allocated_cr, is_active, is_running, names_core, container_request,
  apply_to_containers, apply_rt_settings_to_containers, process_pod, process_got,
}

-- No settings, or settings with a core.
abbrev pub NameCore : Option RtSettings → Type 0
NameCore none = Unit
NameCore (some rt) = names_core rt.core ≡ true

module _ (F : Type 0) ⦃fl : Float64 F⦄ (s : Sorter) (cluster : Cluster) (now : ℤ) where
  request-names_core :
      (cr : Mckube) (rt : RtSettings) (runtime : ℤ) (id : String)
      → names_core rt.core ≡ true
      → names_core (container_request F s cluster now cr rt runtime id).core ≡ true
  request-names_core cr rt runtime id h = elim (Bool-cases (cr.status.allocated_core == "")) [
    | inl e ↦ rw e h
    | inr e ↦ rw e refl
  ]

  containers-calm :
      (pod : ClusterPod) (cr : Mckube) (rt : RtSettings) (runtime : ℤ) (ids : List String)
      → names_core rt.core ≡ true
      → (apply_to_containers F s cluster now pod cr rt runtime ids).1 ≡ false
  unfolding apply_to_containers
  containers-calm pod cr rt runtime [] h = refl
  containers-calm pod cr rt runtime (id ∷ ids) h =
      let req = container_request F s cluster now cr rt runtime id in
      let named = request-names_core cr rt runtime id h in
      elim (Bool-cases (id == "")) [
        | inl e ↦ rw e (containers-calm pod cr rt runtime ids h)
        | inr e ↦ elim (Bool-cases (cluster.sends pod.host_ip req)) [
          | inl f ↦ simp (e, named, f) (containers-calm pod cr rt runtime ids h)
          | inr f ↦ simp (e, named, f) refl
        ]
      ]

  apply-calm :
      (pod : ClusterPod) (cr : Mckube) (rt : RtSettings) (p : Process)
      → names_core rt.core ≡ true
      → (apply_rt_settings_to_containers F s cluster now pod cr rt p).1 ≡ false
  unfolding apply_rt_settings_to_containers
  apply-calm pod cr rt p h =
      elim (Bool-cases
        (not (pod.uid == "") && is_victim_throttled now pod.uid p.throttled_victims)) [
          | inl e ↦ rw e refl
          | inr e ↦ elim (Bool-cases (pod.host_ip == "")) [
            | inl f ↦ rw (e, f) refl
            | inr f ↦
                rw (e, f)
                  (containers-calm pod cr rt
                    (effective_runtime p.controller.pod_runtime_state pod.name rt) pod.container_ids
                    h)
          ]
        ]

  process_pod-calm :
      (pod : ClusterPod) (cr : Mckube) (rt : RtSettings) (p : Process)
      → names_core rt.core ≡ true
      → (process_pod F s cluster now pod cr rt p).2 ≡ false
  unfolding process_pod
  process_pod-calm pod cr rt p h =
      let p1 : Process = record p {
        controller = ensure_pod_runtime_state_initialized pod.name p.controller;
      } in
      let entered = enter_pod F s cluster now pod cr rt rt.core p1 in
      let reported : Mckube = elim rt.core [
        | none ↦ cr
        | some core ↦ allocated_cr F s cluster now cr core
      ] in
      elim (Bool-cases (not (pod.node_name == "") && is_active pod.phase)) [
        | inr e ↦ rw e refl
        | inl e ↦ elim (Bool-cases (is_running pod.phase && not pod.deleting)) [
          | inr f ↦ rw (e, f) refl
          | inl f ↦ rw (e, f) (apply-calm pod reported rt entered.0 h)
        ]
      ]

  -- What Reconcile does for the pod ends without a panic.
  pub process_got-calm :
      (answer : Got ClusterPod) (cr : Mckube) (settings : Option RtSettings) (p : Process)
      → NameCore settings
      → (process_got F s cluster now answer cr settings p).2 ≡ false
  process_got-calm answer cr none p h = refl
  process_got-calm absent cr (some rt) p h = refl
  process_got-calm broken cr (some rt) p h = refl
  process_got-calm (got pod) cr (some rt) p h = process_pod-calm pod cr rt p h
