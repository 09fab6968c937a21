-- ===== src/Controller/Recovery.antt =====
-- internal/controller/mckube_controller.go: after a recovery the pods of the node are low.
use mc_kube.Prelude.{
  ◌≡◌, refl, sym, subst, inl, inr, String, true, false, ◌&&◌, not, List, [], ◌∷◌, Option, none,
  some, lookup-insert, filter-Memᴰ, string_eq, ◌==◌, ==_refl, arith, Bool-cases,
}
use mathlib.Core.List.{Memᴰ}
use mc_kube.Api.{RtSettings, Mckube}
use mc_kube.Controller.Runtime.{
  RunningPod, RuntimeState, is_hi, target_of, revert_to_low, revert_found, revert_listed,
  revert_pod, revert_all, recover, handle_cpu_recovery,
}

-- The pod has an address and a resource with settings.
pub record IsRevertible (list_mckubes : RunningPod → Option (List Mckube)) (pod : RunningPod)
    : Type 0 where
  pub items : List Mckube
  pub cr : Mckube
  pub rt : RtSettings
  pub listed : list_mckubes pod ≡ some items
  pub named : target_of pod.name items ≡ some cr
  pub settled : cr.spec.rt_settings ≡ some rt
  pub addressed : (pod.host_ip == "") ≡ false

revert_to_low-stays :
    (name : String) (pod : RunningPod) (cr : Mckube) (settings : Option RtSettings)
    (state : RuntimeState)
    → is_hi name state ≡ false
    → is_hi name (revert_to_low pod cr settings state) ≡ false
unfolding revert_to_low is_hi
revert_to_low-stays name pod cr none state h = h
revert_to_low-stays name pod cr (some rt) state h = elim (Bool-cases (pod.host_ip == "")) [
  | inl e ↦ rw e h
  | inr e ↦ elim (Bool-cases (pod.name == name)) [
    | inl hit ↦ rw (e, lookup-insert pod.name name "low" state.pod_runtime_state, hit) refl
    | inr miss ↦ rw (e, lookup-insert pod.name name "low" state.pod_runtime_state, miss) h
  ]
]

revert_found-stays :
    (name : String) (pod : RunningPod) (found : Option Mckube) (state : RuntimeState)
    → is_hi name state ≡ false
    → is_hi name (revert_found pod found state) ≡ false
revert_found-stays name pod none state h = h
revert_found-stays name pod (some cr) state h =
    revert_to_low-stays name pod cr cr.spec.rt_settings state h

revert_listed-stays :
    (name : String) (pod : RunningPod) (answer : Option (List Mckube)) (state : RuntimeState)
    → is_hi name state ≡ false
    → is_hi name (revert_listed pod answer state) ≡ false
revert_listed-stays name pod none state h = h
revert_listed-stays name pod (some items) state h =
    revert_found-stays name pod (target_of pod.name items) state h

revert_to_low-reverts :
    (pod : RunningPod) (cr : Mckube) (rt : RtSettings) (state : RuntimeState)
    → (pod.host_ip == "") ≡ false
    → is_hi pod.name (revert_to_low pod cr (some rt) state) ≡ false
unfolding revert_to_low is_hi
revert_to_low-reverts pod cr rt state e =
    rw (e, lookup-insert pod.name pod.name "low" state.pod_runtime_state, ==_refl pod.name) refl

module _ (list_mckubes : RunningPod → Option (List Mckube)) where
  revert_listed-reverts :
      (pod : RunningPod) (state : RuntimeState)
      → IsRevertible list_mckubes pod
      → is_hi pod.name (revert_listed pod (list_mckubes pod) state) ≡ false
  revert_listed-reverts pod state r =
      subst (λ answer. is_hi pod.name (revert_listed pod answer state) ≡ false) (sym r.listed)
        (subst (λ found. is_hi pod.name (revert_found pod found state) ≡ false) (sym r.named)
          (subst (λ settings. is_hi pod.name (revert_to_low pod r.cr settings state) ≡ false)
            (sym r.settled) (revert_to_low-reverts pod r.cr r.rt state r.addressed)))

  revert_pod-stays :
      (name : String) (pod : RunningPod) (state : RuntimeState)
      → is_hi name state ≡ false
      → is_hi name (revert_pod list_mckubes pod state) ≡ false
  unfolding revert_pod
  revert_pod-stays name pod state h = elim (Bool-cases (is_hi pod.name state)) [
    | inl e ↦ rw e (revert_listed-stays name pod (list_mckubes pod) state h)
    | inr e ↦ rw e h
  ]

  revert_pod-reverts :
      (pod : RunningPod) (state : RuntimeState)
      → IsRevertible list_mckubes pod
      → is_hi pod.name (revert_pod list_mckubes pod state) ≡ false
  unfolding revert_pod
  revert_pod-reverts pod state r = elim (Bool-cases (is_hi pod.name state)) [
    | inl e ↦ rw e (revert_listed-reverts pod state r)
    | inr e ↦ rw e e
  ]

  revert_all-stays :
      (name : String) (pods : List RunningPod) (state : RuntimeState)
      → is_hi name state ≡ false
      → is_hi name (revert_all list_mckubes pods state) ≡ false
  unfolding revert_all
  revert_all-stays name [] state h = h
  revert_all-stays name (pod ∷ pods) state h =
      revert_all-stays name pods (revert_pod list_mckubes pod state)
        (revert_pod-stays name pod state h)

  revert_all-reverts :
      (pod : RunningPod) (pods : List RunningPod) (state : RuntimeState)
      → Memᴰ pod pods
      → IsRevertible list_mckubes pod
      → is_hi pod.name (revert_all list_mckubes pods state) ≡ false
  unfolding revert_all
  revert_all-reverts pod [] state m r = elim m [ ]
  revert_all-reverts pod (p ∷ pods) state m r = elim m [
    | Memᴰ.head e ↦ revert_all-stays pod.name pods (revert_pod list_mckubes p state) (
        subst (λ q. is_hi pod.name (revert_pod list_mckubes q state) ≡ false) e
          (revert_pod-reverts pod state r))
    | Memᴰ.tail later ↦ revert_all-reverts pod pods (revert_pod list_mckubes p state) later r
  ]

  recover-reverts :
      (node_name : String) (pod : RunningPod) (pods : List RunningPod) (state : RuntimeState)
      → Memᴰ pod pods
      → IsRevertible list_mckubes pod
      → is_hi pod.name (recover list_mckubes node_name pods state) ≡ false
  unfolding recover is_hi
  recover-reverts node_name pod [] state m r = elim m [ ]
  recover-reverts node_name pod (p ∷ pods) state m r = revert_all-reverts pod (p ∷ pods) state m r

  -- After handleCPURecovery no pod of the node that has an app, an address and a resource with
  -- settings is in its high runtime, whatever the states were and whatever the daemon answered.
  pub handle_cpu_recovery-reverts :
      (node_name : String) (pod : RunningPod) (pods : List RunningPod) (state : RuntimeState)
      → Memᴰ pod pods
      → (pod.node_name == node_name) ≡ true
      → (pod.app == "") ≡ false
      → IsRevertible list_mckubes pod
      → is_hi pod.name (handle_cpu_recovery list_mckubes node_name (some pods) state) ≡ false
  unfolding handle_cpu_recovery
  handle_cpu_recovery-reverts node_name pod pods state m here has_app r =
      recover-reverts node_name pod _ state
        (filter-Memᴰ (λ p. p.node_name == node_name && not (p.app == "")) m
          (ground (arith, here, has_app)))
        r
