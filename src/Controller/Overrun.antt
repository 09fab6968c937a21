-- ===== src/Controller/Overrun.antt =====
-- internal/controller/mckube_controller.go: which overruns raise a pod.
use mc_kube.Prelude.{
  ◌≡◌, ◌≢◌, refl, ap, insert, sym, subst, ◌∙◌, inl, inr, String, Bool, true, false, ◌||◌, List,
  Option, some, lookup, lookup-insert, string_eq, ◌==◌, ==_refl, ℤ, Bool-cases,
}
use text.Mathlib.TextEquality.{eq_iff}
use mc_kube.Api.{RtSettings, Mckube}
use mc_kube.Webhook.Validator.{or_empty}
use mc_kube.Controller.Runtime.{
  RunningPod, CgroupRequest, RuntimeState, is_hi, hi_request, raise_to_hi, raise_found,
  raise_listed, handle_overrun_event,
}
use mc_kube.Controller.Recovery.{IsRevertible}

same_states :
    (name : String) (state after : RuntimeState)
    → after.pod_runtime_state ≡ state.pod_runtime_state
    → is_hi name after ≡ is_hi name state
unfolding is_hi
same_states name state after e = ap (λ states. or_empty (lookup name states) == "hi") e

raised-is_hi :
    (name : String) (state after : RuntimeState)
    → after.pod_runtime_state ≡ insert name "hi" state.pod_runtime_state
    → is_hi name after ≡ true
unfolding is_hi
raised-is_hi name state after e =
    rw (e, lookup-insert name name "hi" state.pod_runtime_state, ==_refl name) refl

raised_other :
    (name other : String) (state after : RuntimeState)
    → after.pod_runtime_state ≡ insert name "hi" state.pod_runtime_state
    → name ≢ other
    → is_hi other after ≡ is_hi other state
unfolding is_hi
raised_other name other state after e differ = elim (Bool-cases (name == other)) [
  | inl hit ↦ absurd (differ ((eq_iff name other).0 hit))
  | inr miss ↦ rw (e, lookup-insert name other "hi" state.pod_runtime_state, miss) refl
]

module _ (sends : String → CgroupRequest → Bool) (now : ℤ) (container_id : String) where
  -- The pod is high where it was or the daemon took the request; any other pod is as it was.
  abbrev pub IsRaised : RunningPod → RtSettings → RuntimeState → RuntimeState → Type 0
  IsRaised pod rt state after =
      (is_hi pod.name after
        ≡ (is_hi pod.name state || sends pod.host_ip (hi_request rt container_id)))
      × ((other : String) → pod.name ≢ other → is_hi other after ≡ is_hi other state)

  raise_to_hi-IsRaised :
      (pod : RunningPod) (cr : Mckube) (rt : RtSettings) (state : RuntimeState)
      → (pod.host_ip == "") ≡ false
      → IsRaised pod rt state (raise_to_hi sends now container_id pod cr (some rt) state)
  unfolding raise_to_hi
  raise_to_hi-IsRaised pod cr rt state ip = elim (Bool-cases (is_hi pod.name state)) [
    | inl already ↦ rw already (already, λ other differ. refl)
    | inr low ↦ elim (Bool-cases (sends pod.host_ip (hi_request rt container_id))) [
      | inl taken ↦
          rw (low, ip, taken)
            (
              raised-is_hi pod.name state _ refl,
              λ other differ. raised_other pod.name other state _ refl differ,
            )
      | inr refused ↦
          rw (low, ip, refused)
            (
              same_states pod.name state _ refl ∙ low,
              λ other differ. same_states other state _ refl,
            )
    ]
  ]

  -- An overrun of a pod that has an address and a resource with settings: the pod is in its high
  -- runtime afterwards if and only if it was before or the daemon of its node takes the request with
  -- the high runtime, and the runtime of any other pod is as it was.
  pub handle_overrun_event-IsRaised :
      (list_mckubes : RunningPod → Option (List Mckube)) (pod : RunningPod) (state : RuntimeState)
      (r : IsRevertible list_mckubes pod)
      → IsRaised pod r.rt state
          (handle_overrun_event sends now container_id list_mckubes (some pod) state)
  unfolding handle_overrun_event
  handle_overrun_event-IsRaised list_mckubes pod state r =
      subst
        (λ answer. IsRaised pod r.rt state (raise_listed sends now container_id pod answer state))
        (sym r.listed)
        (subst
          (λ found. IsRaised pod r.rt state (raise_found sends now container_id pod found state))
          (sym r.named)
          (subst
            (λ settings.
              IsRaised pod r.rt state (raise_to_hi sends now container_id pod r.cr settings state))
            (sym r.settled) (raise_to_hi-IsRaised pod r.cr r.rt state r.addressed)))
