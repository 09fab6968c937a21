-- ===== src/Controller/Whole/Raised.antt =====
-- internal/controller/mckube_controller.go: which handlers raise a pod.
use mc_kube.Prelude.{
  ◌≡◌, refl, ◌⊎◌, inl, inr, String, Bool, true, false, not, ◌||◌, List, [], ◌∷◌, Option, none, some,
  All, insert, delete, lookup, string_eq, ◌==◌, ℤ, Bool-cases, Option-cases,
}
use mc_kube.Api.{RtSettings, Mckube}
use mc_kube.Controller.{ControllerState}
use mc_kube.Controller.Runtime.{
  RunningPod, CgroupRequest, RuntimeState, is_hi, hi_request, target_of, raise_to_hi, raise_found,
  raise_listed, handle_overrun_event,
}
use mc_kube.Controller.Recovery.{IsRevertible}
use mc_kube.Controller.Watch.{target_namespace, WatchedPod, find_objects_for_pod}
use mc_kube.Controller.Whole.Lowers.{States, Lowers, kept, lowered, dropped, cleanup-Lowers}

-- An entry of this name is not "hi".
abbrev pub IsNotHigh : String → String × String → Type 0
IsNotHigh name entry = entry.0 ≡ name → (entry.1 == "hi") ≡ false

pub insert-IsNotHigh :
    (name k v : String) (m : States)
    → All (IsNotHigh name) m
    → (k ≡ name → (v == "hi") ≡ false)
    → All (IsNotHigh name) (insert k v m)
unfolding insert
insert-IsNotHigh name k v [] h new = (new, tt)
insert-IsNotHigh name k v ((j, u) ∷ m) h new = elim (Bool-cases (j == k)) [
  | inl hit ↦ rw hit (new, h.1)
  | inr miss ↦ rw miss (h.0, insert-IsNotHigh name k v m h.1 new)
]

delete-IsNotHigh :
    (name k : String) (m : States) → All (IsNotHigh name) m → All (IsNotHigh name) (delete k m)
unfolding delete
delete-IsNotHigh name k [] h = tt
delete-IsNotHigh name k ((j, u) ∷ m) h = elim (Bool-cases (j == k)) [
  | inl hit ↦ rw hit h.1
  | inr miss ↦ rw miss (h.0, delete-IsNotHigh name k m h.1)
]

pub Lowers-IsNotHigh :
    (name : String) {a b : States} → Lowers a b → All (IsNotHigh name) a → All (IsNotHigh name) b
Lowers-IsNotHigh name kept h = h
Lowers-IsNotHigh name (lowered k l) h =
    insert-IsNotHigh name k "low" _ (Lowers-IsNotHigh name l h) (λ e. refl)
Lowers-IsNotHigh name (dropped k l) h = delete-IsNotHigh name k _ (Lowers-IsNotHigh name l h)

not_high :
    (name : String) (m : States) (v : String)
    → All (IsNotHigh name) m
    → lookup name m ≡ some v
    → (v == "hi") ≡ false
unfolding lookup
not_high name [] v h e = absurd (cc)
not_high name ((j, u) ∷ m) v h e = elim (Bool-cases (j == name)) [
  | inl hit ↦
      let same : u ≡ v = let q = rw hit at e in cc q in
      rw (← same) (h.0 ((string_eq.equal_iff j name).0 hit))
  | inr miss ↦ not_high name m v h.1 (rw miss at e)
]

pub is_hi-IsNotHigh :
    (name : String) (state : RuntimeState)
    → All (IsNotHigh name) state.pod_runtime_state
    → is_hi name state ≡ false
unfolding is_hi
is_hi-IsNotHigh name state h = elim (Option-cases (lookup name state.pod_runtime_state)) [
  | inl e ↦ rw e refl
  | inr (v, e) ↦ rw e (not_high name state.pod_runtime_state v h e)
]

pub watch-Lowers :
    (list_mckubes : String → Option (List Mckube)) (pod : WatchedPod) (state : ControllerState)
    → Lowers state.pod_runtime_state
        (find_objects_for_pod list_mckubes pod state).1.pod_runtime_state
unfolding find_objects_for_pod
watch-Lowers list_mckubes pod state =
    elim (Bool-cases (not (pod.namespace == target_namespace) || pod.app == "")) [
      | inl e ↦ rw e kept
      | inr e ↦ elim (Bool-cases pod.deleting) [
        | inl f ↦ rw (e, f) (cleanup-Lowers pod.name state)
        | inr f ↦ rw (e, f) kept
      ]
    ]

module _ (sends : String → CgroupRequest → Bool) (now : ℤ) (container_id : String)
    (list_mckubes : RunningPod → Option (List Mckube)) where
  -- The states are as before, or the daemon took the request with the high runtime.
  abbrev pub IsRaising : RunningPod → RuntimeState → RuntimeState → Type 0
  IsRaising pod state after =
      (after.pod_runtime_state ≡ state.pod_runtime_state)
      ⊎ ((r : IsRevertible list_mckubes pod) × (sends pod.host_ip (hi_request r.rt container_id)
            ≡ true)
          × (after.pod_runtime_state ≡ insert pod.name "hi" state.pod_runtime_state))

  raise_to_hi-IsRaising :
      (pod : RunningPod) (items : List Mckube) (cr : Mckube) (settings : Option RtSettings)
      (state : RuntimeState)
      → list_mckubes pod ≡ some items
      → target_of pod.name items ≡ some cr
      → cr.spec.rt_settings ≡ settings
      → IsRaising pod state (raise_to_hi sends now container_id pod cr settings state)
  unfolding raise_to_hi
  raise_to_hi-IsRaising pod items cr none state listed named settled = inl refl
  raise_to_hi-IsRaising pod items cr (some rt) state listed named settled =
      elim (Bool-cases (is_hi pod.name state)) [
        | inl already ↦ rw already (inl refl)
        | inr low ↦ elim (Bool-cases (pod.host_ip == "")) [
          | inl nowhere ↦ rw (low, nowhere) (inl refl)
          | inr addressed ↦ elim (Bool-cases (sends pod.host_ip (hi_request rt container_id))) [
            | inr refused ↦ rw (low, addressed, refused) (inl refl)
            | inl taken ↦ inr (
              record {
                items = items;
                cr = cr;
                rt = rt;
                listed = listed;
                named = named;
                settled = settled;
                addressed = addressed;
              },
              taken,
              rw (low, addressed, taken) refl,
            )
          ]
        ]
      ]

  raise_found-IsRaising :
      (pod : RunningPod) (items : List Mckube) (target : Option Mckube) (state : RuntimeState)
      → list_mckubes pod ≡ some items
      → target_of pod.name items ≡ target
      → IsRaising pod state (raise_found sends now container_id pod target state)
  raise_found-IsRaising pod items none state listed named = inl refl
  raise_found-IsRaising pod items (some cr) state listed named =
      raise_to_hi-IsRaising pod items cr cr.spec.rt_settings state listed named refl

  raise_listed-IsRaising :
      (pod : RunningPod) (answer : Option (List Mckube)) (state : RuntimeState)
      → list_mckubes pod ≡ answer
      → IsRaising pod state (raise_listed sends now container_id pod answer state)
  raise_listed-IsRaising pod none state listed = inl refl
  raise_listed-IsRaising pod (some items) state listed =
      raise_found-IsRaising pod items (target_of pod.name items) state listed refl

  pub handle_overrun_event-IsRaising :
      (pod : RunningPod) (state : RuntimeState)
      → IsRaising pod state
          (handle_overrun_event sends now container_id list_mckubes (some pod) state)
  unfolding handle_overrun_event
  handle_overrun_event-IsRaising pod state =
      raise_listed-IsRaising pod (list_mckubes pod) state refl
