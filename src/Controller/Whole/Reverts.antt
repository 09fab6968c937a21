-- ===== src/Controller/Whole/Reverts.antt =====
-- internal/controller/mckube_controller.go: what a whole Reconcile does to the runtime states of the
-- pods.
use mc_kube.Prelude.{
  ◌≡◌, subst, inl, inr, String, Bool, true, false, List, [], ◌∷◌, Option, none, some, string_eq,
  ◌==◌, ℤ, Bool-cases, Option-cases,
}
use mc_kube.Prelude.Float.{Float64}
use mc_kube.Prelude.Sort.{Sorter}
use mc_kube.Api.{RtSettings, Mckube}
use mc_kube.Ipvs.Pressure.{Request}
use mc_kube.Controller.Runtime.{
  RunningPod, RuntimeState, is_hi, revert_to_low, revert_found, revert_listed, revert_pod,
  revert_all, recover, handle_cpu_recovery, target_of,
}
use mc_kube.Controller.Cluster.{Got, got, absent, broken, Cluster}
use mc_kube.Controller.Reconcile.{
  Resource, Queued, done, requeue, requeue_after, failed, panicked, Round, reconcile,
}
use mc_kube.Controller.Turn.{Turn, same, pressed, recovered, turn_of, handle_turn}
use mc_kube.Controller.Whole.{
  World, runtime_of, with_runtime_state, NodeAnswers, gets_to_node, turn_world, check_node,
  check_if, check_got, check_after, reconcile_whole,
}
use mc_kube.Controller.Whole.Lowers.{Lowers, kept, lowered, then_Lowers, states, reconcile-Lowers}

-- The runtime states are set to low or dropped, and nothing else.
abbrev LowersState : RuntimeState → RuntimeState → Type 0
LowersState a b = Lowers a.pod_runtime_state b.pod_runtime_state

revert_to_low-Lowers :
    (pod : RunningPod) (cr : Mckube) (settings : Option RtSettings) (state : RuntimeState)
    → LowersState state (revert_to_low pod cr settings state)
unfolding revert_to_low
revert_to_low-Lowers pod cr none state = kept
revert_to_low-Lowers pod cr (some rt) state = elim (Bool-cases (pod.host_ip == "")) [
  | inl e ↦ rw e kept
  | inr e ↦ rw e (lowered pod.name kept)
]

revert_found-Lowers :
    (pod : RunningPod) (found : Option Mckube) (state : RuntimeState)
    → LowersState state (revert_found pod found state)
revert_found-Lowers pod none state = kept
revert_found-Lowers pod (some cr) state = revert_to_low-Lowers pod cr cr.spec.rt_settings state

revert_listed-Lowers :
    (pod : RunningPod) (answer : Option (List Mckube)) (state : RuntimeState)
    → LowersState state (revert_listed pod answer state)
revert_listed-Lowers pod none state = kept
revert_listed-Lowers pod (some items) state =
    revert_found-Lowers pod (target_of pod.name items) state

module _ (list_mckubes : RunningPod → Option (List Mckube)) where
  revert_pod-Lowers :
      (pod : RunningPod) (state : RuntimeState)
      → LowersState state (revert_pod list_mckubes pod state)
  unfolding revert_pod
  revert_pod-Lowers pod state = elim (Bool-cases (is_hi pod.name state)) [
    | inl e ↦ rw e (revert_listed-Lowers pod (list_mckubes pod) state)
    | inr e ↦ rw e kept
  ]

  revert_all-Lowers :
      (pods : List RunningPod) (state : RuntimeState)
      → LowersState state (revert_all list_mckubes pods state)
  unfolding revert_all
  revert_all-Lowers [] state = kept
  revert_all-Lowers (pod ∷ pods) state =
      then_Lowers (revert_all-Lowers pods (revert_pod list_mckubes pod state))
        (revert_pod-Lowers pod state)

  recover-Lowers :
      (node_name : String) (pods : List RunningPod) (state : RuntimeState)
      → LowersState state (recover list_mckubes node_name pods state)
  unfolding recover
  recover-Lowers node_name [] state = kept
  recover-Lowers node_name (pod ∷ pods) state = revert_all-Lowers (pod ∷ pods) state

  handle_cpu_recovery-Lowers :
      (node_name : String) (pods : Option (List RunningPod)) (state : RuntimeState)
      → LowersState state (handle_cpu_recovery list_mckubes node_name pods state)
  unfolding handle_cpu_recovery
  handle_cpu_recovery-Lowers node_name none state = kept
  handle_cpu_recovery-Lowers node_name (some pods) state = recover-Lowers node_name _ state

abbrev LowersWorld : World → World → Type 0
LowersWorld w w' = Lowers (states w.process) (states w'.process)

module _ (answers : NodeAnswers) where
  turn_world-Lowers :
      (turn : Turn) (node_name : String) (w w' : World) (requests : List Request)
      → turn_world answers turn node_name w ≡ some (w', requests)
      → LowersWorld w w'
  unfolding handle_turn
  turn_world-Lowers same node_name w w' requests h =
      let e : w ≡ w' = cc in subst (LowersWorld w) e kept
  turn_world-Lowers recovered node_name w w' requests h =
      let after =
        with_runtime_state
          (handle_cpu_recovery answers.list_mckubes node_name answers.list_pods (runtime_of w)) w in
      let e : after ≡ w' = cc in
      subst (LowersWorld w) e
        (handle_cpu_recovery-Lowers answers.list_mckubes node_name answers.list_pods (runtime_of w))
  turn_world-Lowers pressed node_name w w' requests h =
      elim (Option-cases (answers.press node_name w.pressure_state)) [
        | inl none_there ↦ absurd (let q = rw none_there at h in cc q)
        | inr (after, e) ↦
            let q = rw e at h in
            let made : record w { pressure_state = after.0 } ≡ w' = cc q in
            subst (LowersWorld w) made kept
      ]

  check_if-Lowers :
      (active : Bool) (node_name : String) (w w' : World) (requests : List Request)
      → check_if answers active node_name w ≡ some (w', requests)
      → LowersWorld w w'
  unfolding check_node
  check_if-Lowers false node_name w w' requests h =
      let e : w ≡ w' = cc in subst (LowersWorld w) e kept
  check_if-Lowers true node_name w w' requests h =
      let found = turn_of node_name (answers.annotations_of node_name) w.last_cpu_busy_state in
      turn_world-Lowers found.0 node_name (record w { last_cpu_busy_state = found.1 }) w' requests h

  check_got-Lowers :
      (answer : Got Resource) (w w' : World) (requests : List Request)
      → check_got answers answer w ≡ some (w', requests)
      → LowersWorld w w'
  check_got-Lowers absent w w' requests h = check_if-Lowers false "" w w' requests h
  check_got-Lowers broken w w' requests h = check_if-Lowers false "" w w' requests h
  check_got-Lowers (got r) w w' requests h =
      check_if-Lowers (gets_to_node r) r.mckube.spec.node w w' requests h

  check_after-Lowers :
      (queued : Queued) (answer : Got Resource) (w w' : World) (requests : List Request)
      → check_after answers queued answer w ≡ some (w', requests)
      → LowersWorld w w'
  check_after-Lowers panicked answer w w' requests h = check_if-Lowers false "" w w' requests h
  check_after-Lowers done answer w w' requests h = check_got-Lowers answer w w' requests h
  check_after-Lowers requeue answer w w' requests h = check_got-Lowers answer w w' requests h
  check_after-Lowers (requeue_after seconds) answer w w' requests h =
      check_got-Lowers answer w w' requests h
  check_after-Lowers failed answer w w' requests h = check_got-Lowers answer w w' requests h

  pub reconcile_whole-Lowers :
      (F : Type 0) ⦃fl : Float64 F⦄ (s : Sorter) (cluster : Cluster) (now : ℤ)
      (accepts : Resource → Bool) (answer : Got Resource) (w w' : World) (round : Round)
      (requests : List Request)
      → reconcile_whole answers F s cluster now accepts answer w ≡ some (w', round, requests)
      → LowersWorld w w'
  unfolding reconcile_whole
  reconcile_whole-Lowers F s cluster now accepts answer w w' round requests h =
      let own = reconcile F s cluster now accepts answer w.process in
      let p = own.process in
      elim (Option-cases (check_after answers own.queued answer (record w { process = p }))) [
        | inl none_there ↦ absurd (let q = rw none_there at h in cc q)
        | inr (after, e) ↦
            let q = rw e at h in
            let made : after.0 ≡ w' = cc q in
            subst (LowersWorld w) made (
              then_Lowers
                (check_after-Lowers own.queued answer (record w { process = p }) after.0 after.1 e)
                (reconcile-Lowers F s cluster now accepts answer w.process))
      ]
