-- ===== src/Webhook/Configuration/Ending.antt =====
-- internal/webhook/pod_mutator.go: the mutating webhook and the goroutine that it starts.
use mc_kube.Prelude.{
  ◌≡◌, refl, ◌∙◌, inl, inr, String, Bool, true, false, List, [], ◌∷◌, ◌++◌, Option, some, string_eq,
  ◌==◌, All, Bool-cases,
}
use mc_kube.Prelude.Float.{Float64}
use mc_kube.Prelude.Sort.{Sorter}
use mc_kube.Api.{RtSettings, Mckube}
use mc_kube.CpuPool.{Pools}
use mc_kube.CpuPool.Search.{Node}
use mc_kube.Webhook.Mutator.{Pod, is_true, mutated, handle}
use mc_kube.Webhook.Mutator.Repeat.{handle-IsPendingFrom}
use mc_kube.Webhook.Configuration.{
  StartedPod, not_found, failed, found, Moment, Event, timeout, tick, RtRequest, Action, Progress,
  applied, internal_ip, apply_rt_settings_via_daemon, attempt, react, configure,
  schedule_rt_configuration,
}
use mc_kube.Webhook.Configuration.Orderly.{IsReady, IsTarget}

-- A tick at which the pod is not gone and not marked as configured by anyone, whatever the daemons
-- answer then.
abbrev pub IsIdle : Event → Type 0
IsIdle timeout = ⊥
IsIdle (tick now not_found) = ⊥
IsIdle (tick now failed) = Unit
IsIdle (tick now (found p)) = is_true "mckube.io/rt-configured" p.pod ≡ false

module _ (rt : RtSettings) where
  apply-IsTarget :
      (now : Moment) (p : StartedPod) (ip : String) (req : RtRequest)
      → IsTarget rt now p ip req
      → (apply_rt_settings_via_daemon now rt p).0 ≡ now.sends ip req
  unfolding apply_rt_settings_via_daemon
  apply-IsTarget now p ip req t =
      let reach : (internal_ip t.addresses == "") ≡ false = rw t.address_is t.reachable in
      rw (t.node_found, reach, t.first_is, t.known, t.request_is, ← t.address_is) refl

  attempt-ends :
      (now : Moment) (result : Bool × List Action) (pod : Pod) (rest : Progress × List Action)
      → rest.0 ≡ applied
      → (attempt now result pod rest).0 ≡ applied
  attempt-ends now (true, sent) pod rest h = refl
  attempt-ends now (false, sent) pod rest h = h

  attempt-succeeds :
      (now : Moment) (result : Bool × List Action) (pod : Pod) (rest : Progress × List Action)
      → result.0 ≡ true
      → (attempt now result pod rest).0 ≡ applied
  attempt-succeeds now (true, sent) pod rest h = refl
  attempt-succeeds now (false, sent) pod rest h = absurd (cc)

  react-ends :
      (event : Event) (rest : Progress × List Action)
      → IsIdle event
      → rest.0 ≡ applied
      → (react rt event rest).0 ≡ applied
  react-ends timeout rest idle h = absurd idle
  react-ends (tick now not_found) rest idle h = absurd idle
  react-ends (tick now failed) rest idle h = h
  react-ends (tick now (found p)) rest idle h = elim (Bool-cases (p.pod.node_name == "")) [
    | inl e ↦ simp e h
    | inr e ↦ elim (Bool-cases p.running) [
      | inr f ↦ simp (e, f) h
      | inl f ↦ simp (e, f, idle) (attempt-ends now _ p.pod rest h)
    ]
  ]

  react-succeeds :
      (now : Moment) (p : StartedPod) (ip : String) (req : RtRequest)
      (rest : Progress × List Action)
      → IsReady rt p
      → IsTarget rt now p ip req
      → now.sends ip req ≡ true
      → (react rt (tick now (found p)) rest).0 ≡ applied
  react-succeeds now p ip req rest ready target consent =
      simp (ready.scheduled, ready.runs, ready.unmarked)
        (attempt-succeeds now _ p.pod rest (apply-IsTarget now p ip req target ∙ consent))

  configure-ends :
      (before after : List Event) (now : Moment) (p : StartedPod) (ip : String) (req : RtRequest)
      → All IsIdle before
      → IsReady rt p
      → IsTarget rt now p ip req
      → now.sends ip req ≡ true
      → (configure rt (before ++ tick now (found p) ∷ after)).0 ≡ applied
  unfolding configure
  configure-ends [] after now p ip req idle ready target consent =
      react-succeeds now p ip req (configure rt after) ready target consent
  configure-ends (event ∷ before) after now p ip req idle ready target consent =
      react-ends event (configure rt (before ++ tick now (found p) ∷ after)) idle.0
        (configure-ends before after now p ip req idle.1 ready target consent)

-- A mutated pod gets the settings that the handler hands over: where up to some tick the pod is
-- neither gone nor marked by anyone and the time is not up, whatever was refused by then, and at that
-- tick it is scheduled and running and the daemon of its node accepts the request for its first
-- container, the goroutine ends after a request that was accepted.
pub handle-schedule_rt_configuration :
    (F : Type 0) ⦃fl : Float64 F⦄ (s : Sorter) (pools : Pools) (dry_run : Bool)
    (list_mckubes : String → Option (List Mckube)) (list_nodes : Option (List Node))
    (pod pod' : Pod) (sent : Option Mckube) (rt : RtSettings) (before after : List Event)
    (now : Moment) (p : StartedPod) (ip : String) (req : RtRequest)
    → handle F s pools dry_run list_mckubes list_nodes (some pod) ≡ mutated pod' sent rt
    → All IsIdle before
    → IsReady rt p
    → IsTarget rt now p ip req
    → now.sends ip req ≡ true
    → (schedule_rt_configuration pod' rt (before ++ tick now (found p) ∷ after)).0 ≡ applied
unfolding schedule_rt_configuration
handle-schedule_rt_configuration F s pools dry_run list_mckubes list_nodes pod pod' sent rt before
      after now p ip req h idle ready target consent =
    let made = handle-IsPendingFrom F s pools dry_run list_mckubes list_nodes pod pod' sent rt h in
    rw (made.1.2) (configure-ends rt before after now p ip req idle ready target consent)
