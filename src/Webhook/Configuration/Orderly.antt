-- ===== src/Webhook/Configuration/Orderly.antt =====
-- internal/webhook/pod_mutator.go: what the goroutine of the mutating webhook sends, and when it ends.
use mc_kube.Prelude.{
  ◌≡◌, refl, ◌⊎◌, inl, inr, String, Bool, true, false, List, [], ◌∷◌, some, Option-cases, string_eq,
  ◌==◌, Bool-cases,
}
use mathlib.Core.List.{Memᴰ}
use mc_kube.Api.{RtSettings}
use mc_kube.Webhook.Mutator.{Pod, is_true}
use mc_kube.Webhook.Configuration.{
  StartedPod, not_found, failed, found, Moment, Event, timeout, tick, Address, RtRequest, Action,
  posts, Progress, waiting, stopped, applied, internal_ip, rt_request, post,
  apply_rt_settings_via_daemon, marks_of, attempt, try_pod, configure, schedule_rt_configuration,
}

module _ (rt : RtSettings) where
  -- It is scheduled, runs and does not have its settings yet.
  pub record IsReady (p : StartedPod) : Type 0 where
    pub scheduled : (p.pod.node_name == "") ≡ false
    pub runs : p.running ≡ true
    pub unmarked : is_true "mckube.io/rt-configured" p.pod ≡ false

  -- The address is that of its node at that moment, and the request is for its first container.
  pub record IsTarget (now : Moment) (p : StartedPod) (ip : String) (req : RtRequest) : Type 0 where
    pub addresses : List Address
    pub node_found : now.get_node p.pod.node_name ≡ some addresses
    pub address_is : internal_ip addresses ≡ ip
    pub reachable : (ip == "") ≡ false
    pub id : String
    pub ids : List String
    pub first_is : p.container_ids ≡ id ∷ ids
    pub known : (id == "") ≡ false
    pub request_is : req ≡ rt_request rt id

  pub record IsDue (events : List Event) (now : Moment) (p : StartedPod) (ip : String)
      (req : RtRequest) : Type 0 where
    pub seen : Memᴰ (tick now (found p)) events
    pub ready : IsReady p
    pub target : IsTarget now p ip req

  pub data IsOrderly (events : List Event) : Progress → List Action → Type 0 where
    waited : IsOrderly events waiting []
    gave_up : IsOrderly events stopped []
    refused :
        {now : Moment} {p : StartedPod} {ip : String} {req : RtRequest} {progress : Progress}
        {rest : List Action}
        → IsDue events now p ip req
        → now.sends ip req ≡ false
        → IsOrderly events progress rest
        → IsOrderly events progress (posts ip req ∷ rest)
    accepted :
        {now : Moment} {p : StartedPod} {ip : String} {req : RtRequest}
        → IsDue events now p ip req
        → now.sends ip req ≡ true
        → IsOrderly events applied (posts ip req ∷ marks_of now p.pod)

  later :
      (e : Event) {events : List Event} {progress : Progress} {actions : List Action}
      → IsOrderly events progress actions
      → IsOrderly (e ∷ events) progress actions
  later e waited = waited
  later e gave_up = gave_up
  later e (refused due refusal rest) =
      refused (record { seen = Memᴰ.tail due.seen; ready = due.ready; target = due.target }) refusal
        (later e rest)
  later e (accepted due consent) =
      accepted (record { seen = Memᴰ.tail due.seen; ready = due.ready; target = due.target })
        consent

  -- A try sends nothing, or one request that it answers for.
  abbrev IsTry : Moment → StartedPod → Bool × List Action → Type 0
  IsTry now p result =
      (result ≡ (false, []))
      ⊎ ((ip : String) × (req : RtRequest) × IsTarget now p ip req
          × (result ≡ (now.sends ip req, posts ip req ∷ [])))

  post-IsTry :
      (now : Moment) (p : StartedPod) (addresses : List Address) (ids : List String)
      → now.get_node p.pod.node_name ≡ some addresses
      → (internal_ip addresses == "") ≡ false
      → p.container_ids ≡ ids
      → IsTry now p (post now rt (internal_ip addresses) ids)
  post-IsTry now p addresses [] e reach f = inl refl
  post-IsTry now p addresses (id ∷ ids) e reach f = elim (Bool-cases (id == "")) [
    | inl g ↦ inl (rw g refl)
    | inr g ↦ inr (
      internal_ip addresses,
      rt_request rt id,
      record {
        addresses = addresses;
        node_found = e;
        address_is = refl;
        reachable = reach;
        id = id;
        ids = ids;
        first_is = f;
        known = g;
        request_is = refl;
      },
      rw g refl,
    )
  ]

  apply-IsTry :
      (now : Moment) (p : StartedPod) → IsTry now p (apply_rt_settings_via_daemon now rt p)
  unfolding apply_rt_settings_via_daemon
  apply-IsTry now p = elim (Option-cases (now.get_node p.pod.node_name)) [
    | inl e ↦ inl (rw e refl)
    | inr (addresses, e) ↦ elim (Bool-cases (internal_ip addresses == "")) [
      | inl f ↦ inl (rw (e, f) refl)
      | inr f ↦ rw (e, f) (post-IsTry now p addresses p.container_ids e f refl)
    ]
  ]

  abbrev IsRun : List Event → Progress × List Action → Type 0
  IsRun events run = IsOrderly events run.0 run.1

  attempt-IsRun :
      (now : Moment) (p : StartedPod) (events : List Event) (result : Bool × List Action)
      (rest : Progress × List Action)
      → IsReady p
      → IsTry now p result
      → IsRun events rest
      → IsRun (tick now (found p) ∷ events) (attempt now result p.pod rest)
  attempt-IsRun now p events result rest ready (inl e) run = rw e (later (tick now (found p)) run)
  attempt-IsRun now p events result rest ready (inr (ip, req, target, e)) run =
      let due : IsDue (tick now (found p) ∷ events) now p ip req = record {
        seen = Memᴰ.head refl;
        ready = ready;
        target = target;
      } in
      elim (Bool-cases (now.sends ip req)) [
        | inl consent ↦ rw (e, consent) (accepted due consent)
        | inr refusal ↦ rw (e, refusal) (refused due refusal (later (tick now (found p)) run))
      ]

  try_pod-IsRun :
      (now : Moment) (p : StartedPod) (events : List Event) (rest : Progress × List Action)
      → IsRun events rest
      → IsRun (tick now (found p) ∷ events) (try_pod now rt p rest)
  try_pod-IsRun now p events rest run = elim (Bool-cases (p.pod.node_name == "")) [
    | inl e ↦ simp e (later (tick now (found p)) run)
    | inr e ↦ elim (Bool-cases p.running) [
      | inr f ↦ simp (e, f) (later (tick now (found p)) run)
      | inl f ↦ elim (Bool-cases (is_true "mckube.io/rt-configured" p.pod)) [
        | inl g ↦ simp (e, f, g) gave_up
        | inr g ↦
            simp (e, f, g)
              (attempt-IsRun now p events (apply_rt_settings_via_daemon now rt p) rest
                (record { scheduled = e; runs = f; unmarked = g }) (apply-IsTry now p) run)
      ]
    ]
  ]

  configure-IsRun : (events : List Event) → IsRun events (configure rt events)
  unfolding configure
  configure-IsRun [] = waited
  configure-IsRun (timeout ∷ events) = gave_up
  configure-IsRun (tick now not_found ∷ events) = gave_up
  configure-IsRun (tick now failed ∷ events) = later (tick now failed) (configure-IsRun events)
  configure-IsRun (tick now (found p) ∷ events) =
      try_pod-IsRun now p events (configure rt events) (configure-IsRun events)

  -- Whatever the API server and the daemons answer at each tick, the goroutine sends requests that are
  -- refused, until one is accepted: then it tries to mark that pod as configured
  -- and as not pending, whatever comes of it, and is done. Each request goes to the node of a pod that
  -- was found at that tick scheduled, running and not marked, with the settings, the low runtime and
  -- its first container. It is not done without a request that was accepted.
  pub schedule_rt_configuration-IsOrderly :
      (pod : Pod) (events : List Event)
      → let run = schedule_rt_configuration pod rt events in IsOrderly events run.0 run.1
  unfolding schedule_rt_configuration
  schedule_rt_configuration-IsOrderly pod events =
      elim (Bool-cases (is_true "mckube.io/rt-configured" pod)) [
        | inl e ↦ rw e gave_up
        | inr e ↦ rw e (configure-IsRun events)
      ]
