-- ===== src/Webhook/Configuration.antt =====
-- internal/webhook/pod_mutator.go: the goroutine that waits for the containers and asks the daemon of
-- the node. Its ticker and its timeout are a list of events, each tick with what the API server and
-- the daemons answer then.
pub mod Orderly
pub mod Ending
pub mod Tests
use mc_kube.Prelude.{
  String, Bool, true, false, List, [], ◌∷◌, Option, none, some, insert, string_eq, ◌==◌, ◌++◌, ℤ,
  if◌then◌else◌,
}
use mc_kube.Prelude.Text.{behind_last}
use mc_kube.Api.{RtSettings}
use mc_kube.Webhook.Mutator.{Pod, is_true}

-- A pod as the goroutine reads it: with its phase and the identifiers of its containers' statuses.
pub record StartedPod : Type 0 where
  pub pod : Pod
  pub running : Bool
  pub container_ids : List String

-- An error whose text holds "not found" is told apart from the others.
pub data Answer : Type 0 where
  not_found : Answer
  failed : Answer
  found : StartedPod → Answer

pub record Address : Type 0 where
  pub kind : String
  pub address : String

-- The body of the request to the daemon.
pub record RtRequest : Type 0 where
  pub container_id : String
  pub period : ℤ
  pub runtime : ℤ
  pub core : Option String

-- What is tried: a request to an address, and a patch of one annotation of a pod, given by its name
-- and namespace, with whether it came through.
pub data Action : Type 0 where
  posts : String → RtRequest → Action
  tries_patch : String → String → String → String → Bool → Action

-- The answers at one tick: the addresses of a node, whether the daemon at an address answers a request
-- with 200, and whether a patch of this annotation of this pod comes through. The patch has the
-- context of the admission request; where that is cancelled already, none does.
pub record Moment : Type 0 where
  pub get_node : String → Option (List Address)
  pub sends : String → RtRequest → Bool
  pub takes_patch : String → String → String → String → Bool

pub data Event : Type 0 where
  timeout : Event
  tick : Moment → Answer → Event

-- Whether the goroutine is still waiting, gave up, or is done after a request that was accepted.
pub data Progress : Type 0 where
  waiting : Progress
  stopped : Progress
  applied : Progress

unfoldable pub internal_ip : List Address → String
internal_ip [] = ""
internal_ip (a ∷ addresses) =
    let rest = internal_ip addresses in if a.kind == "InternalIP" then a.address else rest

abbrev pub id_of : String → Option String → String
id_of whole none = whole
id_of whole (some rest) = rest

unfoldable pub bare_id : String → String
bare_id container_id = id_of container_id (behind_last "://" container_id)

unfoldable pub rt_request : RtSettings → String → RtRequest
unfolding bare_id
rt_request rt container_id = record {
  container_id = bare_id container_id;
  period = rt.period;
  runtime = rt.runtime_low;
  core = rt.core;
}

module _ (now : Moment) where
  -- The pod with the annotation, and the patch, which is the difference. An error is only logged.
  unfoldable pub update_pod_rt_annotation : Pod → String → String → Pod × Action
  update_pod_rt_annotation pod key value = (
    record pod { annotations = insert key value pod.annotations },
    tries_patch pod.name pod.namespace key value (now.takes_patch pod.name pod.namespace key value),
  )

  abbrev pub post : RtSettings → String → List String → Bool × List Action
  post rt node_ip [] = (false, [])
  post rt node_ip (id ∷ ids) =
      if id == ""
      then (false, [])
      else (now.sends node_ip (rt_request rt id), posts node_ip (rt_request rt id) ∷ [])

  abbrev pub post_at : RtSettings → List String → Option (List Address) → Bool × List Action
  post_at rt ids none = (false, [])
  post_at rt ids (some addresses) =
      if internal_ip addresses == "" then (false, []) else post rt (internal_ip addresses) ids

  unfoldable pub apply_rt_settings_via_daemon : RtSettings → StartedPod → Bool × List Action
  unfolding internal_ip rt_request
  apply_rt_settings_via_daemon rt p = post_at rt p.container_ids (now.get_node p.pod.node_name)

  abbrev pub marks_of : Pod → List Action
  marks_of pod =
      let (once, first) = update_pod_rt_annotation pod "mckube.io/rt-configured" "true" in
      let (twice, second) = update_pod_rt_annotation once "mckube.io/rt-pending" "false" in
      first ∷ second ∷ []

  -- The rest of the loop is run where this tick does not end it.
  abbrev pub attempt : Bool × List Action → Pod → Progress × List Action → Progress × List Action
  attempt (true, sent) pod rest = (applied, sent ++ marks_of pod)
  attempt (false, sent) pod rest = (rest.0, sent ++ rest.1)

  abbrev pub try_pod : RtSettings → StartedPod → Progress × List Action → Progress × List Action
  try_pod rt p rest =
      if p.pod.node_name == ""
      then rest
      else if p.running
      then if is_true "mckube.io/rt-configured" p.pod
        then (stopped, [])
        else attempt (apply_rt_settings_via_daemon rt p) p.pod rest
      else rest

abbrev pub react : RtSettings → Event → Progress × List Action → Progress × List Action
react rt timeout rest = (stopped, [])
react rt (tick now not_found) rest = (stopped, [])
react rt (tick now failed) rest = rest
react rt (tick now (found p)) rest = try_pod now rt p rest

unfoldable pub configure : RtSettings → List Event → Progress × List Action
unfolding apply_rt_settings_via_daemon update_pod_rt_annotation
configure rt [] = (waiting, [])
configure rt (event ∷ events) = react rt event (configure rt events)

unfoldable pub schedule_rt_configuration : Pod → RtSettings → List Event → Progress × List Action
unfolding configure
schedule_rt_configuration pod rt events =
    if is_true "mckube.io/rt-configured" pod then (stopped, []) else configure rt events
