-- ===== src/Webhook/Configuration/Tests.antt =====
-- internal/webhook/pod_mutator.go: the goroutine at a pod that is refused once and then accepted.
use mc_kube.Prelude.{
  ◌≡◌, refl, String, Bool, true, false, List, [], ◌∷◌, ◌++◌, Option, none, some, lookup, string_eq,
  pos,
}
use mc_kube.Prelude.Float.{Millionths, millionths}
use mc_kube.Prelude.Sort.{insertion}
use mc_kube.Api.{RtSettings, Mckube}
use mc_kube.Webhook.Mutator.{Pod, mutated, annotate, handle}
use mc_kube.Webhook.Configuration.{
  StartedPod, failed, found, Moment, Event, tick, Address, applied, internal_ip, rt_request,
  schedule_rt_configuration,
}
use mc_kube.Webhook.Configuration.Orderly.{
  IsReady, IsTarget, IsOrderly, schedule_rt_configuration-IsOrderly,
}
use mc_kube.Webhook.Configuration.Ending.{handle-schedule_rt_configuration}

abbrev settings : RtSettings
settings = record {
  period = pos 1000000;
  runtime_low = pos 200000;
  runtime_hi = pos 500000;
  core = some "1";
}

abbrev cr : Mckube
cr = record {
  name = "control-rt";
  namespace = "plant";
  spec = record {
    node = "n1";
    pod_name = "control";
    criticality = "HIGH";
    pressured_deadlines_total = pos 3;
    pressured_deadlines_period = pos 10;
    rt_settings = some settings;
  };
  status = record { current_runtime = ""; last_overrun_time = none; allocated_core = "" };
}

abbrev pod : Pod
pod = record { name = "control"; namespace = "plant"; node_name = ""; annotations = [] }

abbrev started : StartedPod
started = record {
  pod = record pod { node_name = "n1" };
  running = true;
  container_ids = "containerd://c1" ∷ [];
}

abbrev get_node : String → Option (List Address)
get_node name = some (
    record { kind = "Hostname"; address = "n1" }
    ∷ record { kind = "InternalIP"; address = "10.0.0.1" }
    ∷ [])

-- The daemon refuses the request at one moment and accepts it at the next. No patch comes through.
abbrev at_moment : Bool → Moment
at_moment accepts = record {
  get_node = get_node;
  sends = λ ip req. accepts;
  takes_patch = λ name namespace key value. false;
}

abbrev before : List Event
before = tick (at_moment true) failed ∷ tick (at_moment false) (found started) ∷ []

abbrev events : List Event
events = before ++ tick (at_moment true) (found started) ∷ []

schedule_rt_configuration-IsOrderly_example :
    let run = schedule_rt_configuration pod settings events in IsOrderly settings events run.0 run.1
schedule_rt_configuration-IsOrderly_example =
    schedule_rt_configuration-IsOrderly settings pod events

ip_found :
    internal_ip (
      record { kind = "Hostname"; address = "n1" }
      ∷ record { kind = "InternalIP"; address = "10.0.0.1" }
      ∷ [])
    ≡ "10.0.0.1"
unfolding internal_ip
ip_found = refl

started-IsReady : IsReady settings started
unfolding lookup
started-IsReady = record { scheduled = refl; runs = refl; unmarked = refl }

started-IsTarget :
    IsTarget settings (at_moment true) started "10.0.0.1" (rt_request settings "containerd://c1")
started-IsTarget = record {
  addresses =
      record { kind = "Hostname"; address = "n1" }
      ∷ record { kind = "InternalIP"; address = "10.0.0.1" }
      ∷ [];
  node_found = refl;
  address_is = ip_found;
  reachable = refl;
  id = "containerd://c1";
  ids = [];
  first_is = refl;
  known = refl;
  request_is = refl;
}

mutates :
    handle Millionths insertion [] false (λ namespace. some (cr ∷ [])) none (some pod)
    ≡ mutated (annotate settings pod) none settings
unfolding handle lookup
mutates = refl

handle-schedule_rt_configuration_example :
    (schedule_rt_configuration (annotate settings pod) settings events).0 ≡ applied
unfolding lookup
handle-schedule_rt_configuration_example =
    handle-schedule_rt_configuration Millionths insertion [] false (λ namespace. some (cr ∷ []))
      none pod (annotate settings pod) none settings before [] (at_moment true) started "10.0.0.1"
      (rt_request settings "containerd://c1") mutates (tt, (refl, tt)) started-IsReady
      started-IsTarget refl
