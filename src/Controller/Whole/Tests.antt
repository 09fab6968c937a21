-- ===== src/Controller/Whole/Tests.antt =====
-- internal/controller/mckube_controller.go: a pod that overruns, and the recovery of its node.
use mc_kube.Prelude.{
  ◌≡◌, refl, String, true, false, List, [], ◌∷◌, Option, none, some, lookup, insert, pos, string_eq,
}
use mathlib.Core.List.{Memᴰ}
use mc_kube.Prelude.Text.{behind_first}
use mc_kube.Prelude.Float.{Millionths, millionths}
use mc_kube.Prelude.Sort.{insertion}
use mc_kube.Api.{RtSettings, Mckube}
use mc_kube.Ipvs.Events.{ann_text}
use mc_kube.Controller.Runtime.{
  CgroupRequest, RunningPod, is_hi, target_of, raise_to_hi, handle_overrun_event,
}
use mc_kube.Controller.Recovery.{IsRevertible}
use mc_kube.Controller.Cluster.{absent, got, Cluster, ClusterPod, running, asks}
use mc_kube.Controller.Throttle.{cleanup_expired_throttled_victims, is_victim_throttled}
use mc_kube.Controller.Whole.Panicked.{IsServed, reconcile_whole-panicked}
use mc_kube.Controller.Containers.{serve_overrun, find_pod_by_container_id}
use mc_kube.Controller.Reconcile.{panicked, Resource, mckube_finalizer, contains_string, reconcile}
use mc_kube.Controller.Whole.{World, runtime_of, NodeAnswers, reconcile_whole}
use mc_kube.Controller.Whole.Recovered.{HasRecovered, reconcile_whole-recovered}
use mc_kube.Controller.Whole.Run.{Overrun, overrun_world, Reach, overruns, here, next}

abbrev settings : RtSettings
settings = record {
  period = pos 1000000;
  runtime_low = pos 200000;
  runtime_hi = pos 500000;
  core = some "0";
}

abbrev cr : Mckube
cr = record {
  name = "control-rt";
  namespace = "plant";
  spec = record {
    node = "n1";
    pod_name = "control";
    criticality = "HIGH";
    pressured_deadlines_total = pos 3;
    pressured_deadlines_period = pos 10;
    rt_settings = some settings;
  };
  status = record { current_runtime = ""; last_overrun_time = none; allocated_core = "0" };
}

abbrev control : RunningPod
control = record {
  name = "control";
  node_name = "n1";
  app = "control";
  host_ip = "10.0.0.1";
  container_ids = "c1" ∷ [];
}

abbrev list_crs : RunningPod → Option (List Mckube)
list_crs pod = some (cr ∷ [])

abbrev start : World
start = record {
  process = record {
    controller = record { pod_runtime_state = []; pools = [] };
    throttled_victims = [];
  };
  pressure_state = [];
  processing_nodes = [];
  last_cpu_busy_state = ("n1", true) ∷ [];
  requests = [];
  status_updates = [];
}

abbrev overrun : Overrun
overrun = record {
  sends = λ node_ip req. true;
  now = pos 7;
  list_mckubes = list_crs;
  list_pods = some (record { pod = control; init_ids = [] } ∷ []);
  is_post = true;
  body = some (record { node_name = "n1"; container_id = "c1" });
}

raised : is_hi "control" (runtime_of (overrun_world overrun start)) ≡ true
unfolding serve_overrun find_pod_by_container_id behind_first handle_overrun_event raise_to_hi
    target_of is_hi lookup insert
raised = refl

-- Raised by the first of two reports; the second finds the pod high.
abbrev reported_twice :
    Reach Millionths insertion start (overrun_world overrun (overrun_world overrun start))
reported_twice =
    next (next here (overruns overrun start)) (overruns overrun (overrun_world overrun start))

abbrev quiet_node : List (String × String)
quiet_node = ("mckube.sdv.com/isCpuBusy", "false") ∷ []

abbrev answers : NodeAnswers
answers = record {
  annotations_of = λ node_name. some quiet_node;
  list_pods = some (control ∷ []);
  list_mckubes = list_crs;
  press = λ node_name pressure_state. none;
}

abbrev cluster : Cluster
cluster = record {
  list_mckubes = λ namespace. none;
  get_pod = λ namespace name. absent;
  accepts_status = λ cr. true;
  sends = λ node_ip req. true;
  accepts_eviction = λ pod. true;
  answered_at = λ id. pos 7;
}

abbrev resource : Resource
resource = record { mckube = cr; finalizers = mckube_finalizer ∷ []; deleting = false }

control-IsRevertible : IsRevertible list_crs control
unfolding target_of
control-IsRevertible = record {
  items = cr ∷ [];
  cr = cr;
  rt = settings;
  listed = refl;
  named = refl;
  settled = refl;
  addressed = refl;
}

start-HasRecovered : HasRecovered answers "n1" (overrun_world overrun start)
unfolding ann_text lookup
start-HasRecovered = record {
  ann = quiet_node;
  text = "false";
  readable = refl;
  present = refl;
  quiet = refl;
  was_busy = refl;
}

reconcile_whole-recovered_example :
    (w' : World) × (reconcile_whole answers Millionths insertion cluster
        (pos 9)
        (λ r. true)
        (got resource)
        (overrun_world overrun start)
      ≡ some (
        w',
        reconcile Millionths insertion cluster
            (pos 9)
            (λ r. true)
            (got resource)
            (overrun_world overrun start).process,
        [],
      ))
    × (is_hi "control" (runtime_of w') ≡ false)
unfolding contains_string
reconcile_whole-recovered_example =
    reconcile_whole-recovered answers (control ∷ []) control refl (Memᴰ.head refl) refl
      control-IsRevertible Millionths insertion cluster (pos 9) (λ r. true) resource
      (overrun_world overrun start) refl refl start-HasRecovered refl

abbrev bare_settings : RtSettings
bare_settings = record settings { core = none }

abbrev bare_cr : Mckube
bare_cr = record cr {
  spec = record cr.spec { rt_settings = some bare_settings };
  status = record cr.status { allocated_core = "" };
}

abbrev bare_resource : Resource
bare_resource = record resource { mckube = bare_cr }

abbrev served : ClusterPod
served = record {
  name = "control";
  namespace = "plant";
  uid = "u1";
  node_name = "n1";
  host_ip = "10.0.0.1";
  phase = running;
  deleting = false;
  container_ids = "c1" ∷ [];
}

abbrev serving : Cluster
serving = record cluster { get_pod = λ namespace name. got served }

served-IsServed : IsServed (pos 9) (cleanup_expired_throttled_victims (pos 9) []) served
unfolding lookup cleanup_expired_throttled_victims is_victim_throttled
served-IsServed = record {
  scheduled = refl;
  runs = refl;
  stays = refl;
  addressed = refl;
  unthrottled = refl;
  id = "c1";
  ids = [];
  contained = refl;
  known = refl;
}

reconcile_whole-panicked_example :
    let round =
      reconcile Millionths insertion serving
        (pos 9)
        (λ r. true)
        (got bare_resource)
        start.process in
    (reconcile_whole answers Millionths insertion serving
        (pos 9)
        (λ r. true)
        (got bare_resource)
        start
      ≡ some (record start { process = round.process }, round, []))
    × (round.queued ≡ panicked)
    × (req : CgroupRequest) × (round.effects ≡ asks served req ∷ [])
unfolding contains_string
reconcile_whole-panicked_example =
    reconcile_whole-panicked Millionths insertion serving (pos 9) answers (λ r. true) bare_resource
      bare_settings served start refl refl refl refl refl served-IsServed
