-- ===== src/Controller/Tests.antt =====
-- internal/controller/mckube_controller.go: the theorems at a concrete pod and pool.
use mc_kube.Prelude.{
  ◌≡◌, Bool, refl, String, true, List, [], ◌∷◌, Option, none, some, All, ◌+ℤ◌, wrap64, string_eq,
  int_eq, lookup, IsMap, ℤ, pos,
}
use mc_kube.Prelude.Float.{Millionths, millionths}
use mc_kube.Api.{RtSettings, Mckube}
use mc_kube.CpuPool.{PodInfo, CpuCoreInfo, CpuPool}
use mc_kube.CpuPool.Accounting.{total, IsSound, ArePoolsSound}
use mc_kube.Controller.PoolUpdate.{Pod, refresh_pool}
use mc_kube.Controller.Registered.{Agrees, refresh_pool-Agrees}
use mc_kube.Controller.Runtime.{
  RunningPod, CgroupRequest, RuntimeState, target_of, handle_overrun_event,
}
use mc_kube.Controller.Recovery.{IsRevertible}
use mc_kube.Controller.Overrun.{IsRaised, handle_overrun_event-IsRaised}
use mc_kube.Controller.Upkeep.{
  Upkeep, updates, deletes_pod, deletes_cr, initializes, attend_all, attend_all-ArePoolsSound,
}

abbrev batch : PodInfo
batch = record {
  name = "batch";
  namespace = "plant";
  criticality = "LOW";
  cpu_millis = pos 600;
  core_set = pos 0 ∷ [];
}

abbrev control : PodInfo
control = record {
  name = "control";
  namespace = "plant";
  criticality = "HIGH";
  cpu_millis = pos 200;
  core_set = pos 0 ∷ pos 1 ∷ [];
}

abbrev pool : CpuPool
pool = record {
  node_name = "n1";
  cores =
      (pos 0, record { core_id = pos 0; pods = ("batch", batch) ∷ []; usage_millis = pos 600 })
      ∷ (pos 1, record { core_id = pos 1; pods = []; usage_millis = pos 0 })
      ∷ [];
}

pool-IsSound : IsSound pool
unfolding wrap64 total ◌+ℤ◌ lookup
pool-IsSound = record {
  cores_counted = (
    record { counted = refl; distinct = (refl, tt) },
    (record { counted = refl; distinct = tt }, tt),
  );
  cores_distinct = (refl, (refl, tt));
}

refresh_pool-Agrees_example : All (Agrees control (refresh_pool control pool)) control.core_set
refresh_pool-Agrees_example = refresh_pool-Agrees control pool

abbrev OrAbsent : Option CpuCoreInfo → Type 0
OrAbsent none = Unit
OrAbsent (some core) = lookup "batch" core.pods ≡ none

abbrev marks : List (String × ℤ)
marks = ("a", pos 5000000000) ∷ ("b", pos 38000000000) ∷ []

marks-IsMap : IsMap marks
unfolding lookup
marks-IsMap = (refl, (refl, tt))

abbrev cr : Mckube
cr = record {
  name = "control-rt";
  namespace = "plant";
  spec = record {
    node = "n1";
    pod_name = "control";
    criticality = "HIGH";
    pressured_deadlines_total = pos 3;
    pressured_deadlines_period = pos 10;
    rt_settings = some (record {
      period = pos 1000000;
      runtime_low = pos 200000;
      runtime_hi = pos 500000;
      core = some "0,1";
    });
  };
  status = record { current_runtime = ""; last_overrun_time = none; allocated_core = "" };
}

abbrev pod : Pod
pod = record { name = "control"; namespace = "plant"; node_name = "n1" }

abbrev upkeep : List Upkeep
upkeep =
    initializes "control"
    ∷ updates pod cr
    ∷ updates pod cr
    ∷ deletes_cr (("control", true) ∷ [])
    ∷ deletes_pod "control"
    ∷ []

attend_all-ArePoolsSound_example :
    ArePoolsSound
      (attend_all Millionths upkeep (record { pod_runtime_state = []; pools = [] })).pools
attend_all-ArePoolsSound_example =
    attend_all-ArePoolsSound Millionths upkeep (record { pod_runtime_state = []; pools = [] }) tt

abbrev running : RunningPod
running = record {
  name = "control";
  node_name = "n1";
  app = "brake";
  host_ip = "10.0.0.1";
  container_ids = "c1" ∷ "" ∷ [];
}

abbrev list_crs : RunningPod → Option (List Mckube)
list_crs p = some (cr ∷ [])

abbrev cr_settings : RtSettings
cr_settings = record {
  period = pos 1000000;
  runtime_low = pos 200000;
  runtime_hi = pos 500000;
  core = some "0,1";
}

running-IsRevertible : IsRevertible list_crs running
unfolding target_of
running-IsRevertible = record {
  items = cr ∷ [];
  cr = cr;
  rt = cr_settings;
  listed = refl;
  named = refl;
  settled = refl;
  addressed = refl;
}

abbrev runtime_states : RuntimeState
runtime_states = record {
  pod_runtime_state = ("control", "hi") ∷ [];
  pressure_state = [];
  processing_nodes = ("n1", true) ∷ [];
  requests = [];
  status_updates = [];
}

-- A daemon that takes every request.
abbrev willing_daemon : String → CgroupRequest → Bool
willing_daemon node_ip req = true

abbrev low_states : RuntimeState
low_states = record runtime_states { pod_runtime_state = ("control", "low") ∷ [] }

handle_overrun_event-IsRaised_example :
    IsRaised willing_daemon
      (pos 7)
      "c1"
      running
      running-IsRevertible.rt
      low_states
      (handle_overrun_event willing_daemon (pos 7) "c1" list_crs (some running) low_states)
handle_overrun_event-IsRaised_example =
    handle_overrun_event-IsRaised willing_daemon (pos 7) "c1" list_crs running low_states
      running-IsRevertible
