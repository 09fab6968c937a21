-- ===== src/Controller/RoundTests.antt =====
-- internal/controller/mckube_controller.go: the theorems on Reconcile and on preemption at a concrete
-- pod and cluster.
use mc_kube.Prelude.{
  ◌≡◌, refl, String, true, false, [], ◌∷◌, none, some, All, IsMap, lookup, string_eq, int_eq, ℤ,
  pos, ◌+ℤ◌, wrap64, ◌==◌, Bool-cases, inl, inr, ap, ◌∙◌, sym,
}
use mc_kube.Prelude.Float.{Millionths, millionths}
use mc_kube.Prelude.Sort.{insertion}
use mc_kube.Api.{RtSettings, Mckube}
use mc_kube.CpuPool.{PodInfo, CpuPool}
use mc_kube.CpuPool.Accounting.{total, IsSound, ArePoolsSound}
use mc_kube.CpuPool.CoreSet.{code_points, parse_core_set}
use mc_kube.Controller.PoolUpdate.{needs_update}
use mc_kube.Controller.Cluster.{running, ClusterPod, got, Cluster}
use mc_kube.Controller.Preempt.{preempt_cores}
use mc_kube.Controller.Preempt.Lower.{IsOverLower, preempt_cores-IsOverLower}
use mc_kube.Controller.Preempt.Placed.{IsPlaced}
use mc_kube.Controller.Preempt.Placed
use mc_kube.Controller.Preempt.Keeping.{preempt_cores-IsPlaced}
use mc_kube.Controller.Process.{Process, with_pool}
use mc_kube.Controller.Process.Stale.{AreOther, with_pool-KeepsStale}
use mc_kube.Controller.Reconcile.{Resource, done, with_node, contains_string, reconcile}
use mc_kube.Controller.Reconcile.Deletion.{IsReleased, reconcile-IsReleased}
use mc_kube.Controller.Reconcile.Status.{with_status}
use mc_kube.Controller.Reconcile.Settling.{with_finalizer, rounds, rounds_settle}

abbrev pub settings : RtSettings
settings = record {
  period = pos 1000000;
  runtime_low = pos 200000;
  runtime_hi = pos 500000;
  core = some "0";
}

abbrev pub cr_on : String → Mckube
cr_on node = record {
  name = "control-rt";
  namespace = "plant";
  spec = record {
    node = node;
    pod_name = "control";
    criticality = "HIGH";
    pressured_deadlines_total = pos 3;
    pressured_deadlines_period = pos 10;
    rt_settings = some settings;
  };
  status = record { current_runtime = ""; last_overrun_time = none; allocated_core = "1" };
}

abbrev pub control : ClusterPod
control = record {
  name = "control";
  namespace = "plant";
  uid = "u1";
  node_name = "n1";
  host_ip = "10.0.0.1";
  phase = running;
  deleting = false;
  container_ids = "c1" ∷ [];
}

abbrev pub willing : Cluster
willing = record {
  list_mckubes = λ namespace. some (cr_on "n1" ∷ []);
  get_pod = λ namespace name. got control;
  accepts_status = λ cr. true;
  sends = λ node_ip req. true;
  accepts_eviction = λ pod. true;
  answered_at = λ id. pos 7;
}

abbrev pub entry : String → String → ℤ → PodInfo
entry name criticality cpu_millis = record {
  name = name;
  namespace = "plant";
  criticality = criticality;
  cpu_millis = cpu_millis;
  core_set = pos 0 ∷ [];
}

abbrev pool : CpuPool
pool = record {
  node_name = "n1";
  cores =
      (
        pos 0,
        record {
          core_id = pos 0;
          pods = ("batch", entry "batch" "LOW" (pos 800)) ∷ [];
          usage_millis = pos 800;
        },
      )
      ∷ (pos 1, record { core_id = pos 1; pods = []; usage_millis = pos 0 })
      ∷ [];
}

abbrev pub start : Process
start = record {
  controller = record { pod_runtime_state = ("control", "low") ∷ []; pools = ("n1", pool) ∷ [] };
  throttled_victims = [];
}

preempt_cores-IsOverLower_example :
    All
      (IsOverLower Millionths willing pool "HIGH")
      (preempt_cores Millionths willing insertion
        (pos 200)
        "HIGH"
        (pos 0 ∷ pos 1 ∷ [])
        (record { pool = pool; throttled_victims = [] })).1
preempt_cores-IsOverLower_example =
    preempt_cores-IsOverLower Millionths willing insertion (pos 200) "HIGH" (pos 0 ∷ pos 1 ∷ [])
      (record { pool = pool; throttled_victims = [] })

pool-IsSound : IsSound pool
unfolding wrap64 total ◌+ℤ◌ lookup
pool-IsSound = record {
  cores_counted = (
    record { counted = refl; distinct = (refl, tt) },
    (record { counted = refl; distinct = tt }, tt),
  );
  cores_distinct = (refl, (refl, tt));
}

-- The only entry of the pool.
pool_entry :
    (c : ℤ) (name : String) (v : PodInfo)
    → Placed.entry pool c name ≡ some v
    → (pos 0 ≡ c) × (v.name ≡ name)
unfolding lookup
pool_entry c name v h = elim (Bool-cases (pos 0 == c)) [
  | inl hit ↦ elim (Bool-cases ("batch" == name)) [
    | inl own ↦
        let q : entry "batch" "LOW" (pos 800) ≡ v = let k = rw (hit, own) at h in cc k in
        (
          (int_eq.equal_iff (pos 0) c).0 hit,
          ap PodInfo.name (sym q) ∙ (string_eq.equal_iff "batch" name).0 own,
        )
    | inr other ↦ absurd (let q = rw (hit, other) at h in cc q)
  ]
  | inr miss ↦ elim (Bool-cases (pos 1 == c)) [
    | inl hit ↦ absurd (let q = rw (miss, hit) at h in cc q)
    | inr none_there ↦ absurd (let q = rw (miss, none_there) at h in cc q)
  ]
]

pool-IsPlaced : IsPlaced pool
pool-IsPlaced = record {
  sound = pool-IsSound;
  single = λ name c d v w hc hd. sym (pool_entry c name v hc).0 ∙ (pool_entry d name w hd).0;
  keyed = λ name c v h. (pool_entry c name v h).1;
}

preempt_cores-IsPlaced_example :
    IsPlaced
      (preempt_cores Millionths willing insertion
        (pos 200)
        "HIGH"
        (pos 0 ∷ pos 1 ∷ [])
        (record { pool = pool; throttled_victims = [] })).0.pool
preempt_cores-IsPlaced_example =
    preempt_cores-IsPlaced Millionths willing insertion (pos 200) "HIGH" (pos 0 ∷ pos 1 ∷ [])
      (record { pool = pool; throttled_victims = [] }) pool-IsPlaced

pool_there : lookup "n1" start.controller.pools ≡ some pool
unfolding lookup
pool_there = refl

only_core_zero : AreOther (pos 1) (parse_core_set (code_points "0"))
unfolding parse_core_set
only_core_zero = (refl, tt)

not_there : needs_update (entry "control" "HIGH" (pos 200)) pool (pos 1 ∷ []) ≡ true
unfolding needs_update lookup
not_there = refl

with_pool-KeepsStale_example :
    (pool' : CpuPool) × (lookup "n1"
        (with_pool Millionths insertion willing (pos 9) control (cr_on "n1") start).controller.pools
      ≡ some pool')
    × (needs_update (entry "control" "HIGH" (pos 200)) pool' (pos 1 ∷ []) ≡ true)
with_pool-KeepsStale_example =
    with_pool-KeepsStale Millionths insertion willing (pos 9) control (cr_on "n1") settings "0"
      (pos 1) pool start (entry "control" "HIGH" (pos 200)) refl refl pool_there only_core_zero
      not_there

abbrev deleted : Resource
deleted = record {
  mckube = cr_on "n1";
  finalizers = "other" ∷ "mckube.mcoperator.sdv.com/finalizer" ∷ [];
  deleting = true;
}

abbrev created : Resource
created = record { mckube = cr_on ""; finalizers = "other" ∷ []; deleting = false }

has_finalizer : contains_string deleted.finalizers "mckube.mcoperator.sdv.com/finalizer" ≡ true
unfolding contains_string
has_finalizer = refl

no_finalizer : contains_string created.finalizers "mckube.mcoperator.sdv.com/finalizer" ≡ false
unfolding contains_string
no_finalizer = refl

start-ArePoolsSound : ArePoolsSound start.controller.pools
start-ArePoolsSound = (pool-IsSound, tt)

start-IsMap : IsMap start.controller.pod_runtime_state
unfolding lookup
start-IsMap = (refl, tt)

reconcile-IsReleased_example :
    IsReleased "control"
      (reconcile Millionths insertion willing (pos 9) (λ r. true) (got deleted) start)
reconcile-IsReleased_example =
    reconcile-IsReleased Millionths insertion willing (pos 9) (λ r. true) deleted start refl
      has_finalizer refl start-ArePoolsSound start-IsMap

rounds_settle_example :
    let (r', p') = rounds Millionths insertion willing (pos 9) (λ r. true) 5 created start in
    (with_status created.mckube.status r' ≡ with_node (with_finalizer created) "n1")
    × ((reconcile Millionths insertion willing (pos 9) (λ r. true) (got r') p').queued ≡ done)
rounds_settle_example =
    rounds_settle Millionths insertion willing (pos 9) (λ r. true) created start control refl
      no_finalizer refl refl refl (λ r. refl) refl refl refl 3
