-- ===== src/CpuPool/Accounting/History.antt =====
-- internal/cpupool/cpupool.go and the loop of updateCPUPoolForPod: the accounts over every history.
use mc_kube.Prelude.{
  ◌<◌, ℕ, zero, suc, ◌+◌, ◌≡◌, refl, inl, inr, String, Bool, List, [], ◌∷◌, none, lookup, IsMap,
  AllValues, insert-AllValues, string_eq, int_eq, ℤ, pos, wrap64, arith, Bool-cases, Option-cases,
  ◌==◌,
}
use mc_kube.CpuPool.{PodInfo, CpuPool, Pools}
use mc_kube.CpuPool.Store.{
  fresh_cores, get_or_create_cpu_pool, update_pool, remove_pod_from_pool, remove_pods_not_in,
  add_pod_to_core, remove_pod_from_core,
}
use mc_kube.CpuPool.Accounting.Methods.{
  add_pod_to_core-IsSound, remove_pod_from_core-IsSound, remove_pod_from_core-IsAbsent,
}
use mc_kube.CpuPool.Accounting.Bulk.{
  remove_pod_from_pool-ArePoolsSound, remove_pods_not_in-ArePoolsSound,
}
use mc_kube.CpuPool.Accounting.{total, IsCounted, IsSound, ArePoolsSound}

fresh_cores-IsCounted : (n i : ℕ) → AllValues IsCounted (fresh_cores n i)
unfolding fresh_cores total wrap64
fresh_cores-IsCounted zero i = tt
fresh_cores-IsCounted (suc n) i =
    (record { counted = refl; distinct = tt }, fresh_cores-IsCounted n (i + 1))

lookup-fresh_cores : (n i j : ℕ) → j < i → lookup (pos j) (fresh_cores n i) ≡ none
unfolding fresh_cores lookup
lookup-fresh_cores zero i j h = refl
lookup-fresh_cores (suc n) i j h = ground (arith, lookup-fresh_cores n (i + 1) j)

fresh_cores-IsMap : (n i : ℕ) → IsMap (fresh_cores n i)
unfolding fresh_cores
fresh_cores-IsMap zero i = tt
fresh_cores-IsMap (suc n) i =
    (lookup-fresh_cores n (i + 1) i (omega arith), fresh_cores-IsMap n (i + 1))

pub get_or_create-ArePoolsSound :
    (node_name : String) (num_cores : ℕ) (pools : Pools)
    → ArePoolsSound pools
    → ArePoolsSound (get_or_create_cpu_pool node_name num_cores pools).1
unfolding get_or_create_cpu_pool
get_or_create-ArePoolsSound node_name num_cores pools h =
    elim (Option-cases (lookup node_name pools)) [
      | inl e ↦
          rw (e, get_or_create_cpu_pool)
            (insert-AllValues IsSound node_name _ pools h (record {
              cores_counted = fresh_cores-IsCounted num_cores 0;
              cores_distinct = fresh_cores-IsMap num_cores 0;
            }))
      | inr (pool, e) ↦ rw (e, get_or_create_cpu_pool) h
    ]

-- One core of the second loop of `updateCPUPoolForPod`: take the pod out, and enter it anew.
unfoldable pub register_pod : ℤ → PodInfo → CpuPool → CpuPool
register_pod core_id pod p = add_pod_to_core core_id pod (remove_pod_from_core core_id pod.name p)

-- The calls by which the controller changes the pools, but for a migration.
pub data Call : Type 0 where
  creates : String → ℕ → Call
  registers : String → ℤ → PodInfo → Call
  unregisters : String → ℤ → String → Call
  deletes : String → Call
  purges : List (String × Bool) → Call

unfoldable pub step : Call → Pools → Pools
unfolding register_pod
step (creates node n) pools = (get_or_create_cpu_pool node n pools).1
step (registers node core_id pod) pools = update_pool node (register_pod core_id pod) pools
step (unregisters node core_id name) pools =
    update_pool node (remove_pod_from_core core_id name) pools
step (deletes name) pools = (remove_pod_from_pool name pools).0
step (purges existing) pools = remove_pods_not_in existing pools

unfoldable pub run : List Call → Pools → Pools
run [] pools = pools
run (c ∷ calls) pools = run calls (step c pools)

pub update_pool-ArePoolsSound :
    (node : String) (f : CpuPool → CpuPool) (pools : Pools)
    → ((p : CpuPool) → IsSound p → IsSound (f p))
    → ArePoolsSound pools
    → ArePoolsSound (update_pool node f pools)
unfolding update_pool
update_pool-ArePoolsSound node f [] keep h = tt
update_pool-ArePoolsSound node f ((n, p) ∷ pools) keep h = (
  elim (Bool-cases (n == node)) [ inl hit ↦ rw hit (keep p h.0) | inr miss ↦ rw miss h.0 ],
  update_pool-ArePoolsSound node f pools keep h.1,
)

pub register_pod-IsSound :
    (core_id : ℤ) (pod : PodInfo) (p : CpuPool) → IsSound p → IsSound (register_pod core_id pod p)
unfolding register_pod
register_pod-IsSound core_id pod p s =
    add_pod_to_core-IsSound core_id pod (remove_pod_from_core core_id pod.name p)
      (remove_pod_from_core-IsSound core_id pod.name p s)
      (remove_pod_from_core-IsAbsent core_id pod.name p s)

pub step-ArePoolsSound :
    (c : Call) (pools : Pools) → ArePoolsSound pools → ArePoolsSound (step c pools)
unfolding step
step-ArePoolsSound (creates node n) pools h = get_or_create-ArePoolsSound node n pools h
step-ArePoolsSound (registers node core_id pod) pools h =
    update_pool-ArePoolsSound node (register_pod core_id pod) pools
      (register_pod-IsSound core_id pod) h
step-ArePoolsSound (unregisters node core_id name) pools h =
    update_pool-ArePoolsSound node (remove_pod_from_core core_id name) pools
      (remove_pod_from_core-IsSound core_id name) h
step-ArePoolsSound (deletes name) pools h = remove_pod_from_pool-ArePoolsSound name pools h
step-ArePoolsSound (purges existing) pools h = remove_pods_not_in-ArePoolsSound existing pools h

run_from-ArePoolsSound :
    (calls : List Call) (pools : Pools) → ArePoolsSound pools → ArePoolsSound (run calls pools)
unfolding run
run_from-ArePoolsSound [] pools h = h
run_from-ArePoolsSound (c ∷ calls) pools h =
    run_from-ArePoolsSound calls (step c pools) (step-ArePoolsSound c pools h)

-- From the empty singleton, after any calls that create pools, register a pod on a core (out and
-- in again, as updateCPUPoolForPod does), unregister it, delete it or purge the missing ones, the
-- usage of every core is the int64 sum of the budgets of the pods on it, and no pod is on it twice.
pub run-ArePoolsSound : (calls : List Call) → ArePoolsSound (run calls [])
run-ArePoolsSound calls = run_from-ArePoolsSound calls [] tt
