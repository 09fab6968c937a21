-- ===== src/CpuPool/Store.antt =====
-- internal/cpupool/cpupool.go: the pool singleton and the methods of a pool.
use mc_kube.Prelude.{
  ℕ, zero, suc, ◌+◌, String, Bool, true, false, ◌||◌, List, [], ◌∷◌, Option, none, some, lookup,
  insert, delete, string_eq, int_eq, ◌==◌, ℤ, pos, negsuc, ◌+ℤ◌, ◌-ℤ◌, wrap64, ltb_ℤ, if◌then◌else◌,
}
use mc_kube.Prelude.Float.{Float64, millis}
use mc_kube.CpuPool.{PodInfo, CpuCoreInfo, CpuPool, Pools, values}

-- `pool.Cores[i] = &CPUCoreInfo{CoreID: i, …}` for the `n` cores from `i` on.
unfoldable pub fresh_cores : ℕ → ℕ → List (ℤ × CpuCoreInfo)
fresh_cores zero i = []
fresh_cores (suc n) i =
    (pos i, record { core_id = pos i; usage_millis = pos 0; pods = [] }) ∷ fresh_cores n (i + 1)

-- The pool returned is the one that stands under the node's name in the new state.
unfoldable pub get_or_create_cpu_pool : String → ℕ → Pools → CpuPool × Pools
unfolding fresh_cores
get_or_create_cpu_pool node_name num_cores pools = elim (lookup node_name pools) [
  | some pool ↦ (pool, pools)
  | none ↦
      let pool : CpuPool = record { node_name = node_name; cores = fresh_cores num_cores 0 } in
      (pool, insert node_name pool pools)
]

unfoldable pub get_pool_for_node : String → Pools → Option CpuPool
get_pool_for_node node_name pools = lookup node_name pools

-- A write through a `*CPUPool` that `globalPools` holds under this name.
unfoldable pub update_pool : String → (CpuPool → CpuPool) → Pools → Pools
update_pool node_name f [] = []
update_pool node_name f ((n, pool) ∷ pools) =
    (n, if n == node_name then f pool else pool) ∷ update_pool node_name f pools

-- The body of the inner loop of `RemovePodFromPool`, and of `RemovePodFromCore`.
unfoldable pub take_pod : String → CpuCoreInfo → CpuCoreInfo × Bool
take_pod pod_name core = elim (lookup pod_name core.pods) [
  | some pi ↦ (
    record core {
      usage_millis = wrap64 (core.usage_millis -ℤ pi.cpu_millis);
      pods = delete pod_name core.pods;
    },
    true,
  )
  | none ↦ (core, false)
]

unfoldable pub take_from_cores : String → List (ℤ × CpuCoreInfo) → List (ℤ × CpuCoreInfo) × Bool
unfolding take_pod
take_from_cores pod_name [] = ([], false)
take_from_cores pod_name ((id, core) ∷ cores) =
    let (core', hit) = take_pod pod_name core in
    let (cores', later) = take_from_cores pod_name cores in ((id, core') ∷ cores', hit || later)

-- The new state, and whether an entry was removed.
unfoldable pub remove_pod_from_pool : String → Pools → Pools × Bool
unfolding take_from_cores
remove_pod_from_pool pod_name [] = ([], false)
remove_pod_from_pool pod_name ((n, pool) ∷ pools) =
    let (cores, hit) = take_from_cores pod_name pool.cores in
    let (pools', later) = remove_pod_from_pool pod_name pools in
    ((n, record pool { cores = cores }) ∷ pools', hit || later)

-- `existingPods[podName]`: a missing name reads as false.
abbrev pub is_set : Option Bool → Bool
is_set none = false
is_set (some b) = b

unfoldable pub exists_pod : List (String × Bool) → String → Bool
exists_pod existing_pods pod_name = is_set (lookup pod_name existing_pods)

-- The innermost loop of `RemovePodsNotIn`: the usage left, and the pods kept.
unfoldable pub purge_pods :
    List (String × Bool) → ℤ → List (String × PodInfo) → ℤ × List (String × PodInfo)
purge_pods existing_pods usage [] = (usage, [])
purge_pods existing_pods usage ((pod_name, pi) ∷ pods) =
    let keep = exists_pod existing_pods pod_name in
    let (usage', kept) =
      purge_pods existing_pods (if keep then usage else wrap64 (usage -ℤ pi.cpu_millis)) pods in
    (usage', if keep then (pod_name, pi) ∷ kept else kept)

unfoldable pub purge_core : List (String × Bool) → CpuCoreInfo → CpuCoreInfo
unfolding purge_pods
purge_core existing_pods core =
    let (usage, pods) = purge_pods existing_pods core.usage_millis core.pods in
    record core { usage_millis = usage; pods = pods }

unfoldable pub map_values {ℓ κ} : {K : Type ℓ} {V : Type κ} → (V → V) → List (K × V) → List (K × V)
map_values f [] = []
map_values f ((k, v) ∷ m) = (k, f v) ∷ map_values f m

unfoldable pub remove_pods_not_in : List (String × Bool) → Pools → Pools
unfolding purge_core map_values
remove_pods_not_in existing_pods pools =
    map_values (λ pool. record pool { cores = map_values (purge_core existing_pods) pool.cores })
      pools

unfoldable pub get_core_utilization : {F : Type 0} ⦃fl : Float64 F⦄ → CpuPool → ℤ → F
get_core_utilization ⦃fl⦄ p core_id = elim (lookup core_id p.cores) [
  | none ↦ fl.decimal 0 0
  | some core ↦ millis core.usage_millis
]

unfoldable pub add_pod_to_core : ℤ → PodInfo → CpuPool → CpuPool
add_pod_to_core core_id pod p = elim (lookup core_id p.cores) [
  | none ↦ p
  | some core ↦ record p {
    cores =
        insert core_id
          (record core {
            pods = insert pod.name pod core.pods;
            usage_millis = wrap64 (core.usage_millis +ℤ pod.cpu_millis);
          })
          p.cores;
  }
]

unfoldable pub remove_pod_from_core : ℤ → String → CpuPool → CpuPool
unfolding take_pod
remove_pod_from_core core_id pod_name p = elim (lookup core_id p.cores) [
  | none ↦ p
  | some core ↦ record p { cores = insert core_id (take_pod pod_name core).0 p.cores }
]

unfoldable pub get_pods_on_core : CpuPool → ℤ → List PodInfo
unfolding values
get_pods_on_core p core_id = elim (lookup core_id p.cores) [
  | none ↦ []
  | some core ↦ values core.pods
]

-- The loop of `FindLeastLoadedCore` over `minCore` and `minUsage`.
unfoldable pub least_loaded : ℤ → ℤ → List (ℤ × CpuCoreInfo) → ℤ
least_loaded min_core min_usage [] = min_core
least_loaded min_core min_usage ((core_id, core) ∷ cores) =
    let less = ltb_ℤ core.usage_millis min_usage in
    least_loaded (if less then core_id else min_core)
      (if less then core.usage_millis else min_usage) cores

unfoldable pub find_least_loaded_core : CpuPool → ℤ
unfolding least_loaded
find_least_loaded_core p = least_loaded (negsuc 0) (pos 9223372036854775807) p.cores
