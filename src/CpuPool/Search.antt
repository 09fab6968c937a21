-- ===== src/CpuPool/Search.antt =====
-- internal/cpupool/cpupool.go: SelectBestNodeAndCore and CheckNodeCoreFeasibility.
use mc_kube.Prelude.{
  ℕ, zero, suc, ◌+◌, String, Bool, true, false, ◌&&◌, List, [], ◌∷◌, Option, none, some, lookup,
  string_eq, int_eq, nat_eq, ◌==◌, ℤ, pos, ltb, ltb_ℤ, leb_ℤ, filter, keys, length, if◌then◌else◌,
}
use mc_kube.Prelude.Float.{Float64, millis}
use mc_kube.Prelude.Sort.{Sorter}
use mc_kube.CpuPool.{PodInfo, CpuCoreInfo, CpuPool, Pools, values, default_num_cores}
use mc_kube.CpuPool.Victims.{pool_eviction_lookahead, greedy_min_victims}

-- What the search reads of a `corev1.Node`: its name and `Status.Capacity[cpu].Value()`.
pub record Node : Type 0 where
  pub name : String
  pub cpu_capacity : Option ℤ

pub record FeasibilityResult : Type 0 where
  pub feasible : Bool
  pub selected_node_name : String
  pub selected_core_id : ℤ
  pub victim_pod_names : List String

pub record Candidate (F : Type 0) : Type 0 where
  pub node_name : String
  pub core_id : ℤ
  pub free : F
  pub victims : List String

unfoldable pub num_cores : Option ℤ → ℕ
num_cores (some (pos (suc n))) = suc n
num_cores _ = default_num_cores

unfoldable pub filter_valid_cores : List ℤ → ℕ → List ℤ
filter_valid_cores preferred n = filter (λ c. leb_ℤ (pos 0) c && ltb_ℤ c (pos n)) preferred

-- `toCheck[j] = j`, for the `n` cores from `j` on.
unfoldable pub first_cores : ℕ → ℕ → List ℤ
first_cores zero j = []
first_cores (suc n) j = pos j ∷ first_cores n (j + 1)

unfoldable pub cores_to_check : List ℤ → ℕ → Option CpuPool → List ℤ
unfolding filter_valid_cores first_cores
cores_to_check (c ∷ preferred) n pool = filter_valid_cores (c ∷ preferred) n
cores_to_check [] n (some pool) = keys pool.cores
cores_to_check [] n none = first_cores n 0

-- The core as the search reads it: no pool and no such core are alike.
unfoldable pub core_of : Option CpuPool → ℤ → Option CpuCoreInfo
core_of none core_id = none
core_of (some pool) core_id = lookup core_id pool.cores

module _ {F : Type 0} ⦃fl : Float64 F⦄ where
  unfoldable pub free_of : Option CpuCoreInfo → F
  free_of none = fl.sub (fl.decimal 95 2) (fl.decimal 0 0)
  free_of (some core) = fl.sub (fl.decimal 95 2) (millis core.usage_millis)

-- In the order in which this call meets them. Another call on the same core may meet them in another
-- order, and is then on another listing of it.
abbrev pub pods_of : Option CpuCoreInfo → List PodInfo
pods_of none = []
pods_of (some core) = values core.pods

-- How one core takes the pod: with room to spare, after evictions, or not at all.
pub data Verdict : Type 0 where
  direct : Verdict
  with_evict : List String → Verdict
  refused : Verdict

module _ {F : Type 0} ⦃fl : Float64 F⦄ (s : Sorter) (required_budget : F) (incoming : String) where
  unfoldable pub judge : Option CpuCoreInfo → Verdict
  unfolding free_of
  judge core =
      let free : F = free_of core in
      let (evict_cands, evict_budget) = pool_eviction_lookahead (pods_of core) incoming in
      if fl.le required_budget free
      then direct
      else if fl.le required_budget (fl.add free evict_budget)
      then with_evict (greedy_min_victims s evict_cands (fl.sub required_budget free))
      else refused

  -- One round of the inner loop, on the slices `direct` and `withEvict`.
  unfoldable pub enter :
      Verdict
      → Candidate F
      → List (Candidate F) × List (Candidate F)
      → List (Candidate F) × List (Candidate F)
  enter direct c (ds, es) = (c ∷ ds, es)
  enter (with_evict names) c (ds, es) = (ds, record c { victims = names } ∷ es)
  enter refused c (ds, es) = (ds, es)

  unfoldable pub check_cores :
      String
      → Option CpuPool
      → List ℤ
      → List (Candidate F) × List (Candidate F)
      → List (Candidate F) × List (Candidate F)
  unfolding judge enter core_of
  check_cores node_name pool [] later = later
  check_cores node_name pool (core_id ∷ cores) later =
      let core = core_of pool core_id in
      enter (judge core)
        (record { node_name = node_name; core_id = core_id; free = free_of core; victims = [] })
        (check_cores node_name pool cores later)

  unfoldable pub check_nodes : List ℤ → Pools → List Node → List (Candidate F) × List (Candidate F)
  unfolding check_cores cores_to_check num_cores
  check_nodes preferred pools [] = ([], [])
  check_nodes preferred pools (node ∷ nodes) =
      let pool = lookup node.name pools in
      check_cores node.name pool (cores_to_check preferred (num_cores node.cpu_capacity) pool)
        (check_nodes preferred pools nodes)

abbrev pub infeasible : FeasibilityResult
infeasible = record {
  feasible = false;
  selected_node_name = "";
  selected_core_id = pos 0;
  victim_pod_names = [];
}

module _ {F : Type 0} ⦃fl : Float64 F⦄ where
  -- Worst fit: the most free budget first.
  unfoldable pub freer : Candidate F → Candidate F → Bool
  freer a b = fl.lt b.free a.free

  -- The fewest victims first, then the most free budget.
  unfoldable pub fewer_victims : Candidate F → Candidate F → Bool
  fewer_victims a b =
      let li = length a.victims in
      let lj = length b.victims in if li == lj then fl.lt b.free a.free else ltb li lj

  abbrev pub chosen : Candidate F → FeasibilityResult
  chosen b = record {
    feasible = true;
    selected_node_name = b.node_name;
    selected_core_id = b.core_id;
    victim_pod_names = b.victims;
  }

  -- `len(slice) > 0` is asked of the sorted slice, which is as long.
  unfoldable pub choose : Sorter → List (Candidate F) × List (Candidate F) → FeasibilityResult
  unfolding freer fewer_victims
  choose s (ds, es) = elim (s.sort freer ds) [
    | b ∷ _ ↦ chosen b
    | [] ↦ elim (s.sort fewer_victims es) [ b ∷ _ ↦ chosen b | [] ↦ infeasible ]
  ]

  unfoldable pub select_best_node_and_core :
      Sorter → Pools → List Node → F → String → List ℤ → FeasibilityResult
  unfolding check_nodes choose
  select_best_node_and_core s pools node_list required_budget incoming preferred =
      choose s (check_nodes s required_budget incoming preferred pools node_list)

  -- Whether the pod fits, and the victims, on the pools as this call meets them: it ranges over the
  -- pods of the core anew, in an order that need not be that of an earlier search.
  unfoldable pub check_node_core_feasibility :
      Sorter → Pools → String → ℤ → F → String → Bool × List String
  unfolding free_of
  check_node_core_feasibility s pools node_name core_id required_budget incoming =
      elim (lookup node_name pools) [
        | none ↦ (true, [])
        | some pool ↦
            let core = lookup core_id pool.cores in
            let free : F = free_of core in
            let (evict_cands, total) = pool_eviction_lookahead (pods_of core) incoming in
            if fl.le required_budget free
            then (true, [])
            else if fl.le required_budget (fl.add free total)
            then (true, greedy_min_victims s evict_cands (fl.sub required_budget free))
            else (false, [])
      ]
