-- ===== src/CpuPool/Tests.antt =====
-- internal/cpupool/cpupool.go: the theorems at concrete pools, with insertion sort for `sort.Slice`
-- and millionths for `float64`.
use mc_kube.Prelude.{
  String, ◌≡◌, ◌≢◌, refl, subst, inl, inr, ◌↔◌, true, false, List, [], ◌∷◌, ◌++◌, map, ℤ, pos, ◌≤ℤ◌,
  ◌≤◌, ◌+ℤ◌, ◌-ℤ◌, wrap64, none, some, lookup, string_eq, int_eq, arith, nat_eq,
}
use mathlib.Core.List.{Memᴰ}
use mathlib.Core.List.Memᴰ
use mc_kube.Prelude.Float.{Millionths, millionths, Millionths-IsOrdered}
use mc_kube.Prelude.Sort.{insertion, insertion_sort}
use mc_kube.CpuPool.{PodInfo, CpuCoreInfo, CpuPool, Pools, criticality_rank, values}
use mc_kube.CpuPool.Store.{add_pod_to_core, get_or_create_cpu_pool, find_least_loaded_core}
use mc_kube.CpuPool.Accounting.{total, IsCounted, ArePoolsSound}
use mc_kube.CpuPool.Accounting.History.{
  Call, creates, registers, unregisters, deletes, purges, run, run-ArePoolsSound,
}
use mc_kube.CpuPool.Board.{view, play_all}
use mc_kube.CpuPool.Refinement.{run-play_all}
use mc_kube.CpuPool.Victims.{
  victim_before, pool_eviction_lookahead, select_minimum_victims, greedy_min_victims,
}
use mc_kube.CpuPool.Cover.{
  greedy-eq-select, IsCut, select_minimum_victims-IsCut, spared_after_victims,
}
use mc_kube.CpuPool.Search.{
  Node, Verdict, direct, with_evict, num_cores, cores_to_check, core_of, free_of, judge,
  select_best_node_and_core, check_node_core_feasibility,
}
use mc_kube.CpuPool.Placement.{IsSite}
use mc_kube.CpuPool.Placement.Best.{IsPlacement, select_best-IsPlacement}
use mc_kube.CpuPool.Placement.Optimal.{
  IsWorstFit, select_best-IsWorstFit, IsFewest, select_best-IsFewest,
}
use mc_kube.CpuPool.Placement.Complete.{AllRefuse, select_best_infeasible_iff}
use mc_kube.CpuPool.Feasibility.{untracked_core}
use mathlib.Core.List.Permᴰ
use mc_kube.CpuPool.Relisted.{relisted_one, IsConsistent, check-IsConsistent}
use mc_kube.CpuPool.CoreSet.{parse_core_set}
use mc_kube.CpuPool.CoreSet.Print.{join, parse_core_set-join}

abbrev batch : PodInfo
batch = record {
  name = "batch";
  namespace = "plant";
  criticality = "LOW";
  cpu_millis = pos 600;
  core_set = pos 0 ∷ [];
}

abbrev control : PodInfo
control = record {
  name = "control";
  namespace = "plant";
  criticality = "HIGH";
  cpu_millis = pos 200;
  core_set = pos 0 ∷ [];
}

abbrev calls : List Call
calls =
    creates "n1" 2
    ∷ registers "n1" (pos 0) batch
    ∷ registers "n1" (pos 1) control
    ∷ registers "n1" (pos 0) control
    ∷ unregisters "n1" (pos 1) "control"
    ∷ []

run-ArePoolsSound_example :
    ArePoolsSound (run (calls ++ (deletes "batch" ∷ purges (("control", true) ∷ []) ∷ [])) [])
run-ArePoolsSound_example =
    run-ArePoolsSound (calls ++ (deletes "batch" ∷ purges (("control", true) ∷ []) ∷ []))

-- A pool of two cores: one with both pods, and one empty.
abbrev core0 : CpuCoreInfo
core0 = record {
  core_id = pos 0;
  usage_millis = pos 800;
  pods = ("batch", batch) ∷ ("control", control) ∷ [];
}

abbrev core1 : CpuCoreInfo
core1 = record { core_id = pos 1; usage_millis = pos 0; pods = [] }

abbrev pool : CpuPool
pool = record { node_name = "n1"; cores = (pos 0, core0) ∷ (pos 1, core1) ∷ [] }

abbrev pools : Pools
pools = ("n1", pool) ∷ []

abbrev n1 : Node
n1 = record { name = "n1"; cpu_capacity = some (pos 2) }

core0-IsCounted : IsCounted core0
unfolding total wrap64 lookup ◌+ℤ◌
core0-IsCounted = record { counted = refl; distinct = (refl, (refl, tt)) }

-- 0.5 and 0.7 of a core.
abbrev half : Millionths
half = pos 500000

abbrev seven_tenths : Millionths
seven_tenths = pos 700000

least_loaded_is_empty : find_least_loaded_core pool ≡ pos 1
unfolding find_least_loaded_core
least_loaded_is_empty = refl

n1_core1 : IsSite [] pools (n1 ∷ []) n1 (pos 1)
unfolding lookup cores_to_check
n1_core1 = (Memᴰ.head refl, Memᴰ.tail (Memᴰ.head refl))

select_best-IsWorstFit_example :
    IsWorstFit Millionths-IsOrdered insertion pools
      (n1 ∷ [])
      half
      "MIDDLE"
      []
      (free_of {F = Millionths} (some core1))
      (select_best_node_and_core insertion pools (n1 ∷ []) half "MIDDLE" [])
unfolding judge core_of ◌-ℤ◌ lookup
select_best-IsWorstFit_example =
    select_best-IsWorstFit Millionths-IsOrdered insertion pools (n1 ∷ []) half "MIDDLE" [] n1
      (pos 1) n1_core1 refl

-- With core 0 alone preferred, a pod of 0.7 fits only after an eviction.
abbrev judged : Node → ℤ → Verdict
judged node core =
    judge {F = Millionths} insertion seven_tenths "MIDDLE" (core_of (lookup node.name pools) core)

core0_evicts : judged n1 (pos 0) ≡ with_evict ("batch" ∷ [])
unfolding judge core_of ◌-ℤ◌ ◌+ℤ◌ lookup cores_to_check num_cores pool_eviction_lookahead values
    criticality_rank greedy_min_victims insertion_sort
core0_evicts = refl

only_core0 :
    (other : Node) (core : ℤ)
    → IsSite (pos 0 ∷ []) pools (n1 ∷ []) other core
    → judged other core ≢ direct
unfolding cores_to_check num_cores
only_core0 other core (here, site) e = elim (Memᴰ.cases_cons here) [
  | inr t ↦ elim t [ ]
  | inl is_n1 ↦
      elim (Memᴰ.cases_cons (
        subst
          (λ (n : Node).
            Memᴰ core
              (cores_to_check (pos 0 ∷ []) (num_cores n.cpu_capacity) (lookup n.name pools)))
          is_n1 site)) [
            | inr t ↦ elim t [ ]
            | inl is_0 ↦
                let here : judged n1 (pos 0) ≡ direct =
                  subst (λ c. judged n1 c ≡ direct) is_0
                    (subst (λ (n : Node). judged n core ≡ direct) is_n1 e) in
                absurd (cc core0_evicts)
          ]
]

select_best-IsFewest_example :
    IsFewest Millionths-IsOrdered insertion pools
      (n1 ∷ [])
      seven_tenths
      "MIDDLE"
      (pos 0 ∷ [])
      ("batch" ∷ [])
      (free_of {F = Millionths} (some core0))
      (select_best_node_and_core insertion pools (n1 ∷ []) seven_tenths "MIDDLE" (pos 0 ∷ []))
unfolding judge core_of ◌-ℤ◌ ◌+ℤ◌ lookup cores_to_check num_cores pool_eviction_lookahead values
    criticality_rank greedy_min_victims insertion_sort
select_best-IsFewest_example =
    select_best-IsFewest Millionths-IsOrdered insertion pools (n1 ∷ []) seven_tenths "MIDDLE"
      (pos 0 ∷ []) n1 (pos 0) ("batch" ∷ []) (Memᴰ.head refl, Memᴰ.head refl) refl only_core0

select_best_infeasible_iff_example :
    ((select_best_node_and_core {F = Millionths} insertion pools
        (n1 ∷ [])
        (pos 960000)
        "HIGH"
        []).feasible
      ≡ false)
    ↔ AllRefuse {F = Millionths} insertion pools (n1 ∷ []) (pos 960000) "HIGH" []
select_best_infeasible_iff_example =
    select_best_infeasible_iff insertion pools (n1 ∷ []) (pos 960000) "HIGH" []

select_best-IsPlacement_example :
    IsPlacement {F = Millionths} insertion pools
      (n1 ∷ [])
      half
      "MIDDLE"
      (pos 0 ∷ [])
      (select_best_node_and_core insertion pools (n1 ∷ []) half "MIDDLE" (pos 0 ∷ []))
unfolding select_best_node_and_core ◌-ℤ◌ lookup insertion_sort ◌+ℤ◌ pool_eviction_lookahead values
    criticality_rank
select_best-IsPlacement_example =
    select_best-IsPlacement insertion pools (n1 ∷ []) half "MIDDLE" (pos 0 ∷ []) refl

-- A core whose two pods the search meets in one order and the check in the other.
abbrev meets : List (String × PodInfo) → CpuCoreInfo
meets pods = record { core_id = pos 0; usage_millis = pos 800; pods = pods }

abbrev batch_first : CpuCoreInfo
batch_first = meets (("batch", batch) ∷ ("control", control) ∷ [])

abbrev control_first : CpuCoreInfo
control_first = meets (("control", control) ∷ ("batch", batch) ∷ [])

abbrev pool_of : CpuCoreInfo → CpuPool
pool_of core = record { node_name = "n1"; cores = (pos 0, core) ∷ [] }

check-IsConsistent_example :
    IsConsistent {F = Millionths} insertion half "MIDDLE" (some batch_first) (some control_first) (
      check_node_core_feasibility insertion
        (("n1", pool_of control_first) ∷ [])
        "n1"
        (pos 0)
        half
        "MIDDLE")
unfolding lookup
check-IsConsistent_example =
    check-IsConsistent insertion (("n1", pool_of batch_first) ∷ [])
      (("n1", pool_of control_first) ∷ []) (pool_of batch_first) (pool_of control_first) "n1"
      (pos 0) half "MIDDLE"
      (relisted_one "n1" (pos 0) batch_first control_first (refl, Permᴰ.swap refl refl)) refl refl

untracked_core_example :
    let (created, pools') = get_or_create_cpu_pool "n1" 2 [] in
    (check_node_core_feasibility {F = Millionths} insertion pools' "n1" (pos 5) half "LOW"
      ≡ (true, []))
    × ((pod : PodInfo) → add_pod_to_core (pos 5) pod created ≡ created)
unfolding lookup ◌-ℤ◌
untracked_core_example = untracked_core insertion [] "n1" 2 5 half "LOW" refl (omega arith) refl

greedy-eq-select_example :
    greedy_min_victims {F = Millionths} insertion (control ∷ batch ∷ []) half
    ≡ map
        (λ c. c.name)
        (select_minimum_victims {F = Millionths} insertion (control ∷ batch ∷ []) half)
greedy-eq-select_example = greedy-eq-select insertion (control ∷ batch ∷ []) half

select_minimum_victims-IsCut_example :
    (rest : List PodInfo) × IsCut {F = Millionths} half
      (millionths.decimal 0 0)
      (insertion.sort victim_before (control ∷ batch ∷ []))
      (select_minimum_victims {F = Millionths} insertion (control ∷ batch ∷ []) half)
      rest
select_minimum_victims-IsCut_example =
    select_minimum_victims-IsCut insertion (control ∷ batch ∷ []) half

spared_after_victims_example :
    (criticality_rank "LOW" ≤ criticality_rank "HIGH")
    × (criticality_rank "LOW" ≡ criticality_rank "HIGH" → pos 200 ≤ℤ pos 600)
unfolding select_minimum_victims insertion_sort victim_before criticality_rank lookup ◌+ℤ◌
spared_after_victims_example =
    spared_after_victims {F = Millionths} insertion (control ∷ batch ∷ []) (control ∷ []) half batch
      control refl (Memᴰ.head refl) (Memᴰ.head refl)

parse_core_set-join_example : parse_core_set (join (3 ∷ 0 ∷ 12 ∷ [])) ≡ pos 3 ∷ pos 0 ∷ pos 12 ∷ []
parse_core_set-join_example =
    parse_core_set-join (3 ∷ 0 ∷ 12 ∷ []) (omega arith, (omega arith, (omega arith, tt)))

run-play_all_example : view (run calls []) ≡ play_all calls (λ node. none)
run-play_all_example = run-play_all calls
