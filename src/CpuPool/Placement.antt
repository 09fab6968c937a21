-- ===== src/CpuPool/Placement.antt =====
-- internal/cpupool/cpupool.go: the cores that SelectBestNodeAndCore looks at, and its result against
-- all of them.
pub mod Entered
pub mod Sources
pub mod Best
pub mod Order
pub mod Optimal
pub mod Direct
pub mod Complete
use mc_kube.Prelude.{
  ◌≡◌, refl, sym, ap, ◌∙◌, subst, ◌⊎◌, inl, inr, String, Bool, true, false, List, [], ◌∷◌, ◌++◌,
  map, ℤ, arith, Bool-cases, if◌then◌else◌, lookup, string_eq, int_eq, Option, length, ◌≤◌, ◌↔◌,
}
use mathlib.Core.List.{Memᴰ}
use mathlib.Core.List.Memᴰ
use mc_kube.Prelude.Float.{Float64, IsOrdered}
use mc_kube.Prelude.Sort.{Sorter, Permᴰ-Memᴰ, Permᴰ-nil, IsSorted, IsStrictOrder}
use mc_kube.CpuPool.{PodInfo, CpuPool, Pools}
use mc_kube.CpuPool.Victims.{
  victim_before, pool_eviction_lookahead, select_minimum_victims, greedy_min_victims,
}
use mc_kube.CpuPool.Cover.{
  IsEvictable, pool_eviction_lookahead_lem, greedy-eq-select, select_minimum_victims-IsCut,
}
use mc_kube.CpuPool.Search.{
  Node, FeasibilityResult, Candidate, Verdict, direct, with_evict, refused, num_cores,
  cores_to_check, core_of, free_of, pods_of, judge, enter, check_cores, check_nodes, freer,
  fewer_victims, infeasible, chosen, choose, select_best_node_and_core,
}

pub List-cases {ℓ} :
    {A : Type ℓ} (xs : List A) → (xs ≡ []) ⊎ ((x : A) × (rest : List A) × (xs ≡ x ∷ rest))
List-cases [] = inl refl
List-cases (x ∷ xs) = inr (x, xs, refl)

module _ {F : Type 0} ⦃fl : Float64 F⦄ where
  abbrev pub candidate : String → Option CpuPool → ℤ → List String → Candidate F
  candidate node_name pool core_id victims = record {
    node_name = node_name;
    core_id = core_id;
    free = free_of (core_of pool core_id);
    victims = victims;
  }

-- The search looks at this core of this node.
abbrev pub IsSite : List ℤ → Pools → List Node → Node → ℤ → Type 0
IsSite preferred pools nodes node core_id =
    Memᴰ node nodes
    × Memᴰ core_id (cores_to_check preferred (num_cores node.cpu_capacity) (lookup node.name pools))
