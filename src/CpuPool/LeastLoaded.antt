-- ===== src/CpuPool/LeastLoaded.antt =====
-- internal/cpupool/cpupool.go: FindLeastLoadedCore returns a core of least usage.
use mc_kube.Prelude.{
  ◌≡◌, refl, ap, ◌⊎◌, inl, inr, List, [], ◌∷◌, ℤ, pos, negsuc, ◌≤ℤ◌, ◌<ℤ◌, ltb_ℤ, All, Bool-cases,
  arith,
}
use mathlib.Core.List.{Memᴰ}
use mc_kube.CpuPool.{CpuCoreInfo, CpuPool}
use mc_kube.CpuPool.Store.{least_loaded, find_least_loaded_core}

-- Every core of the list has at least this usage.
abbrev pub AreAtLeast : ℤ → List (ℤ × CpuCoreInfo) → Type 0
AreAtLeast usage cores = All (λ entry. usage ≤ℤ entry.1.usage_millis) cores

-- This core stands in the list, below the bound, and no core has less usage.
abbrev pub IsLeast : ℤ → List (ℤ × CpuCoreInfo) → ℤ → Type 0
IsLeast bound cores id =
    (core : CpuCoreInfo) × Memᴰ (id, core) cores
    × (core.usage_millis <ℤ bound)
    × AreAtLeast core.usage_millis cores

least_loaded_lem :
    (min_core min_usage : ℤ) (cores : List (ℤ × CpuCoreInfo))
    → ((least_loaded min_core min_usage cores ≡ min_core) × AreAtLeast min_usage cores)
      ⊎ IsLeast min_usage cores (least_loaded min_core min_usage cores)
unfolding least_loaded
least_loaded_lem min_core min_usage [] = inl (refl, tt)
least_loaded_lem min_core min_usage ((id, core) ∷ cores) =
    elim (Bool-cases (ltb_ℤ core.usage_millis min_usage)) [
      | inl less ↦ rw less (elim (least_loaded_lem id core.usage_millis cores) [
        | inl (e, a) ↦
            inr (core, Memᴰ.head (ap (λ i. (i, core)) e), ground (arith, less), (omega arith, a))
        | inr (c, m, below, a) ↦ inr (c, Memᴰ.tail m, ground (arith, less, below), (omega arith, a))
      ])
      | inr more ↦ rw more (elim (least_loaded_lem min_core min_usage cores) [
        | inl (e, a) ↦ inl (e, (ground (arith, more), a))
        | inr (c, m, below, a) ↦ inr (c, Memᴰ.tail m, below, (ground (arith, more, below), a))
      ])
    ]

-- FindLeastLoadedCore returns a core of the pool whose usage no other core is below, or -1, and
-- then every core's usage is at the largest int64.
pub find_least_loaded_core_lem :
    (p : CpuPool)
    → ((find_least_loaded_core p ≡ negsuc 0) × AreAtLeast (pos 9223372036854775807) p.cores)
      ⊎ IsLeast (pos 9223372036854775807) p.cores (find_least_loaded_core p)
unfolding find_least_loaded_core
find_least_loaded_core_lem p = least_loaded_lem (negsuc 0) (pos 9223372036854775807) p.cores
