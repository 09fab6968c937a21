-- ===== src/CpuPool/Feasibility.antt =====
-- internal/cpupool/cpupool.go: what the search and the admission check make of one core.
use mc_kube.Prelude.{
  ℕ, zero, suc, ◌+◌, ◌≤◌, pos, lookup-insert_self, ◌≡◌, refl, sym, subst, ◌↔◌, String, Bool, true,
  false, List, [], arith, lookup, string_eq, int_eq, Option, none,
}
use mathlib.Core.List.{Memᴰ}
use mathlib.Core.List.Memᴰ
use mc_kube.Prelude.Float.{Float64}
use mc_kube.Prelude.Sort.{Sorter, Permᴰ-Memᴰ}
use mc_kube.CpuPool.{PodInfo, CpuPool, CpuCoreInfo, Pools}
use mc_kube.CpuPool.Store.{fresh_cores, get_or_create_cpu_pool, add_pod_to_core}
use mc_kube.CpuPool.Victims.{
  victim_before, pool_eviction_lookahead, budget, select_minimum_victims, greedy_min_victims,
}
use mc_kube.CpuPool.Cover.{
  IsEvictable, pool_eviction_lookahead_lem, greedy-eq-select, select_minimum_victims-IsCut,
}
use mc_kube.CpuPool.Search.{
  Verdict, direct, with_evict, refused, free_of, pods_of, judge, check_node_core_feasibility,
}

module _ {F : Type 0} ⦃fl : Float64 F⦄ (s : Sorter) where
  greedy-Memᴰ :
      (cands : List PodInfo) (needed : F) (n : String)
      → Memᴰ n (greedy_min_victims s cands needed)
      → (p : PodInfo) × Memᴰ p cands × (p.name ≡ n)
  greedy-Memᴰ cands needed n m =
      let chosen = select_minimum_victims s cands needed in
      let (rest, cut) = select_minimum_victims-IsCut s cands needed in
      let (p, inside, named) =
        Memᴰ.of_map (λ (c : PodInfo). c.name) chosen
          (subst (Memᴰ n) (greedy-eq-select s cands needed) m) in
      (
        p,
        Permᴰ-Memᴰ p (s.sort-perm victim_before cands)
            (subst (Memᴰ p) (sym cut.split) (Memᴰ.append_left rest inside)),
        named,
      )

  module _ (required : F) (incoming : String) (core : Option CpuCoreInfo) where
    abbrev free : F
    free = free_of core

    -- What evicting every lower pod of the core would free.
    abbrev freed : F
    freed = budget (pool_eviction_lookahead {F = F} (pods_of core) incoming).0

    -- A pod of the core, of lower criticality than the incoming one, has this name.
    abbrev pub NamesVictim : String → Type 0
    NamesVictim n = (p : PodInfo) × Memᴰ p (pods_of core) × (p.name ≡ n) × IsEvictable incoming p

    judge-with_evict :
        (names : List String)
        → judge s required incoming core ≡ with_evict names
        → (fl.le required free ≡ false)
          × (fl.le required (fl.add free freed) ≡ true)
          × ((n : String) → Memᴰ n names → NamesVictim n)
    unfolding judge
    judge-with_evict names h =
        let found = pool_eviction_lookahead {F = F} (pods_of core) incoming in
        let about = pool_eviction_lookahead_lem {F = F} (pods_of core) incoming in
        let total = about.1 in
        let listed : names ≡ greedy_min_victims s found.0 (fl.sub required free) =
          ground (arith, h) in
        (
          ground (arith, h),
          ground (arith, h, total),
          λ n m.
              let (p, inside, named) =
                greedy-Memᴰ found.0 (fl.sub required free) n (subst (Memᴰ n) listed m) in
              let (on_core, lower) = (about.0 p).0 inside in (p, on_core, named, lower),
        )

    -- A core takes the pod as it is exactly when its free budget covers the requirement. It takes it
    -- after evictions only when that fails and the free budget with that of all lower pods covers
    -- it, and then every name listed is that of a pod on the core of lower criticality. It refuses
    -- exactly when neither covers the requirement.
    pub judge_lem :
        ((judge s required incoming core ≡ direct) ↔ (fl.le required free ≡ true))
        × ((names : List String)
            → judge s required incoming core ≡ with_evict names
            → (fl.le required free ≡ false)
              × (fl.le required (fl.add free freed) ≡ true)
              × ((n : String) → Memᴰ n names → NamesVictim n))
        × ((judge s required incoming core ≡ refused)
            ↔ ((fl.le required free ≡ false) × (fl.le required (fl.add free freed) ≡ false)))
    unfolding judge
    judge_lem =
        let total = (pool_eviction_lookahead_lem {F = F} (pods_of core) incoming).1 in
        (
          (λ h. ground (arith, h), λ h. rw (h, judge)),
          judge-with_evict,
          (
            λ h. (ground (arith, h, total), ground (arith, h, total)),
            λ h. ground (arith, h, total),
          ),
        )

-- How the admission check reports a verdict.
abbrev pub report : Verdict → Bool × List String
report direct = (true, [])
report (with_evict names) = (true, names)
report refused = (false, [])

lookup-fresh_cores_above : (n i j : ℕ) → i + n ≤ j → lookup (pos j) (fresh_cores n i) ≡ none
unfolding fresh_cores lookup
lookup-fresh_cores_above zero i j h = refl
lookup-fresh_cores_above (suc n) i j h = ground (arith, lookup-fresh_cores_above n (i + 1) j)

module _ {F : Type 0} ⦃fl : Float64 F⦄ (s : Sorter) where
  -- A pool tracks the cores it was created with. Any core beyond them is admitted without victims
  -- whenever the requirement is within the free budget of an empty core, and entering a pod there
  -- changes nothing, so what runs there is never counted.
  pub untracked_core :
      (pools : Pools) (node_name : String) (n id : ℕ) (required : F) (incoming : String)
      → lookup node_name pools ≡ none
      → n ≤ id
      → fl.le required (fl.sub (fl.decimal 95 2) (fl.decimal 0 0)) ≡ true
      → let (pool, pools') = get_or_create_cpu_pool node_name n pools in
        (check_node_core_feasibility s pools' node_name (pos id) required incoming ≡ (true, []))
        × ((pod : PodInfo) → add_pod_to_core (pos id) pod pool ≡ pool)
  unfolding check_node_core_feasibility get_or_create_cpu_pool add_pod_to_core free_of
  untracked_core pools node_name n id required incoming fresh above fits =
      let away = lookup-fresh_cores_above n 0 id (omega arith) in
      let pool : CpuPool = record { node_name = node_name; cores = fresh_cores n 0 } in
      rw (fresh, get_or_create_cpu_pool)
        (
          rw (lookup-insert_self node_name pool pools, check_node_core_feasibility)
              (rw (away, free_of) (rw fits)),
          λ pod. rw (away, add_pod_to_core),
        )
