-- ===== src/CpuPool/Placement/Optimal.antt =====
-- internal/cpupool/cpupool.go: SelectBestNodeAndCore takes the best core.
use mc_kube.Prelude.{
  ◌≢◌, ◌≡◌, refl, sym, ap, ◌∙◌, subst, inl, inr, String, true, List, [], nat_eq, All, All-Memᴰ,
  All-of_Memᴰ, ℤ, lookup, string_eq, int_eq, length, ◌≤◌,
}
use mathlib.Core.List.{Memᴰ}
use mathlib.Core.List.Memᴰ
use mc_kube.Prelude.Float.{Float64, IsOrdered}
use mc_kube.Prelude.Sort.{Sorter}
use mc_kube.CpuPool.{Pools}
use mc_kube.CpuPool.Search.{
  Node, FeasibilityResult, Candidate, Verdict, direct, with_evict, core_of, free_of, judge,
  check_nodes, freer, fewer_victims, chosen, select_best_node_and_core,
}
use mc_kube.CpuPool.Placement.{candidate, IsSite}
use mc_kube.CpuPool.Placement.Entered.{check_nodes-Entered}
use mc_kube.CpuPool.Placement.Sources.{check_nodes-Source}
use mc_kube.CpuPool.Placement.Best.{choose_cases, head-Memᴰ, head_first}
use mc_kube.CpuPool.Placement.Order.{
  HasFree, freer-IsStrictOrder, fewer_victims-IsStrictOrder, free_of-IsNumber, freer_irrefl,
  freer→le, fewer_irrefl, IsNoBetter, fewer→le,
}

module _ {F : Type 0} ⦃fl : Float64 F⦄ (laws : IsOrdered F) where
  module _ (s : Sorter) (pools : Pools) (nodes : List Node) (required : F) (incoming : String)
      (preferred : List ℤ) where
    abbrev found : List (Candidate F) × List (Candidate F)
    found = check_nodes s required incoming preferred pools nodes

    direct-HasFree : All (HasFree laws) found.0
    direct-HasFree = All-of_Memᴰ (HasFree laws) found.0 (λ c m.
        let (node, id, site, judged, f) =
          (check_nodes-Source s required incoming preferred pools nodes c).0 m in
        rw f (free_of-IsNumber laws (core_of (lookup node.name pools) id)))

    evict-HasFree : All (HasFree laws) found.1
    evict-HasFree = All-of_Memᴰ (HasFree laws) found.1 (λ c m.
        let (names, (node, id, site, judged, f)) =
          (check_nodes-Source s required incoming preferred pools nodes c).1 m in
        rw f (free_of-IsNumber laws (core_of (lookup node.name pools) id)))

    -- The share of a core that is free when the search reads it.
    abbrev free_at : String → ℤ → F
    free_at node_name core_id = free_of (core_of (lookup node_name pools) core_id)

    abbrev verdict_at : Node → ℤ → Verdict
    verdict_at node id = judge s required incoming (core_of (lookup node.name pools) id)

    -- The answer evicts nobody, and names a core with at least this much free budget.
    abbrev pub IsWorstFit : F → FeasibilityResult → Type 0
    IsWorstFit free r =
        (r.feasible ≡ true)
        × (r.victim_pod_names ≡ [])
        × (fl.le free (free_at r.selected_node_name r.selected_core_id) ≡ true)

    -- Worst fit: if some core that is looked at takes the pod as it is, the answer is positive,
    -- evicts nobody, and names a core with at least as much free budget as that one.
    pub select_best-IsWorstFit :
        (node : Node) (id : ℤ)
        → IsSite preferred pools nodes node id
        → verdict_at node id ≡ direct
        → IsWorstFit
            (free_at node.name id)
            (select_best_node_and_core s pools nodes required incoming preferred)
    unfolding select_best_node_and_core
    select_best-IsWorstFit node id site judged =
        let c : Candidate F = candidate node.name (lookup node.name pools) id [] in
        let entered : Memᴰ c found.0 =
          (check_nodes-Entered s required incoming preferred pools nodes node id site).0 judged in
        elim (choose_cases s found.0 found.1) [
          | inl (b, rest, e, r) ↦
              let m = head-Memᴰ s freer found.0 rest b e in
              let number = All-Memᴰ (HasFree laws) direct-HasFree m in
              let (node', id', site', judged', f) =
                (check_nodes-Source s required incoming preferred pools nodes b).0 m in
              let first : fl.le c.free b.free ≡ true =
                freer→le laws c b (All-Memᴰ (HasFree laws) direct-HasFree entered) number (
                  head_first s (HasFree laws) freer found.0 rest b c (freer-IsStrictOrder laws)
                    direct-HasFree e entered (freer_irrefl laws b number)) in
              subst (IsWorstFit c.free) (sym (r ∙ ap chosen f))
                (refl, refl, subst (λ (d : Candidate F). fl.le c.free d.free ≡ true) f first)
          | inr (inl (b, rest, no_ds, e, r)) ↦ absurd (Memᴰ.not-nil (subst (Memᴰ c) no_ds entered))
          | inr (inr (no_ds, no_es, r)) ↦ absurd (Memᴰ.not-nil (subst (Memᴰ c) no_ds entered))
        ]

    -- The answer evicts at most this many pods, and at that number leaves at least this much free.
    abbrev pub IsFewest : List String → F → FeasibilityResult → Type 0
    IsFewest names free r =
        (r.feasible ≡ true)
        × (length r.victim_pod_names ≤ length names)
        × (length r.victim_pod_names ≡ length names
            → fl.le free (free_at r.selected_node_name r.selected_core_id) ≡ true)

    -- If no core that is looked at takes the pod as it is and some core takes it after evicting
    -- `names`, the answer is positive, evicts no more pods than that, and between equal numbers
    -- names a core with at least as much free budget.
    pub select_best-IsFewest :
        (node : Node) (id : ℤ) (names : List String)
        → IsSite preferred pools nodes node id
        → verdict_at node id ≡ with_evict names
        → ((other : Node) (core : ℤ)
            → IsSite preferred pools nodes other core
            → verdict_at other core ≢ direct)
        → IsFewest names
            (free_at node.name id)
            (select_best_node_and_core s pools nodes required incoming preferred)
    unfolding select_best_node_and_core
    select_best-IsFewest node id names site judged none_direct =
        let c : Candidate F = candidate node.name (lookup node.name pools) id names in
        let entered : Memᴰ c found.1 =
          (check_nodes-Entered s required incoming preferred pools nodes node id site).1 names
            judged in
        elim (choose_cases s found.0 found.1) [
          | inl (b, rest, e, r) ↦
              let (node', id', site', judged', f) =
                (check_nodes-Source s required incoming preferred pools nodes b).0
                  (head-Memᴰ s freer found.0 rest b e) in
              absurd (none_direct node' id' site' judged')
          | inr (inl (b, rest, no_ds, e, r)) ↦
              let m = head-Memᴰ s fewer_victims found.1 rest b e in
              let number = All-Memᴰ (HasFree laws) evict-HasFree m in
              let (names', (node', id', site', judged', f)) =
                (check_nodes-Source s required incoming preferred pools nodes b).1 m in
              let first : IsNoBetter laws c b =
                fewer→le laws c b (All-Memᴰ (HasFree laws) evict-HasFree entered) number (
                  head_first s (HasFree laws) fewer_victims found.1 rest b c
                    (fewer_victims-IsStrictOrder laws) evict-HasFree e entered
                    (fewer_irrefl laws b number)) in
              subst (IsFewest names c.free) (sym (r ∙ ap chosen f))
                (let better = subst (IsNoBetter laws c) f first in (refl, better.0, better.1))
          | inr (inr (no_ds, no_es, r)) ↦ absurd (Memᴰ.not-nil (subst (Memᴰ c) no_es entered))
        ]
