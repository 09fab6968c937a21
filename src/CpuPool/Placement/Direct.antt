-- ===== src/CpuPool/Placement/Direct.antt =====
-- internal/cpupool/cpupool.go: SelectBestNodeAndCore where some core takes the pod as it is.
use mc_kube.Prelude.{
  ◌≡◌, refl, sym, ap, ◌∙◌, subst, inl, inr, String, true, List, [], nat_eq, ℤ, lookup, string_eq,
  int_eq,
}
use mathlib.Core.List.{Memᴰ}
use mathlib.Core.List.Memᴰ
use mc_kube.Prelude.Float.{Float64}
use mc_kube.Prelude.Sort.{Sorter}
use mc_kube.CpuPool.{Pools}
use mc_kube.CpuPool.Search.{
  Node, FeasibilityResult, Candidate, direct, core_of, judge, check_nodes, freer, chosen,
  select_best_node_and_core,
}
use mc_kube.CpuPool.Placement.{candidate, IsSite}
use mc_kube.CpuPool.Placement.Entered.{check_nodes-Entered}
use mc_kube.CpuPool.Placement.Sources.{check_nodes-Source}
use mc_kube.CpuPool.Placement.Best.{choose_cases, head-Memᴰ}

module _ {F : Type 0} ⦃fl : Float64 F⦄ (s : Sorter) (pools : Pools) (nodes : List Node)
    (required : F) (incoming : String) (preferred : List ℤ) where
  -- The answer is positive and names a core that takes the pod as it is.
  abbrev pub IsDirect : FeasibilityResult → Type 0
  IsDirect r =
      (r.feasible ≡ true)
      × (judge s required incoming (core_of (lookup r.selected_node_name pools) r.selected_core_id)
          ≡ direct)

  pub select_best-IsDirect :
      (node : Node) (id : ℤ)
      → IsSite preferred pools nodes node id
      → judge s required incoming (core_of (lookup node.name pools) id) ≡ direct
      → IsDirect (select_best_node_and_core s pools nodes required incoming preferred)
  unfolding select_best_node_and_core
  select_best-IsDirect node id site judged =
      let found = check_nodes s required incoming preferred pools nodes in
      let c : Candidate F = candidate node.name (lookup node.name pools) id [] in
      let entered : Memᴰ c found.0 =
        (check_nodes-Entered s required incoming preferred pools nodes node id site).0 judged in
      elim (choose_cases s found.0 found.1) [
        | inl (b, rest, e, r) ↦
            let (node', id', site', judged', f) =
              (check_nodes-Source s required incoming preferred pools nodes b).0
                (head-Memᴰ s freer found.0 rest b e) in
            subst IsDirect (sym (r ∙ ap chosen f)) (refl, judged')
        | inr (inl (b, rest, no_ds, e, r)) ↦ absurd (Memᴰ.not-nil (subst (Memᴰ c) no_ds entered))
        | inr (inr (no_ds, no_es, r)) ↦ absurd (Memᴰ.not-nil (subst (Memᴰ c) no_ds entered))
      ]
