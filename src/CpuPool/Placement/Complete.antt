-- ===== src/CpuPool/Placement/Complete.antt =====
-- internal/cpupool/cpupool.go: SelectBestNodeAndCore misses no core.
use mc_kube.Prelude.{
  ◌≡◌, refl, sym, ap, ◌∙◌, subst, ◌⊎◌, inl, inr, String, true, false, List, [], nat_eq, ℤ,
  Bool-cases, lookup, string_eq, int_eq, ◌↔◌,
}
use mathlib.Core.List.{Memᴰ}
use mathlib.Core.List.Memᴰ
use mc_kube.Prelude.Float.{Float64}
use mc_kube.Prelude.Sort.{Sorter}
use mc_kube.CpuPool.{Pools}
use mc_kube.CpuPool.Search.{
  Node, FeasibilityResult, Verdict, direct, with_evict, refused, core_of, judge, check_nodes,
  select_best_node_and_core,
}
use mc_kube.CpuPool.Placement.{candidate, IsSite}
use mc_kube.CpuPool.Placement.Entered.{check_nodes-Entered}
use mc_kube.CpuPool.Placement.Best.{choose_cases, select_best-IsPlacement}

Verdict-cases :
    (v : Verdict)
    → (v ≡ direct) ⊎ (((names : List String) × (v ≡ with_evict names)) ⊎ (v ≡ refused))
Verdict-cases direct = inl refl
Verdict-cases (with_evict names) = inr (inl (names, refl))
Verdict-cases refused = inr (inr refl)

module _ {F : Type 0} ⦃fl : Float64 F⦄ (s : Sorter) (pools : Pools) (nodes : List Node)
    (required : F) (incoming : String) (preferred : List ℤ) where
  -- Every core that is looked at refuses the pod.
  abbrev pub AllRefuse : Type 0
  AllRefuse =
      (node : Node) (id : ℤ)
      → IsSite preferred pools nodes node id
      → judge s required incoming (core_of (lookup node.name pools) id) ≡ refused

  refuses_of_infeasible :
      (select_best_node_and_core s pools nodes required incoming preferred).feasible ≡ false
      → AllRefuse
  unfolding select_best_node_and_core
  refuses_of_infeasible h node id site =
      let found = check_nodes s required incoming preferred pools nodes in
      let pool = lookup node.name pools in
      let entered = check_nodes-Entered s required incoming preferred pools nodes node id site in
      elim (choose_cases s found.0 found.1) [
        | inl (b, rest, e, r) ↦
            let no : true ≡ false = ap (λ (q : FeasibilityResult). q.feasible) (sym r) ∙ h in
            absurd (cc)
        | inr (inl (b, rest, no_ds, e, r)) ↦
            let no : true ≡ false = ap (λ (q : FeasibilityResult). q.feasible) (sym r) ∙ h in
            absurd (cc)
        | inr (inr (no_ds, no_es, r)) ↦
            elim (Verdict-cases (judge s required incoming (core_of pool id))) [
              | inl e ↦
                  absurd (
                    Memᴰ.not-nil
                      (subst (Memᴰ (candidate node.name pool id [])) no_ds (entered.0 e)))
              | inr (inl (names, e)) ↦ absurd (
                  Memᴰ.not-nil
                    (subst (Memᴰ (candidate node.name pool id names)) no_es (entered.1 names e)))
              | inr (inr e) ↦ e
            ]
      ]

  -- The answer is negative exactly when every core of every node that is looked at refuses the pod.
  pub select_best_infeasible_iff :
      ((select_best_node_and_core s pools nodes required incoming preferred).feasible ≡ false)
      ↔ AllRefuse
  select_best_infeasible_iff = (
    refuses_of_infeasible,
    λ all.
        let r = select_best_node_and_core s pools nodes required incoming preferred in
        elim (Bool-cases r.feasible) [
          | inr negative ↦ negative
          | inl positive ↦
              let (node, site, named, how) =
                select_best-IsPlacement s pools nodes required incoming preferred positive in
              let refuses = all node r.selected_core_id site in
              elim how [ inl (d, _) ↦ absurd (cc) | inr w ↦ absurd (cc) ]
        ],
  )
