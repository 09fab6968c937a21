-- ===== src/CpuPool/Placement/Best.antt =====
-- internal/cpupool/cpupool.go: the result of SelectBestNodeAndCore against every node and core.
use mc_kube.Prelude.{
  ◌≡◌, refl, sym, ap, ◌∙◌, subst, ◌⊎◌, inl, inr, String, Bool, true, false, List, [], ◌∷◌, nat_eq,
  All, All-Memᴰ, ℤ, lookup, string_eq, int_eq,
}
use mathlib.Core.List.{Memᴰ}
use mathlib.Core.List.Memᴰ
use mathlib.Core.List.Permᴰ
use mc_kube.Prelude.Float.{Float64}
use mc_kube.Prelude.Sort.{Sorter, Permᴰ-Memᴰ, Permᴰ-nil, IsSorted, IsStrictOrder}
use mc_kube.CpuPool.{Pools}
use mc_kube.CpuPool.Search.{
  Node, FeasibilityResult, Candidate, direct, with_evict, core_of, judge, check_nodes, freer,
  fewer_victims, infeasible, chosen, choose, select_best_node_and_core,
}
use mc_kube.CpuPool.Placement.{List-cases, IsSite}
use mc_kube.CpuPool.Placement.Sources.{check_nodes-Source}

module _ {F : Type 0} ⦃fl : Float64 F⦄ (s : Sorter) where
  -- The head of one sorted slice, or the other, or nothing.
  pub choose_cases :
      (ds es : List (Candidate F))
      → ((b : Candidate F) × (rest : List (Candidate F)) × (s.sort freer ds ≡ b ∷ rest)
          × (choose s (ds, es) ≡ chosen b))
        ⊎ (((b : Candidate F) × (rest : List (Candidate F)) × (ds ≡ [])
              × (s.sort fewer_victims es ≡ b ∷ rest)
              × (choose s (ds, es) ≡ chosen b))
            ⊎ ((ds ≡ []) × (es ≡ []) × (choose s (ds, es) ≡ infeasible)))
  unfolding choose
  choose_cases ds es = elim (List-cases (s.sort freer ds)) [
    | inr (b, rest, e) ↦ inl (b, rest, e, rw (e, choose))
    | inl none_direct ↦ elim (List-cases (s.sort fewer_victims es)) [
      | inr (b, rest, e) ↦ inr (
          inl
            (b, rest, Permᴰ-nil (s.sort-perm freer ds) none_direct, e, rw (none_direct, e, choose)))
      | inl none_evict ↦ inr (
          inr (
            Permᴰ-nil (s.sort-perm freer ds) none_direct,
            Permᴰ-nil (s.sort-perm fewer_victims es) none_evict,
            rw (none_direct, none_evict, choose),
          ))
    ]
  ]

  -- The head of a sorted slice stands in the slice.
  pub head-Memᴰ :
      (less : Candidate F → Candidate F → Bool) (xs rest : List (Candidate F)) (b : Candidate F)
      → s.sort less xs ≡ b ∷ rest
      → Memᴰ b xs
  head-Memᴰ less xs rest b e =
      Permᴰ-Memᴰ b (s.sort-perm less xs) (subst (Memᴰ b) (sym e) (Memᴰ.head refl))

  -- Nothing in the slice must precede the head.
  pub head_first :
      (P : Candidate F → Type 0) (less : Candidate F → Candidate F → Bool)
      (xs rest : List (Candidate F)) (b c : Candidate F)
      → IsStrictOrder P less
      → All P xs
      → s.sort less xs ≡ b ∷ rest
      → Memᴰ c xs
      → less b b ≡ false
      → less c b ≡ false
  head_first P less xs rest b c order ps e m irreflexive =
      let sorted : IsSorted less (b ∷ rest) =
        subst (IsSorted less) e (s.sort-IsSorted P less order xs ps) in
      let placed : Memᴰ c (b ∷ rest) =
        subst (Memᴰ c) e (Permᴰ-Memᴰ c (Permᴰ.symm (s.sort-perm less xs)) m) in
      elim (Memᴰ.cases_cons placed) [
        | inl same ↦ rw same irreflexive
        | inr later ↦ All-Memᴰ (λ y. less y b ≡ false) sorted.0 later
      ]

  module _ (pools : Pools) (nodes : List Node) (required : F) (incoming : String)
      (preferred : List ℤ) where
    -- The result names a core that was looked at, and says what that core makes of the pod.
    abbrev pub IsPlacement : FeasibilityResult → Type 0
    IsPlacement r =
        (node : Node) × IsSite preferred pools nodes node r.selected_core_id
        × (r.selected_node_name ≡ node.name)
        × (let verdict =
              judge s required incoming (core_of (lookup node.name pools) r.selected_core_id) in
            ((verdict ≡ direct) × (r.victim_pod_names ≡ []))
            ⊎ (verdict ≡ with_evict r.victim_pod_names))

    -- A positive answer names a node of the list and a core that was looked at, and either the core
    -- takes the pod as it is, with no victims, or after the evictions that the answer lists.
    pub select_best-IsPlacement :
        (select_best_node_and_core s pools nodes required incoming preferred).feasible ≡ true
        → IsPlacement (select_best_node_and_core s pools nodes required incoming preferred)
    unfolding select_best_node_and_core
    select_best-IsPlacement h =
        let found = check_nodes s required incoming preferred pools nodes in
        elim (choose_cases found.0 found.1) [
          | inl (b, rest, e, r) ↦
              let (node, id, site, judged, f) =
                (check_nodes-Source s required incoming preferred pools nodes b).0
                  (head-Memᴰ freer found.0 rest b e) in
              subst IsPlacement (sym (r ∙ ap chosen f)) (node, site, refl, inl (judged, refl))
          | inr (inl (b, rest, no_ds, e, r)) ↦
              let (names, (node, id, site, judged, f)) =
                (check_nodes-Source s required incoming preferred pools nodes b).1
                  (head-Memᴰ fewer_victims found.1 rest b e) in
              subst IsPlacement (sym (r ∙ ap chosen f)) (node, site, refl, inr judged)
          | inr (inr (no_ds, no_es, r)) ↦
              let no : false ≡ true = ap (λ (q : FeasibilityResult). q.feasible) (sym r) ∙ h in
              absurd (cc)
        ]
