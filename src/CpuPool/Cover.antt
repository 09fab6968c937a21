-- ===== src/CpuPool/Cover.antt =====
-- internal/cpupool/cpupool.go: what the chosen victims are, against the candidates.
use mc_kube.Prelude.{
  All-of_Memᴰ, ◌≡◌, refl, sym, ap, ◌∙◌, ◌≢◌, ◌⊎◌, inl, inr, String, Bool, true, false, List, [],
  ◌∷◌, ◌++◌, map, ltb, arith, Bool-cases, if◌then◌else◌, All-Memᴰ, ◌<◌, ◌↔◌, ◌≤ℤ◌, ◌≤◌, filter,
  Memᴰ-filter, filter-Memᴰ, subst,
}
use mathlib.Core.List.{Memᴰ}
use mathlib.Core.List.Memᴰ
use mc_kube.Prelude.Float.{Float64, millis}
use mc_kube.Prelude.Sort.{Sorter, IsSorted}
use mc_kube.CpuPool.{PodInfo, criticality_rank}
use mc_kube.CpuPool.Victims.{
  victim_before, victim_before-IsStrictOrder, lookahead_from, pool_eviction_lookahead, budget_from,
  budget, pick_from, select_minimum_victims, pick_names_from, greedy_min_victims,
}

-- Of lower criticality than the incoming pod.
abbrev pub IsEvictable : String → PodInfo → Type 0
IsEvictable incoming pod = criticality_rank pod.criticality < criticality_rank incoming

abbrev pub is_evictable : String → PodInfo → Bool
is_evictable incoming pod = ltb (criticality_rank pod.criticality) (criticality_rank incoming)

append_cons-ne-nil :
    (xs ys : List PodInfo) (y : PodInfo) → ◌≢◌ {A = List PodInfo} [] (xs ++ (y ∷ ys))
append_cons-ne-nil [] ys y e = cc
append_cons-ne-nil (x ∷ xs) ys y e = cc

IsSorted-split :
    (xs ys : List PodInfo) (x y : PodInfo)
    → IsSorted victim_before (xs ++ ys)
    → Memᴰ x xs
    → Memᴰ y ys
    → victim_before y x ≡ false
IsSorted-split [] ys x y h k m = elim k [ ]
IsSorted-split (z ∷ zs) ys x y (h, hs) (Memᴰ.head e) m =
    rw e (All-Memᴰ _ h (Memᴰ.append_right zs m))
IsSorted-split (z ∷ zs) ys x y (h, hs) (Memᴰ.tail k) m = IsSorted-split zs ys x y hs k m

module _ {F : Type 0} ⦃fl : Float64 F⦄ where
  pub lookahead_from-filter :
      (incoming : String) (total : F) (pods : List PodInfo)
      → ((lookahead_from incoming total pods).0 ≡ filter (is_evictable incoming) pods)
        × ((lookahead_from incoming total pods).1
            ≡ budget_from total (filter (is_evictable incoming) pods))
  unfolding lookahead_from budget_from
  lookahead_from-filter incoming total [] = (refl, refl)
  lookahead_from-filter incoming total (p ∷ pods) = elim (Bool-cases (is_evictable incoming p)) [
    | inl e ↦
        let ih = lookahead_from-filter incoming (fl.add total (millis p.cpu_millis)) pods in
        rw e (ap (◌∷◌ p) ih.0, ih.1)
    | inr e ↦ rw e (lookahead_from-filter incoming total pods)
  ]

  -- The lookahead finds exactly the pods of the core whose criticality is lower than the incoming
  -- one, and its total is the sum of their budgets, in order.
  pub pool_eviction_lookahead_lem :
      (pods : List PodInfo) (incoming : String)
      → ((p : PodInfo)
          → Memᴰ p (pool_eviction_lookahead {F = F} pods incoming).0
            ↔ (Memᴰ p pods × IsEvictable incoming p))
        × ((pool_eviction_lookahead {F = F} pods incoming).1
            ≡ budget (pool_eviction_lookahead {F = F} pods incoming).0)
  unfolding pool_eviction_lookahead budget
  pool_eviction_lookahead_lem pods incoming = (
    λ p. (
      λ m.
          let (inside, lower) =
            Memᴰ-filter (is_evictable incoming) p pods (subst (λ l. Memᴰ p l) (found.0) m) in
          (inside, ground (arith, lower)),
      λ h.
          subst (λ l. Memᴰ p l) (sym found.0)
            (filter-Memᴰ (is_evictable incoming) h.0 (ground (arith, h.1))),
    ),
    found.1 ∙ ap (budget_from (fl.decimal 0 0)) (sym found.0),
  )
    where
      found :
          ((lookahead_from incoming (fl.decimal 0 0) pods).0 ≡ filter (is_evictable incoming) pods)
          × ((lookahead_from incoming (fl.decimal 0 0) pods).1
              ≡ budget_from (fl.decimal 0 0) (filter (is_evictable incoming) pods))
      found = lookahead_from-filter incoming (fl.decimal 0 0) pods

  pick_names-map :
      (needed acc : F) (cs : List PodInfo)
      → pick_names_from needed acc cs ≡ map (λ c. c.name) (pick_from needed acc cs)
  unfolding pick_names_from pick_from
  pick_names-map needed acc [] = refl
  pick_names-map needed acc (c ∷ cs) =
      let acc' = fl.add acc (millis c.cpu_millis) in
      elim (Bool-cases (fl.le needed acc')) [
        | inl e ↦ rw e
        | inr e ↦ rw e (ap (◌∷◌ c.name) (pick_names-map needed acc' cs))
      ]

  -- The admission webhook's preview names exactly the pods, in the same order, that the controller
  -- will preempt for the same candidates and need.
  pub greedy-eq-select :
      (s : Sorter) (candidates : List PodInfo) (needed : F)
      → greedy_min_victims s candidates needed
        ≡ map (λ c. c.name) (select_minimum_victims s candidates needed)
  unfolding greedy_min_victims select_minimum_victims
  greedy-eq-select s candidates needed =
      pick_names-map needed (fl.decimal 0 0) (s.sort victim_before candidates)

  -- A prefix of the candidates that stops at the first point where the need is met.
  pub record IsCut (needed acc : F) (all chosen rest : List PodInfo) : Type 0 where
    pub split : all ≡ chosen ++ rest
    pub enough : (rest ≡ []) ⊎ (fl.le needed (budget_from acc chosen) ≡ true)
    pub none_spare :
        (xs ys : List PodInfo) (x y : PodInfo)
        → chosen ≡ (x ∷ xs) ++ (y ∷ ys)
        → fl.le needed (budget_from acc (x ∷ xs)) ≡ false

  pick_rest : F → F → List PodInfo → List PodInfo
  pick_rest needed acc [] = []
  pick_rest needed acc (c ∷ cs) =
      let acc' = fl.add acc (millis c.cpu_millis) in
      let rest = pick_rest needed acc' cs in if fl.le needed acc' then cs else rest

  none_spare-cons :
      (needed acc : F) (c x y : PodInfo) (chosen xs ys : List PodInfo)
      → fl.le needed (fl.add acc (millis c.cpu_millis)) ≡ false
      → ((us vs : List PodInfo) (u v : PodInfo)
          → chosen ≡ (u ∷ us) ++ (v ∷ vs)
          → fl.le needed (budget_from (fl.add acc (millis c.cpu_millis)) (u ∷ us)) ≡ false)
      → c ∷ chosen ≡ (x ∷ xs) ++ (y ∷ ys)
      → fl.le needed (budget_from acc (x ∷ xs)) ≡ false
  unfolding budget_from
  none_spare-cons needed acc c x y chosen [] ys short ih e =
      let same : c ≡ x = cc in rw (← same) short
  none_spare-cons needed acc c x y chosen (u ∷ us) ys short ih e =
      let same : c ≡ x = cc in
      let rest : chosen ≡ (u ∷ us) ++ (y ∷ ys) = cc in rw (← same) (ih us ys u y rest)

  pick_from-IsCut :
      (needed acc : F) (cs : List PodInfo)
      → IsCut needed acc cs (pick_from needed acc cs) (pick_rest needed acc cs)
  unfolding pick_from pick_rest budget_from
  pick_from-IsCut needed acc [] = record {
    split = refl;
    enough = inl refl;
    none_spare = λ xs ys x y e. absurd (cc);
  }
  pick_from-IsCut needed acc (c ∷ cs) =
      let acc' = fl.add acc (millis c.cpu_millis) in
      let ih = pick_from-IsCut needed acc' cs in
      elim (Bool-cases (fl.le needed acc')) [
        | inl e ↦ rw e (record {
          split = refl;
          enough = inr e;
          none_spare = λ xs ys x y f.
              let g : [] ≡ xs ++ (y ∷ ys) = cc in absurd (append_cons-ne-nil xs ys y g);
        })
        | inr e ↦ rw e (record {
          split = ap (◌∷◌ c) ih.split;
          enough = ih.enough;
          none_spare = λ xs ys x y f.
              none_spare-cons needed acc c x y (pick_from needed acc' cs) xs ys e ih.none_spare f;
        })
      ]

  -- The victims are the head of the candidates in eviction order: they meet the need unless all
  -- candidates together do not, and no shorter non-empty head of them meets it.
  pub select_minimum_victims-IsCut :
      (s : Sorter) (candidates : List PodInfo) (needed : F)
      → (rest : List PodInfo) × IsCut needed
          (fl.decimal 0 0)
          (s.sort victim_before candidates)
          (select_minimum_victims s candidates needed)
          rest
  unfolding select_minimum_victims
  select_minimum_victims-IsCut s candidates needed = (
    pick_rest needed (fl.decimal 0 0) (s.sort victim_before candidates),
    pick_from-IsCut needed (fl.decimal 0 0) (s.sort victim_before candidates),
  )

  -- A candidate that is spared is of no lower criticality than a victim, and at the same
  -- criticality has no larger budget.
  pub spared_after_victims :
      (s : Sorter) (candidates rest : List PodInfo) (needed : F) (v p : PodInfo)
      → s.sort victim_before candidates ≡ select_minimum_victims s candidates needed ++ rest
      → Memᴰ v (select_minimum_victims s candidates needed)
      → Memᴰ p rest
      → (criticality_rank v.criticality ≤ criticality_rank p.criticality)
        × (criticality_rank v.criticality ≡ criticality_rank p.criticality
            → p.cpu_millis ≤ℤ v.cpu_millis)
  unfolding victim_before
  spared_after_victims s candidates rest needed v p split hv hp =
      let order : victim_before p v ≡ false =
        IsSorted-split (select_minimum_victims s candidates needed) rest v p
          (subst (IsSorted victim_before) split (
            s.sort-IsSorted (λ _. Unit {0}) victim_before victim_before-IsStrictOrder candidates
              (All-of_Memᴰ (λ _. Unit {0}) candidates (λ _ _. tt))))
          hv hp in
      (ground (arith, order), λ e. ground (arith, order, e))
