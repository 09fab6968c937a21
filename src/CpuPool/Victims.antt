-- ===== src/CpuPool/Victims.antt =====
-- internal/cpupool/cpupool.go: which pods an incoming pod may evict, and which it does.
use mc_kube.Prelude.{String, Bool, List, [], ◌∷◌, nat_eq, ◌==◌, ltb, ltb_ℤ, arith, if◌then◌else◌}
use mc_kube.Prelude.Float.{Float64, millis}
use mc_kube.Prelude.Sort.{Sorter, IsStrictOrder}
use mc_kube.CpuPool.{PodInfo, criticality_rank}

-- The `less` of both victim sorts: lowest criticality first, then the largest budget.
unfoldable pub victim_before : PodInfo → PodInfo → Bool
victim_before a b =
    let ri = criticality_rank a.criticality in
    let rj = criticality_rank b.criticality in
    if ri == rj then ltb_ℤ b.cpu_millis a.cpu_millis else ltb ri rj

pub victim_before-IsStrictOrder : IsStrictOrder (λ _. Unit {0}) victim_before
unfolding victim_before
victim_before-IsStrictOrder = record {
  asym = λ x y _ _ h. ground arith;
  incomparable_trans = λ x y z _ _ _ h k. ground arith;
}

module _ {F : Type 0} ⦃fl : Float64 F⦄ where
  unfoldable pub lookahead_from : String → F → List PodInfo → List PodInfo × F
  lookahead_from incoming_criticality total [] = ([], total)
  lookahead_from incoming_criticality total (pod ∷ pods) =
      let lower = ltb (criticality_rank pod.criticality) (criticality_rank incoming_criticality) in
      let (victims, total') =
        lookahead_from incoming_criticality
          (if lower then fl.add total (millis pod.cpu_millis) else total) pods in
      (if lower then pod ∷ victims else victims, total')

  -- The evictable pods, and their budgets added up.
  unfoldable pub pool_eviction_lookahead : List PodInfo → String → List PodInfo × F
  unfolding lookahead_from
  pool_eviction_lookahead pods incoming_criticality =
      lookahead_from incoming_criticality (fl.decimal 0 0) pods

  -- `acc += float64(c.CPUMillis) / 1000.0`, over a whole slice.
  unfoldable pub budget_from : F → List PodInfo → F
  budget_from acc [] = acc
  budget_from acc (c ∷ cs) = budget_from (fl.add acc (millis c.cpu_millis)) cs

  unfoldable pub budget : List PodInfo → F
  unfolding budget_from
  budget cs = budget_from (fl.decimal 0 0) cs

  -- The loop of `SelectMinimumVictims`, with `acc` on entry.
  unfoldable pub pick_from : F → F → List PodInfo → List PodInfo
  pick_from needed acc [] = []
  pick_from needed acc (c ∷ cs) =
      let acc' = fl.add acc (millis c.cpu_millis) in
      let rest = pick_from needed acc' cs in c ∷ (if fl.le needed acc' then [] else rest)

  unfoldable pub select_minimum_victims : Sorter → List PodInfo → F → List PodInfo
  unfolding pick_from
  select_minimum_victims s candidates needed =
      pick_from needed (fl.decimal 0 0) (s.sort victim_before candidates)

  -- The loop of `greedyMinVictims`, which keeps the names.
  unfoldable pub pick_names_from : F → F → List PodInfo → List String
  pick_names_from needed acc [] = []
  pick_names_from needed acc (c ∷ cs) =
      let acc' = fl.add acc (millis c.cpu_millis) in
      let rest = pick_names_from needed acc' cs in c.name ∷ (if fl.le needed acc' then [] else rest)

  unfoldable pub greedy_min_victims : Sorter → List PodInfo → F → List String
  unfolding pick_names_from
  greedy_min_victims s candidates needed =
      pick_names_from needed (fl.decimal 0 0) (s.sort victim_before candidates)
