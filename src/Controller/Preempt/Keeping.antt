-- ===== src/Controller/Preempt/Keeping.antt =====
-- internal/controller/mckube_controller.go: the accounts of a pool in which every pod stands on one
-- core, over the loop of checkAndPreemptForPod.
use mc_kube.Prelude.{
  ◌≡◌, refl, ◌∙◌, inl, inr, String, List, [], ◌∷◌, Option, none, some, All, All-map, lookup,
  lookup-AllValues, string_eq, int_eq, ℤ, Bool-cases, Option-cases,
}
use mc_kube.Prelude.Float.{Float64}
use mc_kube.Prelude.Sort.{Sorter}
use mc_kube.CpuPool.{PodInfo, CpuPool, values}
use mc_kube.CpuPool.Store.{get_pods_on_core}
use mc_kube.CpuPool.Accounting.{IsCounted}
use mc_kube.CpuPool.Distinct.{
  Differs, AreDistinct, All-filter, filter-AreDistinct, select-AreDistinct, values-AreDistinct,
}
use mc_kube.Controller.Preemption.{find_preemption_victims, find_migration_target_core}
use mc_kube.Controller.Candidates.{find_migration_target_core-HasRoom}
use mc_kube.Controller.Cluster.{ClusterPod, Got, got, absent, broken, Cluster}
use mc_kube.Controller.Preempt.{
  Preemption, preempt_to, preempt_got, preempt_pod, preempt_all, after_usage, select_if_any,
  victims_on, preempt_cores,
}
use mc_kube.Controller.Preempt.Lower.{select_if_any-All}
use mc_kube.Prelude.Sort.{All-zip}
use mc_kube.Controller.Preempt.Placed.{entry, IsPlaced, migrate-IsPlaced, entry-migrate_others}
use mc_kube.Controller.Preempt.Lower.{select_if_any-All}

-- The pod has an entry on the core.
abbrev pub StandsOn : ℤ → CpuPool → PodInfo → Type 0
StandsOn core_id p v = (w : PodInfo) × (entry p core_id v.name ≡ some w)

module _ (F : Type 0) ⦃fl : Float64 F⦄ (cluster : Cluster) where
  -- One preemption keeps the pool placed, and the entries of the other victims.
  abbrev Keeps : ℤ → PodInfo → CpuPool → CpuPool → Type 0
  Keeps core_id v p after =
      IsPlaced after
      × ((u : PodInfo) → Differs v u → StandsOn core_id p u → StandsOn core_id after u)

  preempt_to-Keeps :
      (pod : ClusterPod) (v : PodInfo) (core_id : ℤ) (target : Option ℤ) (p : Preemption)
      → IsPlaced p.pool
      → StandsOn core_id p.pool v
      → find_migration_target_core F p.pool core_id v.cpu_millis ≡ target
      → Keeps core_id v p.pool (preempt_to F cluster pod v core_id target p).0.pool
  preempt_to-Keeps pod v core_id none p placed here e = (placed, λ u differ stands. stands)
  preempt_to-Keeps pod v core_id (some new) p placed here e = (
    migrate-IsPlaced v here.0 core_id new p.pool placed here.1
        (find_migration_target_core-HasRoom F p.pool core_id v.cpu_millis new e).2,
    λ u differ stands. (
      stands.0,
      entry-migrate_others v here.0 core_id new p.pool placed u.name core_id differ ∙ stands.1,
    ),
  )

  preempt_got-Keeps :
      (v : PodInfo) (core_id : ℤ) (answer : Got ClusterPod) (p : Preemption)
      → IsPlaced p.pool
      → StandsOn core_id p.pool v
      → Keeps core_id v p.pool (preempt_got F cluster v core_id answer p).0.pool
  preempt_got-Keeps v core_id absent p placed here = (placed, λ u differ stands. stands)
  preempt_got-Keeps v core_id broken p placed here = (placed, λ u differ stands. stands)
  preempt_got-Keeps v core_id (got pod) p placed here =
      preempt_to-Keeps pod v core_id (find_migration_target_core F p.pool core_id v.cpu_millis) p
        placed here refl

  preempt_all-IsPlaced :
      (core_id : ℤ) (victims : List PodInfo) (p : Preemption)
      → IsPlaced p.pool
      → All (StandsOn core_id p.pool) victims
      → AreDistinct victims
      → IsPlaced (preempt_all F cluster core_id victims p).0.pool
  unfolding preempt_all preempt_pod
  preempt_all-IsPlaced core_id [] p placed here distinct = placed
  preempt_all-IsPlaced core_id (v ∷ victims) p placed here distinct =
      let kept = preempt_got-Keeps v core_id (cluster.get_pod v.namespace v.name) p placed here.0 in
      let after = (preempt_pod F cluster v core_id p).0 in
      preempt_all-IsPlaced core_id victims after kept.0
        (All-zip (Differs v) (StandsOn core_id p.pool) (StandsOn core_id after.pool) victims kept.1
          distinct.0 here.1)
        distinct.1

  get_pods_on_core-StandsOn :
      (pool : CpuPool) (core_id : ℤ)
      → IsPlaced pool
      → All (StandsOn core_id pool) (get_pods_on_core pool core_id)
        × AreDistinct (get_pods_on_core pool core_id)
  unfolding get_pods_on_core
  get_pods_on_core-StandsOn pool core_id placed = elim (Option-cases (lookup core_id pool.cores)) [
    | inl e ↦ rw (e, get_pods_on_core) (tt, tt)
    | inr (core, e) ↦
        let counted =
          lookup-AllValues IsCounted core_id core pool.cores placed.sound.cores_counted e in
        let (entries, distinct) =
          values-AreDistinct core.pods counted.distinct
            (λ name v h. placed.keyed name core_id v (rw e h)) in
        rw (e, get_pods_on_core)
          (
            All-map _ (StandsOn core_id pool) (values core.pods) (λ v h. (h.0, rw e h.1)) entries,
            distinct,
          )
  ]

  module _ (s : Sorter) (cpu_millis : ℤ) (criticality : String) where
    select_if_any-AreDistinct :
        (needed : F) (candidates : List PodInfo)
        → AreDistinct candidates
        → AreDistinct (select_if_any F cluster s cpu_millis criticality needed candidates)
    select_if_any-AreDistinct needed [] h = tt
    select_if_any-AreDistinct needed (c ∷ cs) h = select-AreDistinct F s (c ∷ cs) needed h

    victims_on-AreVictims :
        (pool : CpuPool) (core_id : ℤ)
        → IsPlaced pool
        → let victims = victims_on F cluster s cpu_millis criticality pool core_id in
          All (StandsOn core_id pool) victims × AreDistinct victims
    unfolding victims_on find_preemption_victims
    victims_on-AreVictims pool core_id placed =
        let (there, distinct) = get_pods_on_core-StandsOn pool core_id placed in
        elim (Bool-cases
          (fl.lt (fl.decimal 9 1) (after_usage F cluster s cpu_millis criticality pool core_id))) [
            | inr e ↦ rw e (tt, tt)
            | inl e ↦ rw e (
              select_if_any-All F cluster s cpu_millis criticality (StandsOn core_id pool) _ _
                  (All-filter _ _ _ there),
              select_if_any-AreDistinct _ _ (filter-AreDistinct _ _ distinct),
            )
          ]

    -- Where the accounts of a pool are right and every pod stands on one core at most, under its own
    -- name, that is so after the loop of checkAndPreemptForPod, over whatever cores it goes.
    pub preempt_cores-IsPlaced :
        (cores : List ℤ) (p : Preemption)
        → IsPlaced p.pool
        → IsPlaced (preempt_cores F cluster s cpu_millis criticality cores p).0.pool
    unfolding preempt_cores
    preempt_cores-IsPlaced [] p placed = placed
    preempt_cores-IsPlaced (core_id ∷ cores) p placed =
        let victims = victims_on F cluster s cpu_millis criticality p.pool core_id in
        let (there, distinct) = victims_on-AreVictims p.pool core_id placed in
        preempt_cores-IsPlaced cores (preempt_all F cluster core_id victims p).0
          (preempt_all-IsPlaced core_id victims p placed there distinct)
