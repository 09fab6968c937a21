-- ===== src/Controller/Preempt/Lower.antt =====
-- internal/controller/mckube_controller.go: whom a preemption touches.
use mc_kube.Prelude.{
  lookup, int_eq, Option-cases, ◌≡◌, refl, ap, sym, ◌∙◌, inl, inr, String, ◌<◌, List, [], ◌∷◌,
  Option, none, some, All, All-append, All-map, All-of_Memᴰ, Memᴰ-filter, string_eq, ℤ, arith,
  Bool-cases,
}
use mc_kube.Prelude.Float.{Float64}
use mc_kube.Prelude.Sort.{Sorter}
use mc_kube.CpuPool.{PodInfo, CpuPool, criticality_rank}
use mc_kube.CpuPool.Store.{get_pods_on_core}
use mc_kube.CpuPool.Distinct.{select-All}
use mathlib.Core.List.{Memᴰ}
use mathlib.Core.List.Memᴰ
use mc_kube.Controller.Preempt.Standing.{
  StoodIn, Memᴰ-AllValues, ArePods, migrate-ArePods, StoodIn-ArePods,
}
use mc_kube.Controller.Preemption.{find_preemption_victims, find_migration_target_core}
use mc_kube.Controller.Cluster.{ClusterPod, Effect, Got, got, absent, broken, Cluster}
use mc_kube.Controller.Preempt.{
  Preemption, preempt_to, preempt_got, preempt_pod, preempt_all, after_usage, victims_on,
  select_if_any, preempt_cores,
}
use mc_kube.Controller.Preempt.Subject.{subject, IsFor, preempt_to-IsFor}

abbrev pub IsLower : String → PodInfo → Type 0
IsLower criticality v = criticality_rank v.criticality < criticality_rank criticality

module _ (F : Type 0) ⦃fl : Float64 F⦄ (cluster : Cluster) where
  -- A pod of lower criticality that stands on a core of this pool.
  abbrev pub IsBelow : CpuPool → String → PodInfo → Type 0
  IsBelow pool criticality v = IsLower criticality v × StoodIn pool v

  -- It is for a pod that the API server gives for a victim of lower criticality on a core of the
  -- pool.
  abbrev pub IsOverLower : CpuPool → String → Effect → Type 0
  IsOverLower pool criticality effect =
      (v : PodInfo) × IsBelow pool criticality v
      × (cluster.get_pod v.namespace v.name ≡ got (subject effect))

  module _ (start : CpuPool) (criticality : String) where
    preempt_got-IsOverLower :
        (victim : PodInfo) (current_core : ℤ) (answer : Got ClusterPod) (p : Preemption)
        → IsBelow start criticality victim
        → cluster.get_pod victim.namespace victim.name ≡ answer
        → All (IsOverLower start criticality) (preempt_got F cluster victim current_core answer p).1
    preempt_got-IsOverLower victim current_core absent p low e = tt
    preempt_got-IsOverLower victim current_core broken p low e = tt
    preempt_got-IsOverLower victim current_core (got pod) p low e =
        let target = find_migration_target_core F p.pool current_core victim.cpu_millis in
        All-map (IsFor pod) (IsOverLower start criticality)
          (preempt_to F cluster pod victim current_core target p).1
          (λ effect same. (victim, low, e ∙ sym (ap got same)))
          (preempt_to-IsFor F cluster pod victim current_core target p)

    preempt_to-ArePods :
        (pod : ClusterPod) (victim : PodInfo) (current_core : ℤ) (target : Option ℤ)
        (p : Preemption)
        → StoodIn start victim
        → ArePods (StoodIn start) p.pool
        → ArePods (StoodIn start) (preempt_to F cluster pod victim current_core target p).0.pool
    preempt_to-ArePods pod victim current_core none p stood h = h
    preempt_to-ArePods pod victim current_core (some new_core) p stood h =
        migrate-ArePods (StoodIn start) victim current_core new_core p.pool stood h

    preempt_got-ArePods :
        (victim : PodInfo) (current_core : ℤ) (answer : Got ClusterPod) (p : Preemption)
        → StoodIn start victim
        → ArePods (StoodIn start) p.pool
        → ArePods (StoodIn start) (preempt_got F cluster victim current_core answer p).0.pool
    preempt_got-ArePods victim current_core absent p stood h = h
    preempt_got-ArePods victim current_core broken p stood h = h
    preempt_got-ArePods victim current_core (got pod) p stood h =
        preempt_to-ArePods pod victim current_core
          (find_migration_target_core F p.pool current_core victim.cpu_millis) p stood h

    preempt_all-ArePods :
        (core_id : ℤ) (victims : List PodInfo) (p : Preemption)
        → All (IsBelow start criticality) victims
        → ArePods (StoodIn start) p.pool
        → ArePods (StoodIn start) (preempt_all F cluster core_id victims p).0.pool
    unfolding preempt_all preempt_pod
    preempt_all-ArePods core_id [] p low h = h
    preempt_all-ArePods core_id (v ∷ victims) p low h =
        preempt_all-ArePods core_id victims (preempt_pod F cluster v core_id p).0 low.1
          (preempt_got-ArePods v core_id (cluster.get_pod v.namespace v.name) p low.0.1 h)

    preempt_all-IsOverLower :
        (core_id : ℤ) (victims : List PodInfo) (p : Preemption)
        → All (IsBelow start criticality) victims
        → All (IsOverLower start criticality) (preempt_all F cluster core_id victims p).1
    unfolding preempt_all preempt_pod
    preempt_all-IsOverLower core_id [] p low = tt
    preempt_all-IsOverLower core_id (v ∷ victims) p low =
        All-append (IsOverLower start criticality) _ _
          (preempt_got-IsOverLower v core_id (cluster.get_pod v.namespace v.name) p low.0 refl)
          (preempt_all-IsOverLower core_id victims (preempt_pod F cluster v core_id p).0 low.1)

  module _ (s : Sorter) where
    on_core-All :
        (P : PodInfo → Type 0) (pool : CpuPool) (core_id : ℤ) (v : PodInfo)
        → ArePods P pool
        → Memᴰ v (get_pods_on_core pool core_id)
        → P v
    unfolding get_pods_on_core
    on_core-All P pool core_id v h m = elim (Option-cases (lookup core_id pool.cores)) [
      | inl e ↦ absurd (let q : Memᴰ v [] = rw (e, get_pods_on_core) at m in Memᴰ.not-nil q)
      | inr (core, e) ↦
          Memᴰ-AllValues P v core.pods (h core_id core e) (rw (e, get_pods_on_core) at m)
    ]

    find_preemption_victims-IsBelow :
        (start pool : CpuPool) (core_id : ℤ) (criticality : String)
        → ArePods (StoodIn start) pool
        → All (IsBelow start criticality) (find_preemption_victims pool core_id criticality)
    unfolding find_preemption_victims
    find_preemption_victims-IsBelow start pool core_id criticality h =
        All-of_Memᴰ (IsBelow start criticality) _ (λ v m.
          let found = Memᴰ-filter _ v (get_pods_on_core pool core_id) m in
          (ground (arith, found.1), on_core-All (StoodIn start) pool core_id v h found.0))

    module _ (cpu_millis : ℤ) (criticality : String) where
      pub select_if_any-All {κ} :
          (P : PodInfo → Type κ) (needed : F) (candidates : List PodInfo)
          → All P candidates
          → All P (select_if_any F cluster s cpu_millis criticality needed candidates)
      select_if_any-All P needed [] h = tt
      select_if_any-All P needed (c ∷ cs) h = select-All F s (c ∷ cs) needed P h

      victims_on-IsBelow :
          (start pool : CpuPool) (core_id : ℤ)
          → ArePods (StoodIn start) pool
          → All
              (IsBelow start criticality)
              (victims_on F cluster s cpu_millis criticality pool core_id)
      unfolding victims_on
      victims_on-IsBelow start pool core_id h =
          elim (Bool-cases (
            fl.lt (fl.decimal 9 1) (after_usage F cluster s cpu_millis criticality pool core_id))) [
              | inr e ↦ rw e tt
              | inl e ↦ rw e (
                  select_if_any-All (IsBelow start criticality) _ _
                    (find_preemption_victims-IsBelow start pool core_id criticality h))
            ]

      cores-IsOverLower :
          (start : CpuPool) (cores : List ℤ) (p : Preemption)
          → ArePods (StoodIn start) p.pool
          → All
              (IsOverLower start criticality)
              (preempt_cores F cluster s cpu_millis criticality cores p).1
      unfolding preempt_cores
      cores-IsOverLower start [] p h = tt
      cores-IsOverLower start (core_id ∷ cores) p h =
          let victims = victims_on F cluster s cpu_millis criticality p.pool core_id in
          let below = victims_on-IsBelow start p.pool core_id h in
          All-append (IsOverLower start criticality) _ _
            (preempt_all-IsOverLower start criticality core_id victims p below)
            (cores-IsOverLower start cores (preempt_all F cluster core_id victims p).0
              (preempt_all-ArePods start criticality core_id victims p below h))

      -- Whatever the loop of checkAndPreemptForPod sends, a request, a status, a label or an
      -- eviction, is for the pod that the API server gives for the name of a pod that stood on a core
      -- of the pool when the loop began, as it was entered there, and is of lower criticality than the
      -- pod that is to come.
      pub preempt_cores-IsOverLower :
          (cores : List ℤ) (p : Preemption)
          → All
              (IsOverLower p.pool criticality)
              (preempt_cores F cluster s cpu_millis criticality cores p).1
      preempt_cores-IsOverLower cores p = cores-IsOverLower p.pool cores p (StoodIn-ArePods p.pool)
