-- ===== src/CpuPool/Relisted.antt =====
-- internal/cpupool/cpupool.go: SelectBestNodeAndCore and CheckNodeCoreFeasibility on the same pools, each
-- with its own order of iteration over the maps.
use mc_kube.Prelude.{
  ◌≡◌, refl, ap, ◌∙◌, subst, String, Bool, true, List, [], ◌∷◌, inl, inr, ◌==◌, Bool-cases,
  Option-cases, ℤ, arith, lookup, string_eq, int_eq, Option, none, some,
}
use mathlib.Core.List.{Memᴰ, Permᴰ}
use mathlib.Core.List.Memᴰ
use mathlib.Core.List.Permᴰ
use mc_kube.Prelude.Float.{Float64}
use mc_kube.Prelude.Sort.{Sorter, Permᴰ-Memᴰ}
use mc_kube.CpuPool.{PodInfo, CpuPool, CpuCoreInfo, Pools, values}
use mc_kube.CpuPool.Search.{
  Verdict, direct, with_evict, refused, core_of, free_of, pods_of, judge,
  check_node_core_feasibility,
}
use mc_kube.CpuPool.Feasibility.{NamesVictim, judge_lem, report}

-- The same core, with its pods met in any order.
abbrev pub IsRelistedCore : Option CpuCoreInfo → Option CpuCoreInfo → Type 0
IsRelistedCore none none = Unit
IsRelistedCore none (some core') = ⊥
IsRelistedCore (some core) none = ⊥
IsRelistedCore (some core) (some core') =
    (core'.usage_millis ≡ core.usage_millis) × Permᴰ core'.pods core.pods

abbrev pub IsRelistedPool : Option CpuPool → Option CpuPool → Type 0
IsRelistedPool none none = Unit
IsRelistedPool none (some pool') = ⊥
IsRelistedPool (some pool) none = ⊥
IsRelistedPool (some pool) (some pool') =
    (id : ℤ) → IsRelistedCore (lookup id pool.cores) (lookup id pool'.cores)

-- The same pools, as another call may meet them: Go leaves the order of an iteration over a map open,
-- and each call ranges over the maps anew.
abbrev pub AreRelisted : Pools → Pools → Type 0
AreRelisted pools pools' =
    (node_name : String) → IsRelistedPool (lookup node_name pools) (lookup node_name pools')

-- Every call may meet the pools in the same order.
itself-IsRelistedCore : (core : Option CpuCoreInfo) → IsRelistedCore core core
itself-IsRelistedCore none = tt
itself-IsRelistedCore (some core) = (refl, Permᴰ.refl core.pods)

itself-IsRelistedPool : (pool : Option CpuPool) → IsRelistedPool pool pool
itself-IsRelistedPool none = tt
itself-IsRelistedPool (some pool) = λ id. itself-IsRelistedCore (lookup id pool.cores)

pub relisted_itself : (pools : Pools) → AreRelisted pools pools
relisted_itself pools node_name = itself-IsRelistedPool (lookup node_name pools)

-- A pool with one core, whose pods are met in another order.
pub relisted_one :
    (node_name : String) (core_id : ℤ) (core core' : CpuCoreInfo)
    → IsRelistedCore (some core) (some core')
    → AreRelisted
        ((node_name, record { node_name = node_name; cores = (core_id, core) ∷ [] }) ∷ [])
        ((node_name, record { node_name = node_name; cores = (core_id, core') ∷ [] }) ∷ [])
unfolding lookup
relisted_one node_name core_id core core' h name = elim (Bool-cases (node_name == name)) [
  | inr miss ↦ rw miss tt
  | inl hit ↦
      rw hit
        (λ id. elim (Bool-cases (core_id == id)) [ inr gone ↦ rw gone tt | inl found ↦ rw found h ])
]

relisted-core_of :
    (pool pool' : Option CpuPool) (core_id : ℤ)
    → IsRelistedPool pool pool'
    → IsRelistedCore (core_of pool core_id) (core_of pool' core_id)
unfolding core_of
relisted-core_of none none core_id h = tt
relisted-core_of none (some pool') core_id h = absurd h
relisted-core_of (some pool) none core_id h = absurd h
relisted-core_of (some pool) (some pool') core_id h = h core_id

values-perm : {xs ys : List (String × PodInfo)} → Permᴰ xs ys → Permᴰ (values xs) (values ys)
unfolding values
values-perm Permᴰ.nil = Permᴰ.nil
values-perm (Permᴰ.cons e p) = Permᴰ.cons (ap (λ q. q.1) e) (values-perm p)
values-perm (Permᴰ.swap e f) = Permᴰ.swap (ap (λ q. q.1) e) (ap (λ q. q.1) f)
values-perm (Permᴰ.trans p q) = Permᴰ.trans (values-perm p) (values-perm q)

relisted-pods :
    (core core' : Option CpuCoreInfo)
    → IsRelistedCore core core'
    → Permᴰ (pods_of core') (pods_of core)
relisted-pods none none h = Permᴰ.nil
relisted-pods none (some core') h = absurd h
relisted-pods (some core) none h = absurd h
relisted-pods (some core) (some core') h = values-perm h.1

module _ {F : Type 0} ⦃fl : Float64 F⦄ where
  relisted-free :
      (core core' : Option CpuCoreInfo)
      → IsRelistedCore core core'
      → free_of {F = F} core' ≡ free_of core
  unfolding free_of
  relisted-free none none h = refl
  relisted-free none (some core') h = absurd h
  relisted-free (some core) none h = absurd h
  relisted-free (some core) (some core') h = rw h.0 refl

module _ {F : Type 0} ⦃fl : Float64 F⦄ (s : Sorter) where
  check_is_report :
      (pools : Pools) (pool : CpuPool) (node_name : String) (core_id : ℤ) (required : F)
      (incoming : String)
      → lookup node_name pools ≡ some pool
      → check_node_core_feasibility s pools node_name core_id required incoming
        ≡ report (judge s required incoming (core_of (some pool) core_id))
  unfolding check_node_core_feasibility judge core_of
  check_is_report pools pool node_name core_id required incoming h =
      rw (h, check_node_core_feasibility) (ground arith)

  pub relisted-direct :
      (required : F) (incoming : String) (core core' : Option CpuCoreInfo)
      → IsRelistedCore core core'
      → judge s required incoming core ≡ direct
      → judge s required incoming core' ≡ direct
  relisted-direct required incoming core core' h d =
      (judge_lem s required incoming core').0.1
        (rw (relisted-free {F = F} core core' h) ((judge_lem s required incoming core).0.0 d))

  judge-same_pods :
      (required : F) (incoming : String) (core core' : Option CpuCoreInfo)
      → free_of {F = F} core' ≡ free_of core
      → pods_of core' ≡ pods_of core
      → judge s required incoming core' ≡ judge s required incoming core
  unfolding judge
  judge-same_pods required incoming core core' e f = rw (e, f) refl

  victims-named :
      (required : F) (incoming : String) (core core' : Option CpuCoreInfo)
      → IsRelistedCore core core'
      → (v : Verdict) → judge s required incoming core' ≡ v
      → (n : String) → Memᴰ n (report v).1
      → NamesVictim s required incoming core n
  victims-named required incoming core core' h direct e n m = absurd (Memᴰ.not-nil m)
  victims-named required incoming core core' h refused e n m = absurd (Memᴰ.not-nil m)
  victims-named required incoming core core' h (with_evict names) e n m =
      let (p, inside, named, lower) = ((judge_lem s required incoming core').1 names e).2 n m in
      (p, Permᴰ-Memᴰ p (relisted-pods core core' h) inside, named, lower)

  -- The validating webhook's check of a core, against the verdict of the mutating webhook's search at
  -- that core.
  abbrev pub IsConsistent :
      F → String → Option CpuCoreInfo → Option CpuCoreInfo → Bool × List String → Type 0
  IsConsistent required incoming core core' answer =
      (judge s required incoming core ≡ direct → answer ≡ (true, []))
      × ((n : String) → Memᴰ n answer.1 → NamesVictim s required incoming core n)
      × (pods_of core' ≡ pods_of core → answer ≡ report (judge s required incoming core))

  -- On a node that has a pool, with the pods of each core met in one order by the mutating webhook's
  -- search and in any other by the validating webhook's check. If the search takes a core as it is,
  -- the check admits it without victims. Every victim that the check names is a pod of that core of
  -- lower criticality. If both meet the pods of the core in the same order, the check gives the
  -- verdict of the search, victims included.
  pub check-IsConsistent :
      (pools pools' : Pools) (pool pool' : CpuPool) (node_name : String) (core_id : ℤ)
      (required : F) (incoming : String)
      → AreRelisted pools pools'
      → lookup node_name pools ≡ some pool
      → lookup node_name pools' ≡ some pool'
      → IsConsistent required incoming
          (lookup core_id pool.cores)
          (lookup core_id pool'.cores)
          (check_node_core_feasibility s pools' node_name core_id required incoming)
  unfolding core_of
  check-IsConsistent pools pools' pool pool' node_name core_id required incoming relisted e e' =
      let core = lookup core_id pool.cores in
      let core' = lookup core_id pool'.cores in
      let here : IsRelistedPool (some pool) (some pool') =
        subst (λ o. IsRelistedPool o (some pool')) e
          (subst (λ o. IsRelistedPool (lookup node_name pools) o) e' (relisted node_name)) in
      let same : IsRelistedCore core core' = here core_id in
      let told = check_is_report pools' pool' node_name core_id required incoming e' in
      (
        λ d. told ∙ ap report (relisted-direct required incoming core core' same d),
        λ n m.
            victims-named required incoming core core' same (judge s required incoming core') refl n
              (subst (λ (a : Bool × List String). Memᴰ n a.1) told m),
        λ f.
            told
            ∙ ap report
                (judge-same_pods required incoming core core' (relisted-free core core' same) f),
      )

  -- With a pool of the node or without.
  pub check-direct :
      (pools pools' : Pools) (node_name : String) (core_id : ℤ) (required : F) (incoming : String)
      → AreRelisted pools pools'
      → judge s required incoming (core_of (lookup node_name pools) core_id) ≡ direct
      → check_node_core_feasibility s pools' node_name core_id required incoming ≡ (true, [])
  unfolding check_node_core_feasibility
  check-direct pools pools' node_name core_id required incoming relisted d =
      elim (Option-cases (lookup node_name pools')) [
        | inl e ↦ rw (e, check_node_core_feasibility) refl
        | inr (pool', e) ↦
            let at_pool =
              relisted-direct required incoming (core_of (lookup node_name pools) core_id)
                (core_of (lookup node_name pools') core_id)
                (relisted-core_of (lookup node_name pools) (lookup node_name pools') core_id
                  (relisted node_name))
                d in
            check_is_report pools' pool' node_name core_id required incoming e
            ∙ ap report
                (subst (λ o. judge s required incoming (core_of o core_id) ≡ direct) e at_pool)
      ]
