-- ===== src/Controller/Candidates.antt =====
-- internal/controller/mckube_controller.go: whom a preemption may hit, and where a migration goes.
use mc_kube.Prelude.{
  ◌≡◌, ◌≢◌, refl, sym, ap, subst, ◌∙◌, ◌⊎◌, inl, inr, String, true, ◌&&◌, not, List, [], ◌∷◌, some,
  filter, lookup, string_eq, int_eq, ◌==◌, ℤ, negsuc, arith, Bool-cases, Option-cases,
}
use mathlib.Core.List.{Memᴰ}
use mc_kube.Prelude.Float.{Float64, millis}
use mc_kube.CpuPool.{CpuCoreInfo, CpuPool}
use mc_kube.CpuPool.Store.{get_pods_on_core}
use mc_kube.CpuPool.Search.{pods_of}
use mc_kube.CpuPool.Victims.{pool_eviction_lookahead}
use mc_kube.CpuPool.Cover.{lookahead_from-filter}
use mc_kube.Controller.Preemption.{find_preemption_victims, target_from, find_migration_target_core}

get_pods_on_core-pods_of :
    (pool : CpuPool) (core_id : ℤ)
    → get_pods_on_core pool core_id ≡ pods_of (lookup core_id pool.cores)
unfolding get_pods_on_core
get_pods_on_core-pods_of pool core_id = elim (Option-cases (lookup core_id pool.cores)) [
  | inl e ↦ rw (e, get_pods_on_core) refl
  | inr (core, e) ↦ rw (e, get_pods_on_core) refl
]

module _ (F : Type 0) ⦃fl : Float64 F⦄ where
  -- The controller chooses its victims from exactly the pods that the admission counted on evicting.
  pub find_preemption_victims-lookahead :
      (pool : CpuPool) (core_id : ℤ) (criticality : String)
      → find_preemption_victims pool core_id criticality
        ≡ (pool_eviction_lookahead {F = F} (pods_of (lookup core_id pool.cores)) criticality).0
  unfolding find_preemption_victims pool_eviction_lookahead
  find_preemption_victims-lookahead pool core_id criticality =
      ap (filter _) (get_pods_on_core-pods_of pool core_id)
      ∙ sym
          (lookahead_from-filter {F = F} criticality (fl.decimal 0 0)
            (pods_of (lookup core_id pool.cores))).0

  -- A core of the list, not the one left, that has room for the victim.
  abbrev pub HasRoom : ℤ → F → List (ℤ × CpuCoreInfo) → ℤ → Type 0
  HasRoom current_core victim_budget cores id =
      (core : CpuCoreInfo) × Memᴰ (id, core) cores
      × (id ≢ current_core)
      × (fl.le (fl.add (millis core.usage_millis) victim_budget) (fl.decimal 9 1) ≡ true)

  target_from_lem :
      (current_core : ℤ) (victim_budget : F) (best_core : ℤ) (best_usage : F)
      (cores : List (ℤ × CpuCoreInfo))
      → let r = target_from F current_core victim_budget best_core best_usage cores in
        (r ≡ best_core) ⊎ HasRoom current_core victim_budget cores r
  unfolding target_from
  target_from_lem current_core victim_budget best_core best_usage [] = inl refl
  target_from_lem current_core victim_budget best_core best_usage ((id, core) ∷ cores) =
      let usage : F = millis core.usage_millis in
      elim (Bool-cases (
        not (id == current_core)
        && (fl.le (fl.add usage victim_budget) (fl.decimal 9 1) && fl.lt usage best_usage))) [
          | inl better ↦
              rw better (elim (target_from_lem current_core victim_budget id usage cores) [
                | inl same ↦ inr (
                  core,
                  Memᴰ.head (ap (λ i. (i, core)) same),
                  λ e.
                      let hit : (id == current_core) ≡ true =
                        (int_eq.equal_iff id current_core).1 (sym same ∙ e) in
                      ground (arith, better, hit),
                  ground (arith, better),
                )
                | inr (c, m, other, room) ↦ inr (c, Memᴰ.tail m, other, room)
              ])
          | inr worse ↦
              rw worse
                (elim (target_from_lem current_core victim_budget best_core best_usage cores) [
                  | inl same ↦ inl same
                  | inr (c, m, other, room) ↦ inr (c, Memᴰ.tail m, other, room)
                ])
        ]

  -- A migration goes to another core of the pool, whose usage with the budget of the victim is at
  -- most 0.9.
  pub find_migration_target_core-HasRoom :
      (pool : CpuPool) (current_core victim_cpu_millis id : ℤ)
      → find_migration_target_core F pool current_core victim_cpu_millis ≡ some id
      → HasRoom current_core (millis victim_cpu_millis) pool.cores id
  unfolding find_migration_target_core
  find_migration_target_core-HasRoom pool current_core victim_cpu_millis id h =
      let best =
        target_from F current_core (millis victim_cpu_millis) (negsuc 0) (fl.decimal 2 0)
          pool.cores in
      elim (Bool-cases (best == negsuc 0)) [
        | inl nothing ↦ absurd (ground (arith, h, nothing))
        | inr found ↦
            let same : best ≡ id = ground (arith, h, found) in
            elim (target_from_lem current_core (millis victim_cpu_millis) (negsuc 0)
              (fl.decimal 2 0) pool.cores) [
                | inl e ↦ absurd (
                    let q : (best == negsuc 0) ≡ true = (int_eq.equal_iff _ _).1 e in
                    ground (arith, q, found))
                | inr room ↦
                    subst (HasRoom current_core (millis victim_cpu_millis) pool.cores) same room
              ]
      ]
