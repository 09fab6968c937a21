-- ===== src/Controller/Migration.antt =====
-- internal/controller/mckube_controller.go: what the migration of preemptPod does to the pool.
use mc_kube.Prelude.{◌≡◌, ◌≢◌, false, sym, inl, inr, Bool-cases, ◌∙◌, int_eq, ◌==◌, ℤ}
use mc_kube.CpuPool.{PodInfo, CpuPool}
use mc_kube.CpuPool.Store.{remove_pod_from_core}
use mc_kube.CpuPool.Accounting.{IsSound, IsAbsent}
use mc_kube.CpuPool.Accounting.Methods.{
  add_pod_to_core-IsSound, remove_pod_from_core-IsSound, remove_pod_from_core-IsAbsent,
}
use mc_kube.Controller.Preemption.{migrate}
use mc_kube.Controller.Registered.{
  HasEntry, add_pod_to_core-HasEntry, lookup-add_pod_to_core, lookup-remove_pod_from_core,
}

is_other : (a b : ℤ) → a ≢ b → (a == b) ≡ false
is_other a b differ = elim (Bool-cases (a == b)) [
  | inl hit ↦ absurd (differ ((int_eq.equal_iff a b).0 hit))
  | inr miss ↦ miss
]

-- A migration to another core that does not hold the victim keeps the accounts of the pool right:
-- the victim is no longer on the core it leaves, and on the other core where the pool has it.
pub migrate-Moves :
    (victim : PodInfo) (current_core new_core : ℤ) (p : CpuPool)
    → IsSound p
    → new_core ≢ current_core
    → IsAbsent new_core victim.name p
    → let after = migrate victim current_core new_core p in
      IsSound after × IsAbsent current_core victim.name after × HasEntry victim after new_core
unfolding migrate
migrate-Moves victim current_core new_core p sound other away =
    let left = remove_pod_from_core current_core victim.name p in
    (
      add_pod_to_core-IsSound new_core victim left
          (remove_pod_from_core-IsSound current_core victim.name p sound)
          (λ core e.
            let kept =
              lookup-remove_pod_from_core victim.name p current_core new_core
                (is_other _ _ (λ q. other (sym q))) in
            away core (sym kept ∙ e)),
      λ core e.
          remove_pod_from_core-IsAbsent current_core victim.name p sound core (
            sym (lookup-add_pod_to_core victim left new_core current_core (is_other _ _ other))
            ∙ e),
      add_pod_to_core-HasEntry victim left new_core,
    )
