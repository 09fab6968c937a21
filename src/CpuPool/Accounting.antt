-- ===== src/CpuPool/Accounting.antt =====
-- internal/cpupool/cpupool.go: the usage of a core against the budgets of its pods.
pub mod Methods
pub mod Bulk
pub mod History
use mc_kube.Prelude.{
  ℕ, zero, suc, ◌+◌, ◌≡◌, refl, sym, ap, ◌∙◌, ◌≢◌, inl, inr, String, Bool, true, false, List, [],
  ◌∷◌, keys, IsMap-keys, lookup-insert_self, lookup-delete_self, Option, none, some, lookup, insert,
  delete, IsMap, AllValues, lookup-AllValues, insert-AllValues, insert-IsMap, delete-IsMap, ◌==◌,
  string_eq, int_eq, ℤ, pos, pos_part, neg_part, ◌+ℤ◌, ◌-ℤ◌, wrap64, wrap64-+, wrap64--,
  wrap64_fits, ◌≤ℤ◌, ◌<ℤ◌, int_laws, arith, Bool-cases, Option-cases, if◌then◌else◌, +ℤ_regroup,
  +ℤ_regroup_sub, -ℤ_drop_left, +ℤ_drop_middle, +ℤ_comm,
}
use mc_kube.CpuPool.{PodInfo, CpuCoreInfo, CpuPool, Pools}
use mc_kube.CpuPool.Store.{
  fresh_cores, get_or_create_cpu_pool, update_pool, take_pod, take_from_cores, remove_pod_from_pool,
  purge_pods, purge_core, map_values, remove_pods_not_in, add_pod_to_core, remove_pod_from_core,
  exists_pod,
}

-- The exact sum of the budgets of a core's pods.
unfoldable pub total : List (String × PodInfo) → ℤ
total [] = pos 0
total ((pod_name, pi) ∷ pods) = pi.cpu_millis +ℤ total pods

pub total-insert_new :
    (k : String) (pi : PodInfo) (pods : List (String × PodInfo))
    → lookup k pods ≡ none
    → total (insert k pi pods) ≡ total pods +ℤ pi.cpu_millis
unfolding total lookup insert
total-insert_new k pi [] h = +ℤ_comm _ _
total-insert_new k pi ((j, w) ∷ pods) h = elim (Bool-cases (j == k)) [
  | inl hit ↦ absurd (ground (arith, hit, h))
  | inr miss ↦ rw miss (
      ap (λ t. w.cpu_millis +ℤ t) (total-insert_new k pi pods (ground (arith, miss, h)))
      ∙ +ℤ_regroup w.cpu_millis (total pods) pi.cpu_millis)
]

pub total-delete :
    (k : String) (old : PodInfo) (pods : List (String × PodInfo))
    → lookup k pods ≡ some old
    → total (delete k pods) ≡ total pods -ℤ old.cpu_millis
unfolding total lookup delete
total-delete k old [] h = absurd (cc)
total-delete k old ((j, w) ∷ pods) h = elim (Bool-cases (j == k)) [
  | inl hit ↦
      let e : w ≡ old = ground (arith, hit, h) in
      rw (hit, ← e) (sym (-ℤ_drop_left (total pods) w.cpu_millis))
  | inr miss ↦ rw miss (
      ap (λ t. w.cpu_millis +ℤ t) (total-delete k old pods (ground (arith, miss, h)))
      ∙ +ℤ_regroup_sub w.cpu_millis (total pods) old.cpu_millis)
]

-- Writing over an entry is taking it out and entering the new one.
pub total-insert :
    (k : String) (pi old : PodInfo) (pods : List (String × PodInfo))
    → lookup k pods ≡ some old
    → total (insert k pi pods) ≡ total (delete k pods) +ℤ pi.cpu_millis
unfolding total lookup insert delete
total-insert k pi old [] h = absurd (cc)
total-insert k pi old ((j, w) ∷ pods) h = elim (Bool-cases (j == k)) [
  | inl hit ↦ rw hit (+ℤ_comm pi.cpu_millis (total pods))
  | inr miss ↦ rw miss (
      ap (λ t. w.cpu_millis +ℤ t) (total-insert k pi old pods (ground (arith, miss, h)))
      ∙ +ℤ_regroup w.cpu_millis (total (delete k pods)) pi.cpu_millis)
]

-- The usage is the sum of the budgets as an `int64` holds it, and no pod is entered twice.
pub record IsCounted (core : CpuCoreInfo) : Type 0 where
  pub counted : core.usage_millis ≡ wrap64 (total core.pods)
  pub distinct : IsMap core.pods

pub record IsSound (p : CpuPool) : Type 0 where
  pub cores_counted : AllValues IsCounted p.cores
  pub cores_distinct : IsMap p.cores

abbrev pub ArePoolsSound : Pools → Type 0
ArePoolsSound pools = AllValues IsSound pools

-- The pod does not stand on this core.
abbrev pub IsAbsent : ℤ → String → CpuPool → Type 0
IsAbsent core_id pod_name p =
    (core : CpuCoreInfo) → lookup core_id p.cores ≡ some core → lookup pod_name core.pods ≡ none
