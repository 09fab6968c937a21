-- ===== src/CpuPool/Accounting/Bulk.antt =====
-- internal/cpupool/cpupool.go: RemovePodFromPool and RemovePodsNotIn keep the accounts.
use mc_kube.Prelude.{
  ◌≡◌, refl, sym, ap, ◌∙◌, inl, inr, String, Bool, List, [], ◌∷◌, keys, IsMap-keys, none, lookup,
  IsMap, AllValues, ◌==◌, string_eq, int_eq, ℤ, pos, ◌+ℤ◌, ◌-ℤ◌, wrap64, wrap64--, arith,
  Bool-cases, +ℤ_regroup, +ℤ_drop_middle, zero-+ℤ, Comparable,
}
use mc_kube.CpuPool.{PodInfo, CpuCoreInfo, Pools}
use mc_kube.CpuPool.Store.{
  take_from_cores, remove_pod_from_pool, purge_pods, purge_core, map_values, remove_pods_not_in,
  exists_pod,
}
use mc_kube.CpuPool.Accounting.{total, IsCounted, IsSound, ArePoolsSound}
use mc_kube.CpuPool.Accounting.Methods.{take_pod-IsCounted}

take_from_cores-IsCounted :
    (pod_name : String) (cores : List (ℤ × CpuCoreInfo))
    → AllValues IsCounted cores
    → AllValues IsCounted (take_from_cores pod_name cores).0
unfolding take_from_cores
take_from_cores-IsCounted pod_name [] h = tt
take_from_cores-IsCounted pod_name ((id, core) ∷ cores) h =
    (take_pod-IsCounted pod_name core h.0, take_from_cores-IsCounted pod_name cores h.1)

take_from_cores-keys :
    (pod_name : String) (cores : List (ℤ × CpuCoreInfo))
    → keys cores ≡ keys (take_from_cores pod_name cores).0
unfolding take_from_cores
take_from_cores-keys pod_name [] = refl
take_from_cores-keys pod_name ((id, core) ∷ cores) =
    ap (◌∷◌ id) (take_from_cores-keys pod_name cores)

-- Taking a pod out of every core of every node keeps the accounts.
pub remove_pod_from_pool-ArePoolsSound :
    (pod_name : String) (pools : Pools)
    → ArePoolsSound pools
    → ArePoolsSound (remove_pod_from_pool pod_name pools).0
unfolding remove_pod_from_pool
remove_pod_from_pool-ArePoolsSound pod_name [] h = tt
remove_pod_from_pool-ArePoolsSound pod_name ((n, pool) ∷ pools) h = (
  record {
    cores_counted = take_from_cores-IsCounted pod_name pool.cores h.0.cores_counted;
    cores_distinct =
        IsMap-keys pool.cores _ (take_from_cores-keys pod_name pool.cores) h.0.cores_distinct;
  },
  remove_pod_from_pool-ArePoolsSound pod_name pools h.1,
)

purge_pods-counted :
    (existing : List (String × Bool)) (usage rest : ℤ) (pods : List (String × PodInfo))
    → usage ≡ wrap64 (rest +ℤ total pods)
    → let r = purge_pods existing usage pods in r.0 ≡ wrap64 (rest +ℤ total r.1)
unfolding purge_pods total
purge_pods-counted existing usage rest [] e = e
purge_pods-counted existing usage rest ((n, pi) ∷ pods) e =
    elim (Bool-cases (exists_pod existing n)) [
      | inl keep ↦ rw keep (
          purge_pods-counted existing usage (rest +ℤ pi.cpu_millis) pods
            (e ∙ ap wrap64 (+ℤ_regroup rest pi.cpu_millis (total pods)))
          ∙ ap wrap64 (sym (+ℤ_regroup rest pi.cpu_millis _)))
      | inr drop ↦ rw drop (
          purge_pods-counted existing (wrap64 (usage -ℤ pi.cpu_millis)) rest pods (
            ap (λ u. wrap64 (u -ℤ pi.cpu_millis)) e
            ∙ wrap64-- (rest +ℤ (pi.cpu_millis +ℤ total pods)) pi.cpu_millis
            ∙ ap wrap64 (+ℤ_drop_middle rest pi.cpu_millis (total pods))))
    ]

lookup-purge_pods :
    (existing : List (String × Bool)) (usage : ℤ) (n : String) (pods : List (String × PodInfo))
    → lookup n pods ≡ none
    → lookup n (purge_pods existing usage pods).1 ≡ none
unfolding purge_pods lookup
lookup-purge_pods existing usage n [] h = refl
lookup-purge_pods existing usage n ((j, pi) ∷ pods) h = elim (Bool-cases (j == n)) [
  | inl hit ↦ absurd (ground (arith, hit, h))
  | inr miss ↦ ground (
    arith,
    miss,
    h,
    lookup-purge_pods existing usage n pods,
    lookup-purge_pods existing (wrap64 (usage -ℤ pi.cpu_millis)) n pods,
  )
]

purge_pods-IsMap :
    (existing : List (String × Bool)) (usage : ℤ) (pods : List (String × PodInfo))
    → IsMap pods
    → IsMap (purge_pods existing usage pods).1
unfolding purge_pods
purge_pods-IsMap existing usage [] h = tt
purge_pods-IsMap existing usage ((j, pi) ∷ pods) h = elim (Bool-cases (exists_pod existing j)) [
  | inl keep ↦
      rw keep
        (lookup-purge_pods existing usage j pods h.0, purge_pods-IsMap existing usage pods h.1)
  | inr drop ↦ rw drop (purge_pods-IsMap existing (wrap64 (usage -ℤ pi.cpu_millis)) pods h.1)
]

purge_core-IsCounted :
    (existing : List (String × Bool)) (core : CpuCoreInfo)
    → IsCounted core
    → IsCounted (purge_core existing core)
unfolding purge_core
purge_core-IsCounted existing core c = record {
  counted =
      purge_pods-counted existing core.usage_millis (pos 0) core.pods
        (c.counted ∙ ap wrap64 (sym (zero-+ℤ (total core.pods))))
      ∙ ap wrap64 (zero-+ℤ _);
  distinct = purge_pods-IsMap existing core.usage_millis core.pods c.distinct;
}

map_values-AllValues {ℓ κ ι} :
    {K : Type ℓ} {V : Type κ} ⦃e : Comparable K⦄ (P : V → Type ι) (f : V → V)
    → ((v : V) → P v → P (f v))
    → (m : List (K × V)) → AllValues P m
    → AllValues P (map_values f m)
unfolding map_values
map_values-AllValues P f keep [] h = tt
map_values-AllValues P f keep ((k, v) ∷ m) h = (keep v h.0, map_values-AllValues P f keep m h.1)

map_values-keys {ℓ κ} :
    {K : Type ℓ} {V : Type κ} ⦃e : Comparable K⦄ (f : V → V) (m : List (K × V))
    → keys m ≡ keys (map_values f m)
unfolding map_values
map_values-keys f [] = refl
map_values-keys f ((k, v) ∷ m) = ap (◌∷◌ k) (map_values-keys f m)

pub remove_pods_not_in-ArePoolsSound :
    (existing : List (String × Bool)) (pools : Pools)
    → ArePoolsSound pools
    → ArePoolsSound (remove_pods_not_in existing pools)
unfolding remove_pods_not_in
remove_pods_not_in-ArePoolsSound existing pools h =
    map_values-AllValues IsSound _
      (λ p s. record {
        cores_counted =
            map_values-AllValues IsCounted (purge_core existing) (purge_core-IsCounted existing)
              p.cores s.cores_counted;
        cores_distinct =
            IsMap-keys p.cores _ (map_values-keys (purge_core existing) p.cores) s.cores_distinct;
      })
      pools h
