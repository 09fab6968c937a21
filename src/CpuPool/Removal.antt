-- ===== src/CpuPool/Removal.antt =====
-- internal/cpupool/cpupool.go: what RemovePodFromPool and RemovePodsNotIn take out, seen through one
-- view of the pools: the entry of a pod on a core of a node.
use mc_kube.Prelude.{
  ◌≡◌, refl, ap, ap₂, ◌∙◌, inl, inr, String, Bool, true, List, [], ◌∷◌, Option, none, some, lookup,
  lookup-delete_ne, lookup-delete_self, IsMap, AllValues, string_eq, int_eq, ◌==◌, ==_refl,
  Comparable, ℤ, ◌-ℤ◌, wrap64, arith, Bool-cases, Option-cases, if◌then◌else◌,
}
use mathlib.Core.Option
use text.Mathlib.TextEquality.{eq_iff}
use mc_kube.CpuPool.{PodInfo, CpuCoreInfo, CpuPool, Pools}
use mc_kube.CpuPool.Store.{
  take_pod, take_from_cores, remove_pod_from_pool, exists_pod, purge_pods, purge_core, map_values,
  remove_pods_not_in,
}
use mc_kube.CpuPool.Accounting.{IsCounted, ArePoolsSound}

abbrev pub on_core : String → Option CpuCoreInfo → Option PodInfo
on_core name none = none
on_core name (some core) = lookup name core.pods

abbrev pub on_pool : ℤ → String → Option CpuPool → Option PodInfo
on_pool core_id name none = none
on_pool core_id name (some pool) = on_core name (lookup core_id pool.cores)

-- The entry of a pod on a core of a node.
abbrev pub find_pod : String → ℤ → String → Pools → Option PodInfo
find_pod node core_id name pools = on_pool core_id name (lookup node pools)

pub lookup-map_values {ℓ κ} :
    {K : Type ℓ} {V : Type κ} ⦃e : Comparable K⦄ (f : V → V) (k : K) (m : List (K × V))
    → lookup k (map_values f m) ≡ Option.map f (lookup k m)
unfolding lookup map_values
lookup-map_values f k [] = refl
lookup-map_values f k ((j, v) ∷ m) = ground (arith, lookup-map_values f k m)

abbrev pub take_everywhere : String → CpuPool → CpuPool
take_everywhere name pool = record pool { cores = map_values (λ c. (take_pod name c).0) pool.cores }

pub take_from_cores-map_values :
    (name : String) (cores : List (ℤ × CpuCoreInfo))
    → (take_from_cores name cores).0 ≡ map_values (λ c. (take_pod name c).0) cores
unfolding take_from_cores map_values
take_from_cores-map_values name [] = refl
take_from_cores-map_values name ((id, c) ∷ cores) =
    ap (◌∷◌ (id, (take_pod name c).0)) (take_from_cores-map_values name cores)

pub remove-map_values :
    (name : String) (pools : Pools)
    → (remove_pod_from_pool name pools).0 ≡ map_values (take_everywhere name) pools
unfolding remove_pod_from_pool map_values
remove-map_values name [] = refl
remove-map_values name ((n, p) ∷ pools) =
    ap₂ (λ cores rest. (n, record p { cores = cores }) ∷ rest)
      (take_from_cores-map_values name p.cores) (remove-map_values name pools)

pub lookup-take_pod :
    (name other : String) (core : CpuCoreInfo)
    → IsCounted core
    → lookup other (take_pod name core).0.pods
      ≡ (if name == other then none else lookup other core.pods)
unfolding take_pod
lookup-take_pod name other core c = elim (Bool-cases (name == other)) [
  | inl hit ↦
      let same : name ≡ other = (eq_iff name other).0 hit in
      elim (Option-cases (lookup name core.pods)) [
        | inl e ↦ rw (e, take_pod, hit, ← same) e
        | inr (pi, e) ↦ rw (e, take_pod, hit, ← same) (lookup-delete_self name core.pods c.distinct)
      ]
  | inr miss ↦ elim (Option-cases (lookup name core.pods)) [
    | inl e ↦ rw (e, take_pod, miss) refl
    | inr (pi, e) ↦
        rw (e, take_pod, miss)
          (lookup-delete_ne name other core.pods
            (λ s. absurd (ground (arith, miss, ==_refl other, s))))
  ]
]

on_core-take_pod :
    (name other : String) (core_id : ℤ) (cores : List (ℤ × CpuCoreInfo))
    → AllValues IsCounted cores
    → on_core other (lookup core_id (map_values (λ c. (take_pod name c).0) cores))
      ≡ (if name == other then none else on_core other (lookup core_id cores))
unfolding map_values lookup
on_core-take_pod name other core_id [] h = elim (Bool-cases (name == other)) [
  | inl e ↦ rw e refl
  | inr e ↦ rw e refl
]
on_core-take_pod name other core_id ((i, c) ∷ cores) h = elim (Bool-cases (i == core_id)) [
  | inl hit ↦ rw hit (lookup-take_pod name other c h.0)
  | inr miss ↦ rw miss (on_core-take_pod name other core_id cores h.1)
]

find-take_everywhere :
    (pools : Pools)
    → ArePoolsSound pools
    → (node : String) (core_id : ℤ) (name other : String)
    → find_pod node core_id other (map_values (take_everywhere name) pools)
      ≡ (if name == other then none else find_pod node core_id other pools)
unfolding map_values lookup
find-take_everywhere [] h node core_id name other = elim (Bool-cases (name == other)) [
  | inl e ↦ rw e refl
  | inr e ↦ rw e refl
]
find-take_everywhere ((n, p) ∷ pools) h node core_id name other = elim (Bool-cases (n == node)) [
  | inl hit ↦ rw hit (on_core-take_pod name other core_id p.cores h.0.cores_counted)
  | inr miss ↦ rw miss (find-take_everywhere pools h.1 node core_id name other)
]

-- Where the accounts are sound, RemovePodFromPool takes the named pod off every core of every node,
-- and leaves the entry of every other pod as it is.
pub find-remove_pod_from_pool :
    (pools : Pools)
    → ArePoolsSound pools
    → (node : String) (core_id : ℤ) (name other : String)
    → find_pod node core_id other (remove_pod_from_pool name pools).0
      ≡ (if name == other then none else find_pod node core_id other pools)
find-remove_pod_from_pool pools h node core_id name other =
    rw (remove-map_values name pools) (find-take_everywhere pools h node core_id name other)

pub lookup-purge_pods :
    (existing : List (String × Bool)) (usage : ℤ) (other : String) (pods : List (String × PodInfo))
    → IsMap pods
    → lookup other (purge_pods existing usage pods).1
      ≡ (if exists_pod existing other then lookup other pods else none)
unfolding purge_pods lookup
lookup-purge_pods existing usage other [] h = ground arith
lookup-purge_pods existing usage other ((n, pi) ∷ pods) h = elim (Bool-cases (n == other)) [
  | inl hit ↦
      let same : n ≡ other = (eq_iff n other).0 hit in
      let hit_self : (n == n) ≡ true = ==_refl n in
      elim (Bool-cases (exists_pod existing n)) [
        | inl keep ↦ rw (← same, keep, hit_self) refl
        | inr drop ↦ rw (← same, drop) (lookup-purge_pods existing _ n pods h.1 ∙ rw drop refl)
      ]
  | inr miss ↦ elim (Bool-cases (exists_pod existing n)) [
    | inl keep ↦ rw (keep, miss) (lookup-purge_pods existing usage other pods h.1)
    | inr drop ↦
        rw (drop, miss)
          (lookup-purge_pods existing (wrap64 (usage -ℤ pi.cpu_millis)) other pods h.1)
  ]
]

on_core-purge :
    (existing : List (String × Bool)) (other : String) (core_id : ℤ)
    (cores : List (ℤ × CpuCoreInfo))
    → AllValues IsCounted cores
    → on_core other (lookup core_id (map_values (purge_core existing) cores))
      ≡ (if exists_pod existing other then on_core other (lookup core_id cores) else none)
unfolding map_values lookup purge_core
on_core-purge existing other core_id [] h = ground arith
on_core-purge existing other core_id ((i, c) ∷ cores) h = elim (Bool-cases (i == core_id)) [
  | inl hit ↦ rw hit (lookup-purge_pods existing c.usage_millis other c.pods h.0.distinct)
  | inr miss ↦ rw miss (on_core-purge existing other core_id cores h.1)
]

-- Where the accounts are sound, RemovePodsNotIn keeps exactly the entries of the pods that the
-- given map says exist, on every core of every node.
pub find-remove_pods_not_in :
    (existing : List (String × Bool)) (pools : Pools)
    → ArePoolsSound pools
    → (node : String) (core_id : ℤ) (other : String)
    → find_pod node core_id other (remove_pods_not_in existing pools)
      ≡ (if exists_pod existing other then find_pod node core_id other pools else none)
unfolding remove_pods_not_in map_values lookup
find-remove_pods_not_in existing [] h node core_id other = ground arith
find-remove_pods_not_in existing ((n, p) ∷ pools) h node core_id other =
    elim (Bool-cases (n == node)) [
      | inl hit ↦ rw hit (on_core-purge existing other core_id p.cores h.0.cores_counted)
      | inr miss ↦ rw miss (find-remove_pods_not_in existing pools h.1 node core_id other)
    ]
