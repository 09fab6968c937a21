-- ===== src/Controller/Preempt/Standing.antt =====
-- internal/controller/mckube_controller.go: the pods of the pool while preemptPod migrates some.
use mc_kube.Prelude.{
  ◌≡◌, refl, sym, ◌∙◌, subst, inl, inr, String, List, [], ◌∷◌, some, lookup, insert, delete,
  lookup-insert, AllValues, insert-AllValues, string_eq, int_eq, ◌==◌, ℤ, Bool-cases, Option-cases,
}
use mathlib.Core.List.{Memᴰ}
use mc_kube.CpuPool.{PodInfo, CpuCoreInfo, CpuPool, values}
use mc_kube.CpuPool.Store.{take_pod, add_pod_to_core, remove_pod_from_core}
use mc_kube.Controller.Preemption.{migrate}

-- The pod stands on one of the cores of the pool.
pub record StoodIn (pool : CpuPool) (v : PodInfo) : Type 0 where
  pub core_id : ℤ
  pub core : CpuCoreInfo
  pub tracked : lookup core_id pool.cores ≡ some core
  pub stands : Memᴰ v (values core.pods)

delete-AllValues {ι} :
    (P : PodInfo → Type ι) (key : String) (m : List (String × PodInfo))
    → AllValues P m
    → AllValues P (delete key m)
unfolding delete
delete-AllValues P key [] h = tt
delete-AllValues P key ((i, w) ∷ m) h = elim (Bool-cases (i == key)) [
  | inl hit ↦ rw hit h.1
  | inr miss ↦ rw miss (h.0, delete-AllValues P key m h.1)
]

of_Memᴰ-AllValues {ι} :
    (P : PodInfo → Type ι) (m : List (String × PodInfo))
    → ((v : PodInfo) → Memᴰ v (values m) → P v)
    → AllValues P m
unfolding values
of_Memᴰ-AllValues P [] f = tt
of_Memᴰ-AllValues P ((i, w) ∷ m) f =
    (f w (Memᴰ.head refl), of_Memᴰ-AllValues P m (λ v h. f v (Memᴰ.tail h)))

pub Memᴰ-AllValues {ι} :
    (P : PodInfo → Type ι) (v : PodInfo) (m : List (String × PodInfo))
    → AllValues P m
    → Memᴰ v (values m)
    → P v
unfolding values
Memᴰ-AllValues P v [] h m = elim m [ ]
Memᴰ-AllValues P v ((i, w) ∷ rest) h (Memᴰ.head e) = rw e h.0
Memᴰ-AllValues P v ((i, w) ∷ rest) h (Memᴰ.tail m) = Memᴰ-AllValues P v rest h.1 m

module _ (P : PodInfo → Type 0) where
  -- So are all pods on the cores of the pool.
  abbrev pub ArePods : CpuPool → Type 0
  ArePods pool =
      (core_id : ℤ) (core : CpuCoreInfo)
      → lookup core_id pool.cores ≡ some core
      → AllValues P core.pods

  insert-ArePods :
      (pool : CpuPool) (core_id : ℤ) (core : CpuCoreInfo)
      → ArePods pool
      → AllValues P core.pods
      → ArePods (record pool { cores = insert core_id core pool.cores })
  insert-ArePods pool core_id core h new c found e = elim (Bool-cases (core_id == c)) [
    | inl hit ↦
        let here : some core ≡ some found =
          let q = lookup-insert core_id c core pool.cores in sym (rw hit at q) ∙ e in
        let same : core ≡ found = cc here in
        subst (λ (k : CpuCoreInfo). AllValues P k.pods) same new
    | inr miss ↦
        h c found (let q = lookup-insert core_id c core pool.cores in sym (rw miss at q) ∙ e)
  ]

  take_pod-AllValues :
      (name : String) (core : CpuCoreInfo)
      → AllValues P core.pods
      → AllValues P (take_pod name core).0.pods
  unfolding take_pod
  take_pod-AllValues name core h = elim (Option-cases (lookup name core.pods)) [
    | inl e ↦ rw (e, take_pod) h
    | inr (v, e) ↦ rw (e, take_pod) (delete-AllValues P name core.pods h)
  ]

  remove-ArePods :
      (core_id : ℤ) (name : String) (pool : CpuPool)
      → ArePods pool
      → ArePods (remove_pod_from_core core_id name pool)
  unfolding remove_pod_from_core
  remove-ArePods core_id name pool h = elim (Option-cases (lookup core_id pool.cores)) [
    | inl e ↦ rw (e, remove_pod_from_core) h
    | inr (core, e) ↦
        rw (e, remove_pod_from_core)
          (insert-ArePods pool core_id (take_pod name core).0 h
            (take_pod-AllValues name core (h core_id core e)))
  ]

  add-ArePods :
      (core_id : ℤ) (v : PodInfo) (pool : CpuPool)
      → P v
      → ArePods pool
      → ArePods (add_pod_to_core core_id v pool)
  unfolding add_pod_to_core
  add-ArePods core_id v pool p h = elim (Option-cases (lookup core_id pool.cores)) [
    | inl e ↦ rw (e, add_pod_to_core) h
    | inr (core, e) ↦
        rw (e, add_pod_to_core)
          (insert-ArePods pool core_id _ h
            (insert-AllValues P v.name v core.pods (h core_id core e) p))
  ]

  pub migrate-ArePods :
      (v : PodInfo) (current_core new_core : ℤ) (pool : CpuPool)
      → P v
      → ArePods pool
      → ArePods (migrate v current_core new_core pool)
  unfolding migrate
  migrate-ArePods v current_core new_core pool p h =
      add-ArePods new_core v _ p (remove-ArePods current_core v.name pool h)

pub StoodIn-ArePods : (pool : CpuPool) → ArePods (StoodIn pool) pool
StoodIn-ArePods pool core_id core e =
    of_Memᴰ-AllValues (StoodIn pool) core.pods
      (λ v m. record { core_id = core_id; core = core; tracked = e; stands = m })
