-- ===== src/Controller/Registered.antt =====
-- internal/controller/mckube_controller.go: updateCPUPoolForPod leaves the pod on its cores.
use mc_kube.Prelude.{
  ◌≡◌, refl, sym, subst, ◌∙◌, inl, inr, String, true, false, ◌||◌, not, List, [], ◌∷◌, some, All,
  All-map, lookup, insert, lookup-insert, lookup-insert_self, string_eq, int_eq, ◌==◌, ℤ, ◌+ℤ◌,
  wrap64, arith, Bool-cases, Option-cases,
}
use mc_kube.CpuPool.{PodInfo, CpuCoreInfo, CpuPool}
use mc_kube.CpuPool.Store.{add_pod_to_core, remove_pod_from_core, take_pod}
use mc_kube.CpuPool.Accounting.{IsSound}
use mc_kube.CpuPool.Accounting.History.{register_pod, register_pod-IsSound}
use mc_kube.Controller.PoolUpdate.{is_stale, needs_update, register_all, refresh_pool}

-- If the pool has this core, the pod's entry there is the given one.
abbrev pub HasEntry : PodInfo → CpuPool → ℤ → Type 0
HasEntry pi p core_id =
    (core : CpuCoreInfo) → lookup core_id p.cores ≡ some core → lookup pi.name core.pods ≡ some pi

-- If the pool has this core, the pod stands on it with the given budget and criticality.
abbrev pub Agrees : PodInfo → CpuPool → ℤ → Type 0
Agrees pi p core_id =
    (core : CpuCoreInfo)
    → lookup core_id p.cores ≡ some core
    → (entry : PodInfo) × (lookup pi.name core.pods ≡ some entry)
      × (entry.cpu_millis ≡ pi.cpu_millis)
      × (entry.criticality ≡ pi.criticality)

pub add_pod_to_core-HasEntry :
    (pi : PodInfo) (p : CpuPool) (core_id : ℤ) → HasEntry pi (add_pod_to_core core_id pi p) core_id
unfolding add_pod_to_core
add_pod_to_core-HasEntry pi p core_id core e = elim (Option-cases (lookup core_id p.cores)) [
  | inl h ↦ let q : lookup core_id p.cores ≡ some core = rw (h, add_pod_to_core) at e in absurd (cc)
  | inr (old, h) ↦
      let new : CpuCoreInfo = record old {
        pods = insert pi.name pi old.pods;
        usage_millis = wrap64 (old.usage_millis +ℤ pi.cpu_millis);
      } in
      let q : lookup core_id (insert core_id new p.cores) ≡ some core =
        rw (h, add_pod_to_core) at e in
      let same : new ≡ core = cc (lookup-insert_self core_id new p.cores) in
      subst (λ (c : CpuCoreInfo). lookup pi.name c.pods ≡ some pi) same
        (lookup-insert_self pi.name pi old.pods)
]

pub lookup-add_pod_to_core :
    (pi : PodInfo) (p : CpuPool) (core_id other : ℤ)
    → (core_id == other) ≡ false
    → lookup other (add_pod_to_core core_id pi p).cores ≡ lookup other p.cores
unfolding add_pod_to_core
lookup-add_pod_to_core pi p core_id other h = elim (Option-cases (lookup core_id p.cores)) [
  | inl e ↦ rw (e, add_pod_to_core) refl
  | inr (old, e) ↦ rw (e, add_pod_to_core) (lookup-insert core_id other _ p.cores ∙ rw h refl)
]

pub lookup-remove_pod_from_core :
    (name : String) (p : CpuPool) (core_id other : ℤ)
    → (core_id == other) ≡ false
    → lookup other (remove_pod_from_core core_id name p).cores ≡ lookup other p.cores
unfolding remove_pod_from_core
lookup-remove_pod_from_core name p core_id other h = elim (Option-cases (lookup core_id p.cores)) [
  | inl e ↦ rw (e, remove_pod_from_core) refl
  | inr (old, e) ↦
      rw (e, remove_pod_from_core)
        (lookup-insert core_id other (take_pod name old).0 p.cores ∙ rw h refl)
]

register_pod-keeps :
    (pi : PodInfo) (p : CpuPool) (core_id other : ℤ)
    → HasEntry pi p other
    → HasEntry pi (register_pod core_id pi p) other
unfolding register_pod
register_pod-keeps pi p core_id other has core e = elim (Bool-cases (core_id == other)) [
  | inl hit ↦
      let same : core_id ≡ other = (int_eq.equal_iff core_id other).0 hit in
      subst (HasEntry pi (register_pod core_id pi p)) same
        (add_pod_to_core-HasEntry pi (remove_pod_from_core core_id pi.name p) core_id) core e
  | inr miss ↦ has core (
      sym (lookup-remove_pod_from_core pi.name p core_id other miss)
      ∙ sym (lookup-add_pod_to_core pi (remove_pod_from_core core_id pi.name p) core_id other miss)
      ∙ e)
]

register_all-keeps :
    (pi : PodInfo) (core_set : List ℤ) (p : CpuPool) (other : ℤ)
    → HasEntry pi p other
    → HasEntry pi (register_all pi core_set p) other
unfolding register_all
register_all-keeps pi [] p other has = has
register_all-keeps pi (c ∷ core_set) p other has =
    register_all-keeps pi core_set (register_pod c pi p) other (register_pod-keeps pi p c other has)

register_all-HasEntry :
    (pi : PodInfo) (core_set : List ℤ) (p : CpuPool)
    → All (HasEntry pi (register_all pi core_set p)) core_set
unfolding register_all register_pod
register_all-HasEntry pi [] p = tt
register_all-HasEntry pi (c ∷ core_set) p = (
  register_all-keeps pi core_set (register_pod c pi p) c
      (add_pod_to_core-HasEntry pi (remove_pod_from_core c pi.name p) c),
  register_all-HasEntry pi core_set (register_pod c pi p),
)

HasEntry-Agrees : (pi : PodInfo) (p : CpuPool) (c : ℤ) → HasEntry pi p c → Agrees pi p c
HasEntry-Agrees pi p c has core e = (pi, has core e, refl, refl)

fresh-Agrees :
    (pi : PodInfo) (p : CpuPool) (c : ℤ) → is_stale pi (lookup c p.cores) ≡ false → Agrees pi p c
unfolding is_stale
fresh-Agrees pi p c fresh core e = elim (Option-cases (lookup pi.name core.pods)) [
  | inl f ↦ absurd (let q = rw (e, is_stale, f) at fresh in cc)
  | inr (entry, f) ↦
      let q : (not (entry.cpu_millis == pi.cpu_millis) || not (entry.criticality == pi.criticality))
          ≡ false =
        rw (e, is_stale, f) at fresh in
      let same_millis : (entry.cpu_millis == pi.cpu_millis) ≡ true = ground (arith, q) in
      let same_criticality : (entry.criticality == pi.criticality) ≡ true = ground (arith, q) in
      (entry, f, (int_eq.equal_iff _ _).0 same_millis, (string_eq.equal_iff _ _).0 same_criticality)
]

no_stale-Agrees :
    (pi : PodInfo) (p : CpuPool) (core_set : List ℤ)
    → needs_update pi p core_set ≡ false
    → All (Agrees pi p) core_set
unfolding needs_update
no_stale-Agrees pi p [] h = tt
no_stale-Agrees pi p (c ∷ core_set) h =
    (fresh-Agrees pi p c (ground (arith, h)), no_stale-Agrees pi p core_set (ground (arith, h)))

-- After updateCPUPoolForPod the pod stands with its present budget and criticality on every core of
-- its core set that the pool has.
pub refresh_pool-Agrees :
    (pi : PodInfo) (p : CpuPool) → All (Agrees pi (refresh_pool pi p)) pi.core_set
unfolding refresh_pool
refresh_pool-Agrees pi p = elim (Bool-cases (needs_update pi p pi.core_set)) [
  | inl stale ↦ rw stale (
      All-map (HasEntry pi (register_all pi pi.core_set p))
        (Agrees pi (register_all pi pi.core_set p)) pi.core_set
        (HasEntry-Agrees pi (register_all pi pi.core_set p))
        (register_all-HasEntry pi pi.core_set p))
  | inr fresh ↦ rw fresh (no_stale-Agrees pi p pi.core_set fresh)
]

register_all-IsSound :
    (pi : PodInfo) (core_set : List ℤ) (p : CpuPool)
    → IsSound p
    → IsSound (register_all pi core_set p)
unfolding register_all
register_all-IsSound pi [] p sound = sound
register_all-IsSound pi (c ∷ core_set) p sound =
    register_all-IsSound pi core_set (register_pod c pi p) (register_pod-IsSound c pi p sound)

pub refresh_pool-IsSound : (pi : PodInfo) (p : CpuPool) → IsSound p → IsSound (refresh_pool pi p)
unfolding refresh_pool
refresh_pool-IsSound pi p sound = elim (Bool-cases (needs_update pi p pi.core_set)) [
  | inl stale ↦ rw stale (register_all-IsSound pi pi.core_set p sound)
  | inr fresh ↦ rw fresh sound
]
