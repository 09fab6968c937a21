-- ===== src/CpuPool/Accounting/Methods.antt =====
-- internal/cpupool/cpupool.go: AddPodToCore and RemovePodFromCore keep the accounts.
use mc_kube.Prelude.{
  ◌≡◌, ap, ◌∙◌, inl, inr, String, lookup-insert_self, lookup-delete_self, none, some, lookup,
  insert, lookup-AllValues, insert-AllValues, insert-IsMap, delete-IsMap, string_eq, int_eq, ℤ,
  ◌+ℤ◌, wrap64, wrap64-+, wrap64--, Option-cases, +ℤ_put_back,
}
use mc_kube.CpuPool.{PodInfo, CpuCoreInfo, CpuPool}
use mc_kube.CpuPool.Store.{take_pod, add_pod_to_core, remove_pod_from_core}
use mc_kube.CpuPool.Accounting.{
  total, total-insert_new, total-delete, total-insert, IsCounted, IsSound, IsAbsent,
}

pub take_pod-IsCounted :
    (pod_name : String) (core : CpuCoreInfo) → IsCounted core → IsCounted (take_pod pod_name core).0
unfolding take_pod
take_pod-IsCounted pod_name core c = elim (Option-cases (lookup pod_name core.pods)) [
  | inl e ↦ rw (e, take_pod) c
  | inr (pi, e) ↦
      rw (e, take_pod)
        (record {
          counted =
              rw (c.counted, total-delete pod_name pi core.pods e)
                (wrap64-- (total core.pods) pi.cpu_millis);
          distinct = delete-IsMap pod_name core.pods c.distinct;
        })
]

pub remove_pod_from_core-IsSound :
    (core_id : ℤ) (pod_name : String) (p : CpuPool)
    → IsSound p
    → IsSound (remove_pod_from_core core_id pod_name p)
unfolding remove_pod_from_core
remove_pod_from_core-IsSound core_id pod_name p s = elim (Option-cases (lookup core_id p.cores)) [
  | inl e ↦ rw (e, remove_pod_from_core) s
  | inr (core, e) ↦
      rw (e, remove_pod_from_core)
        (record {
          cores_counted =
              insert-AllValues IsCounted core_id (take_pod pod_name core).0 p.cores s.cores_counted
                (take_pod-IsCounted pod_name core
                  (lookup-AllValues IsCounted core_id core p.cores s.cores_counted e));
          cores_distinct = insert-IsMap core_id (take_pod pod_name core).0 p.cores s.cores_distinct;
        })
]

pub add_pod_to_core-IsSound :
    (core_id : ℤ) (pod : PodInfo) (p : CpuPool)
    → IsSound p
    → IsAbsent core_id pod.name p
    → IsSound (add_pod_to_core core_id pod p)
unfolding add_pod_to_core
add_pod_to_core-IsSound core_id pod p s away = elim (Option-cases (lookup core_id p.cores)) [
  | inl e ↦ rw (e, add_pod_to_core) s
  | inr (core, e) ↦
      let c = lookup-AllValues IsCounted core_id core p.cores s.cores_counted e in
      rw (e, add_pod_to_core)
        (record {
          cores_counted = insert-AllValues IsCounted core_id _ p.cores s.cores_counted (record {
            counted =
                rw (c.counted, total-insert_new pod.name pod core.pods (away core e))
                  (wrap64-+ (total core.pods) pod.cpu_millis);
            distinct = insert-IsMap pod.name pod core.pods c.distinct;
          });
          cores_distinct = insert-IsMap core_id _ p.cores s.cores_distinct;
        })
]

take_pod_absent :
    (pod_name : String) (core : CpuCoreInfo)
    → IsCounted core
    → lookup pod_name (take_pod pod_name core).0.pods ≡ none
unfolding take_pod
take_pod_absent pod_name core c = elim (Option-cases (lookup pod_name core.pods)) [
  | inl e ↦ rw (e, take_pod) e
  | inr (pi, e) ↦ rw (e, take_pod) (lookup-delete_self pod_name core.pods c.distinct)
]

pub remove_pod_from_core-IsAbsent :
    (core_id : ℤ) (pod_name : String) (p : CpuPool)
    → IsSound p
    → IsAbsent core_id pod_name (remove_pod_from_core core_id pod_name p)
unfolding remove_pod_from_core
remove_pod_from_core-IsAbsent core_id pod_name p s core e =
    elim (Option-cases (lookup core_id p.cores)) [
      | inl h ↦
          let q : lookup core_id p.cores ≡ some core = rw (h, remove_pod_from_core) at e in
          absurd (cc)
      | inr (old, h) ↦
          let taken = (take_pod pod_name old).0 in
          let q : lookup core_id (insert core_id taken p.cores) ≡ some core =
            rw (h, remove_pod_from_core) at e in
          let same : taken ≡ core = cc (lookup-insert_self core_id taken p.cores) in
          rw (← same) (
            take_pod_absent pod_name old
              (lookup-AllValues IsCounted core_id old p.cores s.cores_counted h))
    ]

-- Entering a pod on a core that already has it leaves its old budget in the usage: the core is
-- charged for more than the pods on it. An unknown core is not the case: it exists here.
pub add_pod_to_core_again :
    (core_id : ℤ) (pod old : PodInfo) (core : CpuCoreInfo) (p : CpuPool)
    → IsCounted core
    → lookup core_id p.cores ≡ some core
    → lookup pod.name core.pods ≡ some old
    → (after : CpuCoreInfo) × (lookup core_id (add_pod_to_core core_id pod p).cores ≡ some after)
      × (after.usage_millis ≡ wrap64 (total after.pods +ℤ old.cpu_millis))
      × (lookup pod.name after.pods ≡ some pod)
unfolding add_pod_to_core
add_pod_to_core_again core_id pod old core p c e h = (
  record core {
    pods = insert pod.name pod core.pods;
    usage_millis = wrap64 (core.usage_millis +ℤ pod.cpu_millis);
  },
  rw (e, add_pod_to_core) (lookup-insert_self core_id _ p.cores),
  ap (λ u. wrap64 (u +ℤ pod.cpu_millis)) c.counted
      ∙ wrap64-+ (total core.pods) pod.cpu_millis
      ∙ ap wrap64 charged,
  lookup-insert_self pod.name pod core.pods,
)
  where
    charged :
        total core.pods +ℤ pod.cpu_millis ≡ total (insert pod.name pod core.pods) +ℤ old.cpu_millis
    charged =
        rw (total-insert pod.name pod old core.pods h, total-delete pod.name old core.pods h)
          (+ℤ_put_back (total core.pods) old.cpu_millis pod.cpu_millis)
