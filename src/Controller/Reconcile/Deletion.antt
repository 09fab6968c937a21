-- ===== src/Controller/Reconcile/Deletion.antt =====
-- internal/controller/mckube_controller.go: what is left of a pod whose resource is deleted.
use mc_kube.Prelude.{
  ◌≡◌, refl, subst, ◌∙◌, inl, inr, String, Bool, true, false, List, [], ◌∷◌, none, some, lookup,
  lookup-delete_self, IsMap, string_eq, ◌==◌, ==_refl, ℤ, Bool-cases,
}
use mc_kube.Prelude.Float.{Float64}
use mc_kube.Prelude.Sort.{Sorter}
use mc_kube.CpuPool.Accounting.{ArePoolsSound}
use mc_kube.CpuPool.Removal.{find_pod, find-remove_pod_from_pool}
use mc_kube.Controller.{ControllerState}
use mc_kube.Controller.PoolUpdate.{cleanup_pod_state}
use mc_kube.Controller.Cluster.{got, Cluster}
use mc_kube.Controller.Process.{Process}
use mc_kube.Controller.Reconcile.{
  mckube_finalizer, contains_string, remove_string, Resource, Round, finalize, reconcile, updating,
  Queued,
}

remove_string-drops :
    (slice : List String) (s : String) → contains_string (remove_string slice s) s ≡ false
unfolding contains_string remove_string
remove_string-drops [] s = refl
remove_string-drops (item ∷ slice) s = elim (Bool-cases (item == s)) [
  | inl hit ↦ rw hit (remove_string-drops slice s)
  | inr miss ↦ rw (miss, miss) (remove_string-drops slice s)
]

-- On no core of any node, and without a runtime state.
pub record IsForgotten (name : String) (state : ControllerState) : Type 0 where
  pub off_cores : (node : String) (core_id : ℤ) → find_pod node core_id name state.pools ≡ none
  pub no_state : lookup name state.pod_runtime_state ≡ none

cleanup-IsForgotten :
    (name : String) (state : ControllerState)
    → ArePoolsSound state.pools
    → IsMap state.pod_runtime_state
    → IsForgotten name (cleanup_pod_state name state)
unfolding cleanup_pod_state
cleanup-IsForgotten name state sound distinct = record {
  off_cores = λ node core_id.
      find-remove_pod_from_pool state.pools sound node core_id name name ∙ rw (==_refl name) refl;
  no_state = lookup-delete_self name state.pod_runtime_state distinct;
}

-- The pod is forgotten, and what is stored, if anything, is without the finalizer.
abbrev pub IsReleased : String → Round → Type 0
IsReleased name round =
    IsForgotten name round.process.controller
    × ((r : Resource)
        → round.stored ≡ some r
        → contains_string r.finalizers mckube_finalizer ≡ false)

updating-IsReleased :
    (name : String) (p : Process) (accepted : Bool) (r : Resource)
    → IsForgotten name p.controller
    → contains_string r.finalizers mckube_finalizer ≡ false
    → (q : Queued) → IsReleased name (updating p accepted r q)
updating-IsReleased name p true r gone clean q = (
  gone,
  λ r' e.
      let same : r ≡ r' = cc in
      subst (λ x. contains_string x.finalizers mckube_finalizer ≡ false) same clean,
)
updating-IsReleased name p false r gone clean q = (gone, λ r' e. absurd (cc))

module _ (F : Type 0) ⦃fl : Float64 F⦄ (s : Sorter) (cluster : Cluster) (now : ℤ) where
  -- A resource that is being deleted, has the finalizer and names a pod, where the accounts are
  -- right: whether or not the API server takes the update, the pod is on no core of any node and
  -- has no runtime state, and what is stored has lost the finalizer.
  pub reconcile-IsReleased :
      (accepts : Resource → Bool) (r : Resource) (p : Process)
      → r.deleting ≡ true
      → contains_string r.finalizers mckube_finalizer ≡ true
      → (r.mckube.spec.pod_name == "") ≡ false
      → ArePoolsSound p.controller.pools
      → IsMap p.controller.pod_runtime_state
      → IsReleased r.mckube.spec.pod_name (reconcile F s cluster now accepts (got r) p)
  unfolding reconcile finalize
  reconcile-IsReleased accepts r p deleting kept named sound distinct =
      simp (deleting, kept, named)
        (updating-IsReleased r.mckube.spec.pod_name _ _ _
          (cleanup-IsForgotten r.mckube.spec.pod_name p.controller sound distinct)
          (remove_string-drops r.finalizers mckube_finalizer) _)
