-- ===== src/Controller/Reconcile/Status.antt =====
-- internal/controller/mckube_controller.go: the updates of the status that a round of Reconcile sends, at
-- the resource that is stored.
use mc_kube.Prelude.{
  ◌≡◌, refl, ◌∙◌, inl, inr, List, [], ◌∷◌, string_eq, ◌==◌, ◌&&◌, if◌then◌else◌, Bool-cases,
}
use mc_kube.Api.{MckubeStatus}
use mc_kube.Controller.Cluster.{Cluster, Effect, asks, reports, labels, evicts}
use mc_kube.Controller.Reconcile.{Resource}

abbrev pub with_status : MckubeStatus → Resource → Resource
with_status status r = record r { mckube = record r.mckube { status = status } }

module _ (cluster : Cluster) where
  -- An update of the status, which the API server takes or not, of this resource or another.
  abbrev pub report_to : Effect → Resource → Resource
  report_to (reports pod cr) r =
      if cr.namespace == r.mckube.namespace
        && (cr.name == r.mckube.name && cluster.accepts_status cr)
      then with_status cr.status r
      else r
  report_to (asks pod req) r = r
  report_to (labels pod) r = r
  report_to (evicts pod) r = r

  unfoldable pub report_all : List Effect → Resource → Resource
  report_all [] r = r
  report_all (effect ∷ effects) r = report_all effects (report_to effect r)

  report_to-rest :
      (effect : Effect) (status : MckubeStatus) (r : Resource)
      → with_status status (report_to effect r) ≡ with_status status r
  report_to-rest (asks pod req) status r = refl
  report_to-rest (labels pod) status r = refl
  report_to-rest (evicts pod) status r = refl
  report_to-rest (reports pod cr) status r =
      elim (Bool-cases (
        cr.namespace == r.mckube.namespace
        && (cr.name == r.mckube.name && cluster.accepts_status cr))) [
          | inl e ↦ rw e refl
          | inr e ↦ rw e refl
        ]

  pub report_all-rest :
      (effects : List Effect) (status : MckubeStatus) (r : Resource)
      → with_status status (report_all effects r) ≡ with_status status r
  unfolding report_all
  report_all-rest [] status r = refl
  report_all-rest (effect ∷ effects) status r =
      report_all-rest effects status (report_to effect r) ∙ report_to-rest effect status r
