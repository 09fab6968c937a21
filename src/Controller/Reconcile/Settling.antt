-- ===== src/Controller/Reconcile/Settling.antt =====
-- internal/controller/mckube_controller.go: the work queue brings a new resource to rest.
use mc_kube.Prelude.{
  ◌≡◌, refl, sym, ap, subst, ◌∙◌, inl, inr, ℕ, zero, suc, String, Bool, true, false, List, [], ◌∷◌,
  ◌++◌, Option, none, some, string_eq, ◌==◌, ==_refl, ℤ, Bool-cases,
}
use mc_kube.Prelude.Float.{Float64}
use mc_kube.Prelude.Sort.{Sorter}
use mc_kube.Api.{MckubeStatus}
use mc_kube.Controller.Cluster.{ClusterPod, got, Cluster}
use mc_kube.Controller.Throttle.{cleanup_expired_throttled_victims}
use mc_kube.Controller.Process.Cored.{NameCore, process_got-calm}
use mc_kube.Controller.Process.{Process, is_active}
use mc_kube.Controller.Reconcile.{
  mckube_finalizer, updating, contains_string, Resource, Queued, Round, done, with_node,
  assign_node, process_active, reconcile,
}
use mc_kube.Controller.Reconcile.Status.{with_status, report_all, report_all-rest}

contains_string-append :
    (slice : List String) (s : String) → contains_string (slice ++ s ∷ []) s ≡ true
unfolding contains_string
contains_string-append [] s = rw (==_refl s) refl
contains_string-append (item ∷ slice) s = elim (Bool-cases (item == s)) [
  | inl hit ↦ rw hit refl
  | inr miss ↦ rw miss (contains_string-append slice s)
]

abbrev pub stored_or : Resource → Option Resource → Resource
stored_or r none = r
stored_or r (some r') = r'

-- With the finalizer, a pod and a node, not being deleted, and with settings that name a core, if any.
pub record IsReady (r : Resource) : Type 0 where
  pub stays : r.deleting ≡ false
  pub kept : contains_string r.finalizers mckube_finalizer ≡ true
  pub named : (r.mckube.spec.pod_name == "") ≡ false
  pub placed : (r.mckube.spec.node == "") ≡ false
  pub cored : NameCore r.mckube.spec.rt_settings

abbrev pub with_finalizer : Resource → Resource
with_finalizer r = record r { finalizers = r.finalizers ++ mckube_finalizer ∷ [] }

updating-taken :
    (cluster : Cluster) (p : Process) (accepted : Bool) (old r : Resource) (q : Queued)
    → accepted ≡ true
    → (let round = updating p accepted r q in
        report_all cluster round.effects (stored_or old round.stored) ≡ r)
unfolding report_all
updating-taken cluster p accepted old r q e = rw e refl

IsReady-with_status :
    (status : MckubeStatus) (r : Resource) → IsReady r → IsReady (with_status status r)
IsReady-with_status status r h = record {
  stays = h.stays;
  kept = h.kept;
  named = h.named;
  placed = h.placed;
  cored = h.cored;
}

without_status-IsReady :
    (status : MckubeStatus) (r : Resource) → IsReady (with_status status r) → IsReady r
without_status-IsReady status r h = record {
  stays = h.stays;
  kept = h.kept;
  named = h.named;
  placed = h.placed;
  cored = h.cored;
}

same-IsReady :
    (status : MckubeStatus) (r r' : Resource)
    → with_status status r' ≡ with_status status r
    → IsReady r
    → IsReady r'
same-IsReady status r r' e h =
    without_status-IsReady status r' (subst IsReady (sym e) (IsReady-with_status status r h))

module _ (F : Type 0) ⦃fl : Float64 F⦄ (s : Sorter) (cluster : Cluster) (now : ℤ)
    (accepts : Resource → Bool) where
  -- What the API server has of the resource after a round: its update, and then the updates of its
  -- status.
  abbrev pub stored_after : Resource → Round → Resource
  stored_after r round = report_all cluster round.effects (stored_or r round.stored)

  -- So many rounds, each on what the API server has stored last.
  unfoldable pub rounds : ℕ → Resource → Process → Resource × Process
  unfolding report_all
  rounds zero r p = (r, p)
  rounds (suc n) r p =
      let round = reconcile F s cluster now accepts (got r) p in
      rounds n (stored_after r round) round.process

  pub ready_round :
      (r : Resource) (p : Process)
      → IsReady r
      → ((reconcile F s cluster now accepts (got r) p).stored ≡ none)
        × ((reconcile F s cluster now accepts (got r) p).queued ≡ done)
  unfolding reconcile process_active
  ready_round r p h =
      let kept_marks : Process = record p {
        throttled_victims = cleanup_expired_throttled_victims now p.throttled_victims;
      } in
      let calm =
        process_got-calm F s cluster now (cluster.get_pod r.mckube.namespace r.mckube.spec.pod_name)
          r.mckube r.mckube.spec.rt_settings kept_marks h.cored in
      (
        simp (h.stays, h.kept, h.named, h.placed) refl,
        simp (h.stays, h.kept, h.named, h.placed, calm) refl,
      )

  ready_after :
      (status : MckubeStatus) (r : Resource) (p : Process)
      → IsReady r
      → with_status status (stored_after r (reconcile F s cluster now accepts (got r) p))
        ≡ with_status status r
  ready_after status r p h =
      let round = reconcile F s cluster now accepts (got r) p in
      ap (λ stored. with_status status (report_all cluster round.effects (stored_or r stored)))
        (ready_round r p h).0
      ∙ report_all-rest cluster round.effects status r

  ready_rounds :
      (n : ℕ) (status : MckubeStatus) (r : Resource) (p : Process)
      → IsReady r
      → with_status status (rounds n r p).0 ≡ with_status status r
  unfolding rounds
  ready_rounds zero status r p h = refl
  ready_rounds (suc n) status r p h =
      let round = reconcile F s cluster now accepts (got r) p in
      let after = ready_after status r p h in
      ready_rounds n status (stored_after r round) round.process
        (same-IsReady status r (stored_after r round) after h)
      ∙ after

  -- From the resource at rest, under any name that equals it.
  at_rest :
      (n : ℕ) (status : MckubeStatus) (r q : Resource) (p : Process)
      → IsReady r
      → q ≡ r
      → (with_status status (rounds n q p).0 ≡ with_status status r)
        × ((reconcile F s cluster now accepts (got (rounds n q p).0) (rounds n q p).1).queued
            ≡ done)
  at_rest n status r q p h e =
      let reached = ap (λ x. with_status status (rounds n x p).0) e ∙ ready_rounds n status r p h in
      (
        reached,
        (ready_round (rounds n q p).0 (rounds n q p).1
            (same-IsReady status r (rounds n q p).0 reached h)).1,
      )

  first_round :
      (r : Resource) (p : Process)
      → r.deleting ≡ false
      → contains_string r.finalizers mckube_finalizer ≡ false
      → ((r' : Resource) → accepts r' ≡ true)
      → stored_after r (reconcile F s cluster now accepts (got r) p) ≡ with_finalizer r
  unfolding reconcile
  first_round r p stays bare takes = simp (stays, bare) (updating-taken cluster _ _ _ _ _ (takes _))

  second_round :
      (r : Resource) (pod : ClusterPod)
      → r.deleting ≡ false
      → (r.mckube.spec.pod_name == "") ≡ false
      → (r.mckube.spec.node == "") ≡ true
      → ((r' : Resource) → accepts r' ≡ true)
      → cluster.get_pod r.mckube.namespace r.mckube.spec.pod_name ≡ got pod
      → (pod.node_name == "") ≡ false
      → is_active pod.phase ≡ true
      → (q : Resource) (p : Process) → q ≡ with_finalizer r
      → stored_after q (reconcile F s cluster now accepts (got q) p)
        ≡ with_node (with_finalizer r) pod.node_name
  unfolding reconcile process_active assign_node
  second_round r pod stays named unplaced takes found there active q p e =
      let kept = contains_string-append r.finalizers mckube_finalizer in
      let r2 = with_node (with_finalizer r) pod.node_name in
      subst (λ x. stored_after x (reconcile F s cluster now accepts (got x) p) ≡ r2) (sym e)
        (simp (stays, kept, named, unplaced, found, there, active)
          (updating-taken cluster _ _ _ _ _ (takes _)))

  -- A resource that is not being deleted, has neither the finalizer nor a node, and whose settings, if
  -- any, name a core, and a pod that stands on a node in Pending or Running, where the API server takes
  -- the updates: from the second round on the resource has both, and nothing but its status changes
  -- any more, whether or not updates of the status are taken. Each further round ends without asking
  -- for another.
  pub rounds_settle :
      (r : Resource) (p : Process) (pod : ClusterPod)
      → r.deleting ≡ false
      → contains_string r.finalizers mckube_finalizer ≡ false
      → (r.mckube.spec.pod_name == "") ≡ false
      → (r.mckube.spec.node == "") ≡ true
      → NameCore r.mckube.spec.rt_settings
      → ((r' : Resource) → accepts r' ≡ true)
      → cluster.get_pod r.mckube.namespace r.mckube.spec.pod_name ≡ got pod
      → (pod.node_name == "") ≡ false
      → is_active pod.phase ≡ true
      → (n : ℕ)
      → let (r', p') = rounds (suc (suc n)) r p in
        (with_status r.mckube.status r' ≡ with_node (with_finalizer r) pod.node_name)
        × ((reconcile F s cluster now accepts (got r') p').queued ≡ done)
  unfolding rounds
  rounds_settle r p pod stays bare named unplaced cored takes found there active n =
      let r2 = with_node (with_finalizer r) pod.node_name in
      let round = reconcile F s cluster now accepts (got r) p in
      let marked : stored_after r round ≡ with_finalizer r = first_round r p stays bare takes in
      let ready : IsReady r2 = record {
        stays = stays;
        kept = contains_string-append r.finalizers mckube_finalizer;
        named = named;
        placed = there;
        cored = cored;
      } in
      at_rest n r.mckube.status r2 _ _ ready
        (second_round r pod stays named unplaced takes found there active _ round.process marked)
