-- ===== src/Controller/Containers/Search.antt =====
-- internal/controller/mckube_controller.go: which pod an overrun is put down to.
use mc_kube.Prelude.{
  ◌≡◌, refl, ap, subst, ◌⊎◌, sym, inl, inr, String, Bool, true, false, ◌||◌, List, [], ◌∷◌, ◌++◌,
  Option, none, some, any, All, string_eq, ◌==◌, arith, Bool-cases, ℤ,
}
use mathlib.Core.List.{Memᴰ}
use mathlib.Core.List.Memᴰ
use mc_kube.Api.{Mckube}
use mc_kube.Controller.Runtime.{CgroupRequest, RunningPod, RuntimeState, handle_overrun_event}
use mc_kube.Controller.Containers.{
  ListedPod, OverrunData, same_container, matches, first_match, find_pod_by_container_id,
  overrun_at, serve_overrun,
}

-- The pod is the first of the listing that matches.
pub record IsFirst (test : ListedPod → Bool) (pods : List ListedPod) (pod : RunningPod)
    : Type 0 where
  pub before : List ListedPod
  pub it : ListedPod
  pub after : List ListedPod
  pub listed : pods ≡ before ++ it ∷ after
  pub passes : test it ≡ true
  pub others : All (λ p. test p ≡ false) before
  pub is_pod : it.pod ≡ pod

abbrev pub IsAnswer : (ListedPod → Bool) → List ListedPod → Option RunningPod → Type 0
IsAnswer test pods none = All (λ p. test p ≡ false) pods
IsAnswer test pods (some pod) = IsFirst test pods pod

skip :
    (test : ListedPod → Bool) (p : ListedPod) (pods : List ListedPod) (answer : Option RunningPod)
    → test p ≡ false
    → IsAnswer test pods answer
    → IsAnswer test (p ∷ pods) answer
skip test p pods none miss h = (miss, h)
skip test p pods (some pod) miss h = record {
  before = p ∷ h.before;
  it = h.it;
  after = h.after;
  listed = ap (λ ps. p ∷ ps) h.listed;
  passes = h.passes;
  others = (miss, h.others);
  is_pod = h.is_pod;
}

first_match-IsAnswer :
    (node_name container_id : String) (pods : List ListedPod)
    → IsAnswer (matches node_name container_id) pods (first_match node_name container_id pods)
unfolding first_match
first_match-IsAnswer node_name container_id [] = tt
first_match-IsAnswer node_name container_id (p ∷ pods) =
    elim (Bool-cases (matches node_name container_id p)) [
      | inl hit ↦ rw hit (record {
        before = [];
        it = p;
        after = pods;
        listed = refl;
        passes = hit;
        others = tt;
        is_pod = refl;
      })
      | inr miss ↦ rw miss (
          skip (matches node_name container_id) p pods (first_match node_name container_id pods)
            miss (first_match-IsAnswer node_name container_id pods))
    ]

any-hit :
    (test : String → Bool) (ids : List String)
    → any test ids ≡ true
    → (id : String) × Memᴰ id ids × (test id ≡ true)
any-hit test [] h = absurd (cc)
any-hit test (id ∷ ids) h = elim (Bool-cases (test id)) [
  | inl hit ↦ (id, Memᴰ.head refl, hit)
  | inr miss ↦ let (found, m, hit) = any-hit test ids (rw miss at h) in (found, Memᴰ.tail m, hit)
]

-- It stands on the node, if one is given, and has a container or an init container of the report.
pub record IsOwner (node_name container_id : String) (p : ListedPod) : Type 0 where
  pub stands : (node_name ≡ "") ⊎ (p.pod.node_name ≡ node_name)
  pub id : String
  pub owned : Memᴰ id p.pod.container_ids ⊎ Memᴰ id p.init_ids
  pub same : same_container container_id id ≡ true

on_node :
    (node_name own : String)
    → (node_name == "" || own == node_name) ≡ true
    → (node_name ≡ "") ⊎ (own ≡ node_name)
on_node node_name own h = elim (Bool-cases (node_name == "")) [
  | inl blank ↦ inl ((string_eq.equal_iff node_name "").0 blank)
  | inr given ↦ inr ((string_eq.equal_iff own node_name).0 (ground (arith, h, given)))
]

matches-IsOwner :
    (node_name container_id : String) (p : ListedPod)
    → matches node_name container_id p ≡ true
    → IsOwner node_name container_id p
unfolding matches
matches-IsOwner node_name container_id p h =
    let stands = on_node node_name p.pod.node_name (ground (arith, h)) in
    elim (Bool-cases (any (same_container container_id) p.pod.container_ids)) [
      | inl hit ↦
          let (id, m, same) = any-hit (same_container container_id) p.pod.container_ids hit in
          record { stands = stands; id = id; owned = inl m; same = same }
      | inr miss ↦
          let hit : any (same_container container_id) p.init_ids ≡ true = ground (arith, h, miss) in
          let (id, m, same) = any-hit (same_container container_id) p.init_ids hit in
          record { stands = stands; id = id; owned = inr m; same = same }
    ]

module _ (sends : String → CgroupRequest → Bool) (now : ℤ)
    (list_mckubes : RunningPod → Option (List Mckube)) where
  -- What an overrun that is put down to a pod of the listing comes to.
  abbrev pub IsHandled :
      Option (List ListedPod) → Option OverrunData → RuntimeState → RuntimeState → Type 0
  IsHandled list_pods body state after =
      (report : OverrunData) × (pods : List ListedPod) × (p : ListedPod) × (body ≡ some report)
      × (list_pods ≡ some pods)
      × Memᴰ p pods
      × IsOwner report.node_name report.container_id p
      × (after ≡ handle_overrun_event sends now report.container_id list_mckubes (some p.pod) state)

  answer-IsHandled :
      (pods : List ListedPod) (report : OverrunData) (state : RuntimeState)
      (answer : Option RunningPod)
      → IsAnswer (matches report.node_name report.container_id) pods answer
      → let after =
          overrun_at sends now list_mckubes (some pods) report.container_id (some answer) state in
        (after ≡ state) ⊎ IsHandled (some pods) (some report) state after
  unfolding handle_overrun_event
  answer-IsHandled pods report state none h = inl refl
  answer-IsHandled pods report state (some pod) h = inr (
    report,
    pods,
    h.it,
    refl,
    refl,
    subst (λ ps. Memᴰ h.it ps) (sym h.listed) (Memᴰ.append_right h.before (Memᴰ.head refl)),
    matches-IsOwner report.node_name report.container_id h.it h.passes,
    ap (λ q. handle_overrun_event sends now report.container_id list_mckubes (some q) state)
        (sym h.is_pod),
  )

  -- The listener changes something only for a POST whose body is a report, and only by handling it
  -- for a listed pod that stands on the node it names, if it names one, and owns a container whose
  -- identifier is that of the report, is the same behind the scheme, or contains it.
  pub serve_overrun-IsHandled :
      (is_post : Bool) (body : Option OverrunData) (list_pods : Option (List ListedPod))
      (state : RuntimeState)
      → let (status, after) = serve_overrun sends now list_mckubes list_pods is_post body state in
        (after ≡ state) ⊎ ((status ≡ 200) × (is_post ≡ true) × IsHandled list_pods body state after)
  unfolding serve_overrun find_pod_by_container_id
  serve_overrun-IsHandled false body list_pods state = inl refl
  serve_overrun-IsHandled true none list_pods state = inl refl
  serve_overrun-IsHandled true (some report) none state = inl refl
  serve_overrun-IsHandled true (some report) (some pods) state =
      elim (answer-IsHandled pods report state
        (first_match report.node_name report.container_id pods)
        (first_match-IsAnswer report.node_name report.container_id pods)) [
          | inl e ↦ inl e
          | inr h ↦ inr (refl, refl, h)
        ]
