-- ===== src/Controller/Containers/Blank.antt =====
-- internal/controller/mckube_controller.go: an overrun report without a container identifier.
use mc_kube.Prelude.{
  ◌≡◌, refl, ap, ◌∙◌, String, Bool, true, false, ◌&&◌, ◌||◌, List, [], ◌∷◌, Option, none, some, any,
  string_eq, ◌==◌, arith, if◌then◌else◌,
}
use mc_kube.Prelude.Text.{behind_prefix, behind_first, contains_text}
use mc_kube.Controller.Runtime.{RunningPod}
use mc_kube.Controller.Containers.{
  ListedPod, normalized, same_container, matches, first_match, find_pod_by_container_id,
}

contains_text-empty : (text : String) → contains_text text "" ≡ true
unfolding behind_first behind_prefix
contains_text-empty String.[] = refl
contains_text-empty (String.◌∷◌ c cs) = refl

abbrev pub is_filled : List String → Bool
is_filled [] = false
is_filled (id ∷ ids) = true

-- The first pod on the node that has a container at all.
unfoldable pub first_with_container : String → List ListedPod → Option RunningPod
first_with_container node_name [] = none
first_with_container node_name (p ∷ pods) =
    let rest = first_with_container node_name pods in
    if (node_name == "" || p.pod.node_name == node_name)
      && (is_filled p.pod.container_ids || is_filled p.init_ids)
    then some p.pod
    else rest

any-is_filled :
    (container_id : String) (ids : List String)
    → normalized container_id ≡ ""
    → any (same_container container_id) ids ≡ is_filled ids
unfolding same_container
any-is_filled container_id [] blank = refl
any-is_filled container_id (id ∷ ids) blank =
    let held : contains_text id (normalized container_id) ≡ true =
      ap (contains_text id) blank ∙ contains_text-empty id in
    ground (arith, held)

first_match-blank :
    (node_name container_id : String) (pods : List ListedPod)
    → normalized container_id ≡ ""
    → first_match node_name container_id pods ≡ first_with_container node_name pods
unfolding first_match first_with_container matches
first_match-blank node_name container_id [] blank = refl
first_match-blank node_name container_id (p ∷ pods) blank =
    rw
      (
        any-is_filled container_id p.pod.container_ids blank,
        any-is_filled container_id p.init_ids blank,
        first_match-blank node_name container_id pods blank,
      )
      refl

-- A report whose container identifier is empty, or ends with its first "://", is put down to the
-- first pod of the listing that stands on the node and has a container, whichever that is.
pub find_pod_by_container_id_blank :
    (node_name container_id : String) (pods : List ListedPod)
    → normalized container_id ≡ ""
    → find_pod_by_container_id node_name container_id (some pods)
      ≡ some (first_with_container node_name pods)
unfolding find_pod_by_container_id
find_pod_by_container_id_blank node_name container_id pods blank =
    ap some (first_match-blank node_name container_id pods blank)
