-- ===== src/Controller/Turn/Edges.antt =====
-- internal/controller/mckube_controller.go: Reconcile acts on a change of a node's pressure, once.
use mc_kube.Prelude.{
  ◌≡◌, refl, inl, inr, String, Bool, true, false, List, Option, none, some, lookup,
  lookup-insert_self, string_eq, Bool-cases,
}
use mc_kube.Ipvs.Events.{ann_cpu_busy_key}
use mc_kube.Controller.Turn.{same, differs, with_busy, turn_for, turn_of}

differs_self : (busy : Bool) → differs busy (some busy) ≡ false
differs_self true = refl
differs_self false = refl

with_busy-again :
    (node_name : String) (busy : Bool) (last : List (String × Bool))
    → with_busy node_name busy (with_busy node_name busy last).1
      ≡ (same, (with_busy node_name busy last).1)
with_busy-again node_name busy last = elim (Bool-cases (differs busy (lookup node_name last))) [
  | inr steady ↦ rw (steady, steady) refl
  | inl turned ↦ rw (turned, lookup-insert_self node_name busy last, differs_self busy) refl
]

turn_for-again :
    (node_name : String) (busy : Bool) (text : Option String) (last : List (String × Bool))
    → turn_for node_name busy text (turn_for node_name busy text last).1
      ≡ (same, (turn_for node_name busy text last).1)
turn_for-again node_name busy none last = refl
turn_for-again node_name busy (some text) last = with_busy-again node_name busy last

-- A second look at a node whose annotations have not changed does nothing, and remembers nothing
-- new.
pub turn_of-again :
    (node_name : String) (ann : Option (List (String × String))) (last : List (String × Bool))
    → turn_of node_name ann (turn_of node_name ann last).1 ≡ (same, (turn_of node_name ann last).1)
unfolding turn_of
turn_of-again node_name none last = refl
turn_of-again node_name (some ann) last =
    turn_for-again node_name _ (lookup ann_cpu_busy_key ann) last
