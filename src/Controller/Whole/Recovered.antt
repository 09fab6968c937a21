-- ===== src/Controller/Whole/Recovered.antt =====
-- internal/controller/mckube_controller.go: Reconcile after the CPU of a node has recovered.
use mc_kube.Prelude.{
  arith, ◌≡◌, refl, String, Bool, true, false, List, [], some, lookup, string_eq, ◌==◌, ℤ,
}
use mathlib.Core.List.{Memᴰ}
use mc_kube.Prelude.Float.{Float64}
use mc_kube.Prelude.Sort.{Sorter}
use mc_kube.CpuPool.CoreSet.{code_points}
use mc_kube.Ipvs.Events.{ann_cpu_busy_key, ann_text, same_text}
use mc_kube.Controller.Runtime.{RunningPod, is_hi, handle_cpu_recovery}
use mc_kube.Controller.Recovery.{IsRevertible, handle_cpu_recovery-reverts}
use mc_kube.Controller.Cluster.{got, Cluster}
use mc_kube.Controller.Reconcile.{Resource, reconcile}
use mc_kube.Controller.Process.Cored.{NameCore}
use mc_kube.Controller.Reconcile.Settling.{IsReady, ready_round}
use mc_kube.Controller.Turn.{recovered, turn_of, handle_turn}
use mc_kube.Controller.Whole.{
  World, runtime_of, with_runtime_state, NodeAnswers, gets_to_node, turn_world, check_node,
  reconcile_whole,
}

-- The node was busy when it was last looked at, and its annotation no longer says so.
pub record HasRecovered (answers : NodeAnswers) (node_name : String) (w : World) : Type 0 where
  pub ann : List (String × String)
  pub text : String
  pub readable : answers.annotations_of node_name ≡ some ann
  pub present : lookup ann_cpu_busy_key ann ≡ some text
  pub quiet : same_text (ann_text ann_cpu_busy_key ann) (code_points "true") ≡ false
  pub was_busy : lookup node_name w.last_cpu_busy_state ≡ some true

module _ (answers : NodeAnswers) where
  turn_of-recovered :
      (node_name : String) (w : World) (h : HasRecovered answers node_name w)
      → (turn_of node_name (answers.annotations_of node_name) w.last_cpu_busy_state).0 ≡ recovered
  unfolding turn_of
  turn_of-recovered node_name w h = rw (h.readable, h.quiet, h.present, h.was_busy) refl

  module _ (pods : List RunningPod) (pod : RunningPod) (listed : answers.list_pods ≡ some pods)
      (m : Memᴰ pod pods) (has_app : (pod.app == "") ≡ false)
      (r : IsRevertible answers.list_mckubes pod) where
    turn_world-recovered :
        (node_name : String) (w : World)
        → (pod.node_name == node_name) ≡ true
        → (w' : World) × (turn_world answers recovered node_name w ≡ some (w', []))
          × (is_hi pod.name (runtime_of w') ≡ false)
    unfolding handle_turn is_hi
    turn_world-recovered node_name w here = (
      with_runtime_state
          (handle_cpu_recovery answers.list_mckubes node_name answers.list_pods (runtime_of w)) w,
      refl,
      rw listed (
          handle_cpu_recovery-reverts answers.list_mckubes node_name pod pods (runtime_of w) m here
            has_app r),
    )

    check_node-recovered :
        (node_name : String) (w : World)
        → HasRecovered answers node_name w
        → (pod.node_name == node_name) ≡ true
        → (w' : World) × (check_node answers node_name w ≡ some (w', []))
          × (is_hi pod.name (runtime_of w') ≡ false)
    unfolding check_node
    check_node-recovered node_name w h here =
        let found = turn_of node_name (answers.annotations_of node_name) w.last_cpu_busy_state in
        let (w', e, low) =
          turn_world-recovered node_name (record w { last_cpu_busy_state = found.1 }) here in
        (w', rw (turn_of-recovered node_name w h) e, low)

    -- A Reconcile of an active resource, whose settings, if any, name a core, on a node whose
    -- annotation said that it was busy and no longer does has a result, whatever else it does for the
    -- pod of the resource. Afterwards a listed pod of the node that has an app, an address and a
    -- resource with settings is not in its high runtime.
    pub reconcile_whole-recovered :
        (F : Type 0) ⦃fl : Float64 F⦄ (s : Sorter) (cluster : Cluster) (now : ℤ)
        (accepts : Resource → Bool) (resource : Resource) (w : World)
        → gets_to_node resource ≡ true
        → NameCore resource.mckube.spec.rt_settings
        → HasRecovered answers resource.mckube.spec.node w
        → (pod.node_name == resource.mckube.spec.node) ≡ true
        → (w' : World) × (reconcile_whole answers F s cluster now accepts (got resource) w
            ≡ some (w', reconcile F s cluster now accepts (got resource) w.process, []))
          × (is_hi pod.name (runtime_of w') ≡ false)
    unfolding reconcile_whole
    reconcile_whole-recovered F s cluster now accepts resource w active cored h here =
        let round = reconcile F s cluster now accepts (got resource) w.process in
        let before = record w { process = round.process } in
        let h' : HasRecovered answers resource.mckube.spec.node before = record {
          ann = h.ann;
          text = h.text;
          readable = h.readable;
          present = h.present;
          quiet = h.quiet;
          was_busy = h.was_busy;
        } in
        let (w', e, low) = check_node-recovered resource.mckube.spec.node before h' here in
        let ready : IsReady resource = record {
          stays = ground (arith, active);
          kept = ground (arith, active);
          named = ground (arith, active);
          placed = ground (arith, active);
          cored = cored;
        } in
        let calm = (ready_round F s cluster now accepts resource w.process ready).1 in
        (w', rw calm (rw (active, e) refl), low)
