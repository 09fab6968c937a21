-- ===== src/Ipvs/Node.antt =====
-- internal/ipvs/event_handler.go: HandleNodeCPUPressure with what it reads first, the annotations of
-- the node and the real-time data. The answers of the API server are arguments.
pub mod Incomplete
use mc_kube.Prelude.{
  ℕ, String, Bool, true, false, List, [], ◌∷◌, Option, none, some, ℤ, pos, if◌then◌else◌,
}
use mc_kube.Prelude.Float.{Float64}
use mc_kube.CpuPool.CoreSet.{is_empty, atoi}
use mc_kube.Ipvs.{Pod, RealTimeData, NodePressureState}
use mc_kube.Ipvs.Collector.{Answer, ok, nothing, failed, Item, get_real_time_data}
use mc_kube.Ipvs.Events.{ann_text, ann_usage_key, ann_dur_key}
use mc_kube.Ipvs.Pressure.{Cluster, Request, handle_node_cpu_pressure}

abbrev pub or_zero : Option ℕ → ℤ
or_zero none = pos 0
or_zero (some n) = pos n

-- A duration that cannot be read counts as 0, and so does a negative one: a text with a '-' is
-- either of these.
unfoldable pub read_over_sec : List (String × String) → ℤ
unfolding atoi ann_text
read_over_sec ann = or_zero (atoi (ann_text ann_dur_key ann))

abbrev pub Outcome : Type 0
Outcome = Option (List (String × NodePressureState) × List Request)

module _ (F : Type 0) ⦃fl : Float64 F⦄ (cluster : Cluster) (fuel : ℕ) (is_float : List ℕ → Bool)
    (node_name : String) where
  -- With the pods listed, and whether they could be listed once more for their requests.
  abbrev pub with_data :
      ℤ
      → Answer (List (String × RealTimeData))
      → Option (List Pod)
      → Bool
      → List (String × NodePressureState)
      → Outcome
  with_data over_sec failed pods again pressure_state = some (pressure_state, [])
  with_data over_sec rt_data none again pressure_state = some (pressure_state, [])
  with_data over_sec rt_data pods false pressure_state = some (pressure_state, [])
  with_data over_sec nothing (some pods) true pressure_state =
      handle_node_cpu_pressure F cluster fuel node_name [] pods over_sec pressure_state
  with_data over_sec (ok rt_data) (some pods) true pressure_state =
      handle_node_cpu_pressure F cluster fuel node_name rt_data pods over_sec pressure_state

  -- With the node's annotations, if it was found and has any.
  unfoldable pub handle_node :
      Option (List (String × String))
      → Option (List (Item F))
      → Option (List Pod)
      → Bool
      → List (String × NodePressureState)
      → Outcome
  unfolding read_over_sec get_real_time_data
  handle_node none items pods again pressure_state = some (pressure_state, [])
  handle_node (some ann) items pods again pressure_state =
      if is_empty (ann_text ann_usage_key ann)
      then some (pressure_state, [])
      else if is_float (ann_text ann_usage_key ann)
      then with_data (read_over_sec ann) (get_real_time_data F items) pods again pressure_state
      else some (pressure_state, [])
