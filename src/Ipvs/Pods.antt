-- ===== src/Ipvs/Pods.antt =====
-- internal/ipvs/pod_spec_handler.go, and ListPodMilliCPUByNode of data_collector.go.
use mc_kube.Prelude.{
  String, Bool, false, List, [], ◌∷◌, Option, none, some, lookup, insert, string_eq, int_eq, ◌==◌,
  ℤ, pos, negsuc, ◌+ℤ◌, wrap64, ltb_ℤ, filter, any, if◌then◌else◌,
}
use mc_kube.Prelude.Float.{Float64}
use mc_kube.Ipvs.{Container, Pod, RealTimeData, app_of}

abbrev pub min_milli : ℤ
min_milli = pos 10

-- One entry of the resize patch.
pub record ContainerPatch : Type 0 where
  pub name : String
  pub cpu_request : ℤ
  pub limits : List (String × String)

module _ (F : Type 0) ⦃fl : Float64 F⦄ where
  -- `int64(float64(oldMilli) * (1.0 - ratio))`, and not below the minimum.
  unfoldable pub new_milli : F → ℤ → ℤ
  new_milli ratio old_milli =
      let reduced = fl.to_int (fl.mul (fl.of_int old_milli) (fl.sub (fl.decimal 1 0) ratio)) in
      if ltb_ℤ reduced min_milli then min_milli else reduced

  -- The entries of the patch: only for containers with a CPU request.
  unfoldable pub patch_of : F → List Container → List ContainerPatch
  unfolding new_milli
  patch_of ratio [] = []
  patch_of ratio (c ∷ cs) =
      let rest = patch_of ratio cs in
      elim c.cpu_request [
        | none ↦ rest
        | some old_milli ↦
            if old_milli == pos 0
            then rest
            else record {
              name = c.name;
              cpu_request = new_milli ratio old_milli;
              limits = c.limits;
            }
              ∷ rest
      ]

-- The loop of PickHighestCPUFromMilli over `best` and `bestMilli`.
unfoldable pub highest_from : Option Pod → ℤ → List (String × ℤ) → List Pod → Option Pod
highest_from best best_milli pod_milli [] = best
highest_from best best_milli pod_milli (p ∷ pods) = elim (lookup p.name pod_milli) [
  | none ↦ highest_from best best_milli pod_milli pods
  | some m ↦
      let more = ltb_ℤ best_milli m in
      highest_from (if more then some p else best) (if more then m else best_milli) pod_milli pods
]

unfoldable pub pick_highest_cpu_from_milli : List Pod → List (String × ℤ) → Option Pod
unfolding highest_from
pick_highest_cpu_from_milli pods pod_milli = highest_from none (negsuc 0) pod_milli pods

-- The pod has an app label, and the data of the app has this criticality.
unfoldable pub has_criticality : List (String × RealTimeData) → String → Pod → Bool
has_criticality rt_data crit p =
    if app_of p == ""
    then false
    else elim (lookup (app_of p) rt_data) [ none ↦ false | some rt ↦ rt.criticality == crit ]

unfoldable pub filter_pods_by_criticality :
    List Pod → List (String × RealTimeData) → String → List Pod
unfolding has_criticality
filter_pods_by_criticality pods rt_data crit = filter (has_criticality rt_data crit) pods

unfoldable pub exceeds_min : Container → Bool
exceeds_min c = elim c.cpu_request [ none ↦ false | some m ↦ ltb_ℤ min_milli m ]

unfoldable pub has_actionable_in_tier : List Pod → List (String × RealTimeData) → String → Bool
unfolding filter_pods_by_criticality exceeds_min
has_actionable_in_tier pods rt_data tier =
    any (λ p. any exceeds_min p.containers) (filter_pods_by_criticality pods rt_data tier)

-- `sumMilli` over the containers of a pod.
unfoldable pub sum_milli : ℤ → List Container → ℤ
sum_milli sum [] = sum
sum_milli sum (c ∷ cs) = elim c.cpu_request [
  | none ↦ sum_milli sum cs
  | some m ↦ sum_milli (wrap64 (sum +ℤ m)) cs
]

-- The pods of the node in the listing, each with its sum.
unfoldable pub list_pod_milli_cpu_by_node :
    String → List Pod → List (String × ℤ) → List (String × ℤ)
unfolding sum_milli
list_pod_milli_cpu_by_node node_name [] out = out
list_pod_milli_cpu_by_node node_name (p ∷ pods) out =
    if p.node_name == node_name
    then list_pod_milli_cpu_by_node node_name pods
        (insert p.name (sum_milli (pos 0) p.containers) out)
    else list_pod_milli_cpu_by_node node_name pods out
