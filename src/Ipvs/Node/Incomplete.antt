-- ===== src/Ipvs/Node/Incomplete.antt =====
-- internal/ipvs: one incomplete resource stops the monitor on every node.
use mc_kube.Prelude.{
  ◌≡◌, refl, sym, subst, inl, inr, ℕ, String, Bool, true, false, List, [], ◌∷◌, ◌++◌, Option, none,
  some, All, lookup, insert, filter, string_eq, ◌==◌, ℤ, Bool-cases,
}
use mc_kube.Prelude.Float.{Float64}
use mc_kube.CpuPool.CoreSet.{is_empty}
use mc_kube.Ipvs.{Pod, RealTimeWcet, RealTimeData, NodePressureState, app_of}
use mc_kube.Ipvs.Collector.{
  found, missing, whole, fraction, Element, mapping, Item, ok, nothing, read_number, read_wcets,
  read_item, collect, get_real_time_data,
}
use mc_kube.Ipvs.Tiers.{collect_sorted_tiers, seen_tiers, tier_of, reindex_current_tier}
use mc_kube.Ipvs.Events.{ann_text, ann_usage_key}
use mc_kube.Ipvs.Pressure.{Cluster, or_fresh_state, handle_tiers, handle_node_cpu_pressure}
use mc_kube.Ipvs.Node.{Outcome, read_over_sec, with_data, handle_node}

module _ (F : Type 0) ⦃fl : Float64 F⦄ where
  -- An element of `rtWcets` with a node and a number.
  pub data IsMeasured : Element F → Type 0 where
    integral : (node : String) (v : ℤ) → IsMeasured (mapping node (whole v))
    fractional : (node : String) (v : F) → IsMeasured (mapping node (fraction v))

  -- Every field is there and has its type.
  pub record IsComplete (item : Item F) : Type 0 where
    pub name_there : (a : String) × (item.app_name ≡ found a)
    pub criticality_there : (c : String) × (item.criticality ≡ found c)
    pub deadline_there : (d : ℤ) × (item.rt_deadline ≡ found d)
    pub period_there : (p : ℤ) × (item.rt_period ≡ found p)
    pub wcets_there : (ws : List (Element F)) × (item.rt_wcets ≡ found ws) × All IsMeasured ws

  -- The name is there, and the criticality is not.
  pub record LacksCriticality (item : Item F) : Type 0 where
    pub name_there : (a : String) × (item.app_name ≡ found a)
    pub lacks : item.criticality ≡ missing

  read_wcets_total :
      (ws : List (Element F))
      → All IsMeasured ws
      → (out : List RealTimeWcet) × (read_wcets F ws ≡ ok out)
  unfolding read_wcets read_number
  read_wcets_total [] h = ([], refl)
  read_wcets_total (w ∷ ws) (integral node v, hs) =
      let (out, e) = read_wcets_total ws hs in
      (record { node = node; rt_wcet = v } ∷ out, rw e refl)
  read_wcets_total (w ∷ ws) (fractional node v, hs) =
      let (out, e) = read_wcets_total ws hs in
      (record { node = node; rt_wcet = fl.to_int v } ∷ out, rw e refl)

  read_item_complete :
      (item : Item F)
      → IsComplete item
      → (entry : String × RealTimeData) × (read_item F item ≡ ok entry)
  unfolding read_item
  read_item_complete item c =
      let (out, e) = read_wcets_total c.wcets_there.0 c.wcets_there.2 in
      (
        (
          c.name_there.0,
          record {
            criticality = c.criticality_there.0;
            rt_deadline = c.deadline_there.0;
            rt_period = c.period_there.0;
            rt_wcets = out;
          },
        ),
        simp (
          c.name_there.1, c.criticality_there.1, c.deadline_there.1, c.period_there.1,
          c.wcets_there.1, e,
        ),
      )

  collect_lacking :
      (result : List (String × RealTimeData)) (before : List (Item F)) (item : Item F)
      (after : List (Item F))
      → All IsComplete before
      → LacksCriticality item
      → collect F result (before ++ item ∷ after) ≡ nothing
  unfolding collect read_item
  collect_lacking result [] item after h l = simp (l.name_there.1, l.lacks)
  collect_lacking result (b ∷ before) item after h l =
      let (entry, e) = read_item_complete b h.0 in
      rw e (collect_lacking (insert entry.0 entry.1 result) before item after h.1 l)

untiered : (p : Pod) → tier_of [] p ≡ none
unfolding tier_of lookup
untiered p = elim (Bool-cases (app_of p == "")) [ inl e ↦ rw e refl | inr e ↦ rw e refl ]

none_seen : (pods : List Pod) → seen_tiers [] pods [] ≡ []
unfolding seen_tiers
none_seen [] = refl
none_seen (p ∷ pods) = rw (untiered p, seen_tiers) (none_seen pods)

-- With no data no pod has a tier.
no_tiers : (pods : List Pod) → collect_sorted_tiers pods [] ≡ []
unfolding collect_sorted_tiers
no_tiers pods = rw (none_seen pods) refl

module _ (F : Type 0) ⦃fl : Float64 F⦄ (cluster : Cluster) (fuel : ℕ) (node_name : String) where
  -- Some state, and no request.
  abbrev pub MakesNoRequest : Outcome → Type 0
  MakesNoRequest outcome =
      (after : List (String × NodePressureState)) × (outcome ≡ some (after, []))

  tierless :
      (pods : List Pod) (pod_milli : List (String × ℤ)) (over_sec : ℤ)
      (pressure_state : List (String × NodePressureState)) (old : NodePressureState)
      (tiers : List String)
      → [] ≡ tiers
      → let state = reindex_current_tier (record old { tiers = tiers; above_sec = over_sec }) in
        MakesNoRequest (
          handle_tiers F cluster fuel node_name [] pods pod_milli over_sec pressure_state state
            state.tiers)
  unfolding handle_tiers reindex_current_tier
  tierless pods pod_milli over_sec pressure_state old tiers e =
      subst
        (λ (t : List String).
          let state = reindex_current_tier (record old { tiers = t; above_sec = over_sec }) in
          MakesNoRequest (
            handle_tiers F cluster fuel node_name [] pods pod_milli over_sec pressure_state state
              state.tiers))
        e (_, refl)

  on_pods :
      (pods node_pods : List Pod) (over_sec : ℤ)
      (pressure_state : List (String × NodePressureState))
      → filter (λ (p : Pod). p.node_name == node_name) pods ≡ node_pods
      → MakesNoRequest
          (handle_node_cpu_pressure F cluster fuel node_name [] pods over_sec pressure_state)
  unfolding handle_node_cpu_pressure
  on_pods pods [] over_sec pressure_state e =
      (pressure_state, rw (e, handle_node_cpu_pressure) refl)
  on_pods pods (p ∷ ps) over_sec pressure_state e =
      rw (e, handle_node_cpu_pressure)
        (tierless (p ∷ ps) _ over_sec pressure_state
          (or_fresh_state (lookup node_name pressure_state)) _ (sym (no_tiers (p ∷ ps))))

  without_data :
      (pods : List Pod) (over_sec : ℤ) (pressure_state : List (String × NodePressureState))
      → MakesNoRequest
          (handle_node_cpu_pressure F cluster fuel node_name [] pods over_sec pressure_state)
  without_data pods over_sec pressure_state = on_pods pods _ over_sec pressure_state refl

  with_nothing :
      (over_sec : ℤ) (pods : Option (List Pod)) (again : Bool)
      (pressure_state : List (String × NodePressureState))
      → MakesNoRequest (
          with_data F cluster fuel
            (λ text. true)
            node_name
            over_sec
            nothing
            pods
            again
            pressure_state)
  with_nothing over_sec none again pressure_state = (pressure_state, refl)
  with_nothing over_sec (some pods) false pressure_state = (pressure_state, refl)
  with_nothing over_sec (some pods) true pressure_state = without_data pods over_sec pressure_state

  -- A resource that names its app and lacks its criticality, after complete ones: whatever pods
  -- there are, and however long the pressure of a node lasts, the monitor degrades and evicts none.
  pub handle_node_incomplete :
      (is_float : List ℕ → Bool) (ann : Option (List (String × String))) (before : List (Item F))
      (item : Item F) (after : List (Item F)) (pods : Option (List Pod)) (again : Bool)
      (pressure_state : List (String × NodePressureState))
      → All (IsComplete F) before
      → LacksCriticality F item
      → MakesNoRequest (
          handle_node F cluster fuel is_float node_name ann
            (some (before ++ item ∷ after))
            pods
            again
            pressure_state)
  unfolding handle_node get_real_time_data
  handle_node_incomplete is_float none before item after pods again pressure_state h l =
      (pressure_state, refl)
  handle_node_incomplete is_float (some ann) before item after pods again pressure_state h l =
      elim (Bool-cases (is_empty (ann_text ann_usage_key ann))) [
        | inl e ↦ (pressure_state, rw e refl)
        | inr e ↦ elim (Bool-cases (is_float (ann_text ann_usage_key ann))) [
          | inr bad ↦ (pressure_state, rw (e, bad) refl)
          | inl good ↦
              rw (e, good, collect_lacking F [] before item after h l)
                (with_nothing (read_over_sec ann) pods again pressure_state)
        ]
      ]
