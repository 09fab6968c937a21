-- ===== src/Ipvs/Pressure/Requests.antt =====
-- internal/ipvs/event_handler.go: the requests of one tier.
use mc_kube.Prelude.{
  ◌≡◌, refl, subst, ◌⊎◌, inl, inr, String, List, [], ◌∷◌, Option, none, some, ℤ, pos, negsuc, ltb_ℤ,
  ◌≤ℤ◌, arith, Bool-cases, Option-cases, lookup, insert, string_eq, int_eq, ◌==◌, All,
  if◌then◌else◌,
}
use mathlib.Core.List.{Memᴰ}
use mc_kube.Prelude.Float.{Float64}
use mc_kube.CpuPool.Placement.{List-cases}
use mc_kube.Ipvs.{Container, Pod, PerTierState}
use mc_kube.Ipvs.Pods.{
  min_milli, ContainerPatch, new_milli, patch_of, highest_from, pick_highest_cpu_from_milli,
}
use mc_kube.Ipvs.Pressure.{
  Request, resizes, labels, evicts, Cluster, or_none, degrades_now, evicts_now, evict_pod,
  degrade_pod_requests, degrade_top, degrade_step, evict_step,
}

-- No entry of a resize patch is below the minimum.
abbrev pub AreAboveMin : List ContainerPatch → Type 0
AreAboveMin patches = All (λ c. min_milli ≤ℤ c.cpu_request) patches

patch_of-AreAboveMin :
    (F : Type 0) ⦃fl : Float64 F⦄ (ratio : F) (cs : List Container)
    → AreAboveMin (patch_of F ratio cs)
unfolding patch_of new_milli
patch_of-AreAboveMin F ratio [] = tt
patch_of-AreAboveMin F ratio (c ∷ cs) =
    let rest = patch_of-AreAboveMin F ratio cs in
    elim (Option-cases c.cpu_request) [
      | inl e ↦ rw (e, patch_of) rest
      | inr (m, e) ↦ elim (Bool-cases (m == pos 0)) [
        | inl free ↦ rw (e, patch_of, free) rest
        | inr busy ↦ rw (e, patch_of, busy) (ground arith, rest)
      ]
    ]

highest_from-Memᴰ :
    (best : Option Pod) (best_milli : ℤ) (pod_milli : List (String × ℤ)) (pods : List Pod) (p : Pod)
    → highest_from best best_milli pod_milli pods ≡ some p
    → (best ≡ some p) ⊎ Memᴰ p pods
unfolding highest_from
highest_from-Memᴰ best best_milli pod_milli [] p h = inl h
highest_from-Memᴰ best best_milli pod_milli (c ∷ pods) p h =
    elim (Option-cases (lookup c.name pod_milli)) [
      | inl e ↦
          elim (highest_from-Memᴰ best best_milli pod_milli pods p (rw (e, highest_from) at h)) [
            | inl b ↦ inl b
            | inr m ↦ inr (Memᴰ.tail m)
          ]
      | inr (milli, e) ↦ elim (Bool-cases (ltb_ℤ best_milli milli)) [
        | inl more ↦
            elim (highest_from-Memᴰ (some c) milli pod_milli pods p
              (rw (e, highest_from, more) at h)) [
                | inl b ↦ inr (Memᴰ.head (let same : p ≡ c = ground (arith, b) in same))
                | inr m ↦ inr (Memᴰ.tail m)
              ]
        | inr less ↦
            elim (highest_from-Memᴰ best best_milli pod_milli pods p
              (rw (e, highest_from, less) at h)) [ inl b ↦ inl b | inr m ↦ inr (Memᴰ.tail m) ]
      ]
    ]

pick-Memᴰ :
    (pods : List Pod) (pod_milli : List (String × ℤ)) (p : Pod)
    → pick_highest_cpu_from_milli pods pod_milli ≡ some p
    → Memᴰ p pods
unfolding pick_highest_cpu_from_milli
pick-Memᴰ pods pod_milli p h = elim (highest_from-Memᴰ none (negsuc 0) pod_milli pods p h) [
  | inl e ↦ absurd (ground (arith, e))
  | inr m ↦ m
]

module _ (targets : List Pod) (over_sec : ℤ) where
  -- A resize is for a target, after one second above the threshold, and leaves every container it
  -- names at least the minimum; an eviction, and the label before it, is for a target after ten.
  abbrev pub IsDue : Request → Type 0
  IsDue (resizes p patches) = Memᴰ p targets × (pos 1 ≤ℤ over_sec) × AreAboveMin patches
  IsDue (labels p) =
      (pos 10 ≤ℤ over_sec)
      × ((q : Pod) × Memᴰ q targets × (p ≡ record q { labels = insert "evicted" "true" q.labels }))
  IsDue (evicts p) =
      (pos 10 ≤ℤ over_sec)
      × ((q : Pod) × Memᴰ q targets × (p ≡ record q { labels = insert "evicted" "true" q.labels }))

  module _ (F : Type 0) ⦃fl : Float64 F⦄ (cluster : Cluster) (pod_milli : List (String × ℤ)) where
    degrade_pod_requests-IsDue :
        (p : Pod) (ratio : F)
        → Memᴰ p targets
        → pos 1 ≤ℤ over_sec
        → All IsDue (degrade_pod_requests F cluster p ratio).1
    unfolding degrade_pod_requests
    degrade_pod_requests-IsDue p ratio m h = elim (List-cases (patch_of F ratio p.containers)) [
      | inl e ↦ rw (e, degrade_pod_requests) tt
      | inr (c, cs, e) ↦
          rw (e, degrade_pod_requests)
            ((m, h, subst AreAboveMin e (patch_of-AreAboveMin F ratio p.containers)), tt)
    ]

    degrade_top-IsDue :
        (p : Pod) (pts : PerTierState)
        → Memᴰ p targets
        → pos 1 ≤ℤ over_sec
        → All IsDue (degrade_top F cluster pod_milli over_sec p pts).1
    unfolding degrade_top
    degrade_top-IsDue p pts m h =
        let milli = or_none (lookup p.name pod_milli) in
        elim (Bool-cases (ltb_ℤ min_milli (if ltb_ℤ (pos 0) milli then milli else pos 0))) [
          | inl e ↦ rw e (degrade_pod_requests-IsDue p (fl.decimal 2 1) m h)
          | inr e ↦ rw e tt
        ]

    pub degrade_step-IsDue :
        (pts : PerTierState) → All IsDue (degrade_step F cluster targets pod_milli over_sec pts).1
    unfolding degrade_step
    degrade_step-IsDue pts = elim (Bool-cases (degrades_now over_sec pts)) [
      | inr e ↦ rw e tt
      | inl e ↦ elim (Option-cases (pick_highest_cpu_from_milli targets pod_milli)) [
        | inl f ↦ rw (e, f, degrade_step) tt
        | inr (p, f) ↦
            rw (e, f, degrade_step)
              (degrade_top-IsDue p pts (pick-Memᴰ targets pod_milli p f) (ground (arith, e)))
      ]
    ]

    pub evict_step-IsDue :
        (pts : PerTierState) → All IsDue (evict_step F cluster targets pod_milli over_sec pts).1
    unfolding evict_step evict_pod
    evict_step-IsDue pts = elim (Bool-cases (evicts_now over_sec pts)) [
      | inr e ↦ rw e tt
      | inl e ↦ elim (Option-cases (pick_highest_cpu_from_milli targets pod_milli)) [
        | inl f ↦ rw (e, f, evict_step) tt
        | inr (p, f) ↦
            let late : pos 10 ≤ℤ over_sec = ground (arith, e) in
            let m = pick-Memᴰ targets pod_milli p f in
            rw (e, f, evict_step) ((late, (p, m, refl)), ((late, (p, m, refl)), tt))
      ]
    ]
