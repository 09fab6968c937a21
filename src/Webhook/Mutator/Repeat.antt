-- ===== src/Webhook/Mutator/Repeat.antt =====
-- internal/webhook/pod_mutator.go: a mutated pod is not mutated again.
use mc_kube.Prelude.{
  ◌≡◌, refl, ap, subst, ◌∙◌, inl, inr, String, Bool, true, false, ◌||◌, List, [], Option, none,
  some, lookup, insert, lookup-insert, lookup-insert_self, string_eq, ◌==◌, arith, Bool-cases,
  Option-cases,
}
use mc_kube.Prelude.Float.{Float64}
use mc_kube.Prelude.Sort.{Sorter}
use mc_kube.Api.{RtSettings, Mckube}
use mc_kube.CpuPool.{Pools}
use mc_kube.CpuPool.Search.{Node, FeasibilityResult, select_best_node_and_core}
use mc_kube.CpuPool.CoreSet.Sprint.{sprint}
use mc_kube.Webhook.Validator.{or_empty, required_budget}
use mc_kube.Webhook.Mutator.{
  Pod, in_progress, skipped, mutated, is_true, marked, with_core, annotate, place, select_core,
  mutate_found, handle,
}

lookup-insert_pass :
    (k j v : String) (m : List (String × String))
    → (k == j) ≡ false
    → lookup j (insert k v m) ≡ lookup j m
lookup-insert_pass k j v m h = ground (arith, lookup-insert k j v m, h)

-- Apart from the keys that are written, the annotations are as before.
lookup-marked :
    (j : String) (rt : RtSettings) (m : List (String × String))
    → ("mckube.io/rt-current" == j) ≡ false
    → ("mckube.io/rt-runtime-hi" == j) ≡ false
    → ("mckube.io/rt-runtime-low" == j) ≡ false
    → ("mckube.io/rt-period" == j) ≡ false
    → lookup j (marked rt m) ≡ lookup j (insert "mckube.io/rt-pending" "true" m)
unfolding marked
lookup-marked j rt m h1 h2 h3 h4 =
    lookup-insert_pass "mckube.io/rt-current" j "low" _ h1
    ∙ lookup-insert_pass "mckube.io/rt-runtime-hi" j (sprint rt.runtime_hi) _ h2
    ∙ lookup-insert_pass "mckube.io/rt-runtime-low" j (sprint rt.runtime_low) _ h3
    ∙ lookup-insert_pass "mckube.io/rt-period" j (sprint rt.period) _ h4

lookup-with_core :
    (j : String) (core : Option String) (m : List (String × String))
    → ("mckube.io/rt-core" == j) ≡ false
    → lookup j (with_core core m) ≡ lookup j m
unfolding with_core
lookup-with_core j none m h = refl
lookup-with_core j (some core) m h = lookup-insert_pass "mckube.io/rt-core" j core m h

annotate_pending :
    (rt : RtSettings) (pod : Pod) → is_true "mckube.io/rt-pending" (annotate rt pod) ≡ true
unfolding annotate
annotate_pending rt pod =
    ap (λ v. or_empty v == "true")
      (lookup-with_core "mckube.io/rt-pending" rt.core _ refl
        ∙ lookup-marked "mckube.io/rt-pending" rt pod.annotations refl refl refl refl
        ∙ lookup-insert_self "mckube.io/rt-pending" "true" pod.annotations)

annotate_applied :
    (rt : RtSettings) (pod : Pod)
    → is_true "mckube.io/rt-applied" (annotate rt pod) ≡ is_true "mckube.io/rt-applied" pod
unfolding annotate
annotate_applied rt pod =
    ap (λ v. or_empty v == "true")
      (lookup-with_core "mckube.io/rt-applied" rt.core _ refl
        ∙ lookup-marked "mckube.io/rt-applied" rt pod.annotations refl refl refl refl
        ∙ lookup-insert_pass "mckube.io/rt-pending" "mckube.io/rt-applied" "true" pod.annotations
            refl)

annotate_configured :
    (rt : RtSettings) (pod : Pod)
    → is_true "mckube.io/rt-configured" (annotate rt pod) ≡ is_true "mckube.io/rt-configured" pod
unfolding annotate
annotate_configured rt pod =
    ap (λ v. or_empty v == "true")
      (lookup-with_core "mckube.io/rt-configured" rt.core _ refl
        ∙ lookup-marked "mckube.io/rt-configured" rt pod.annotations refl refl refl refl
        ∙ lookup-insert_pass "mckube.io/rt-pending" "mckube.io/rt-configured" "true" pod.annotations
            refl)

module _ (F : Type 0) ⦃fl : Float64 F⦄ (s : Sorter) (pools : Pools) (dry_run : Bool) where
  -- The placement changes no annotation.
  place-annotations :
      (cr : Mckube) (rt : RtSettings) (pod : Pod) (result : FeasibilityResult)
      → (place F s pools dry_run cr rt pod result).0.annotations ≡ pod.annotations
  unfolding place
  place-annotations cr rt pod result = elim (Bool-cases result.feasible) [
    | inr e ↦ rw e refl
    | inl e ↦ elim (Bool-cases dry_run) [ inl d ↦ rw (e, d) refl | inr d ↦ rw (e, d) refl ]
  ]

  select_core-annotations :
      (list_nodes : Option (List Node)) (cr : Mckube) (rt : RtSettings) (pod : Pod)
      → (select_core F s pools dry_run list_nodes cr rt pod).0.annotations ≡ pod.annotations
  unfolding select_core
  select_core-annotations list_nodes cr rt pod = elim (Option-cases rt.core) [
    | inr (core, e) ↦ rw (e, select_core) refl
    | inl e ↦ elim (Option-cases list_nodes) [
      | inl f ↦ rw (e, f, select_core) refl
      | inr (nodes, f) ↦
          rw (e, f, select_core)
            (place-annotations cr rt pod (
              select_best_node_and_core s pools nodes (required_budget F rt) cr.spec.criticality
                []))
    ]
  ]

  -- Marked as pending and not as configured, and as applied only if the pod it comes from was.
  abbrev pub IsPendingFrom : Pod → Pod → Type 0
  IsPendingFrom pod pod' =
      (is_true "mckube.io/rt-pending" pod' ≡ true)
      × (is_true "mckube.io/rt-applied" pod' ≡ is_true "mckube.io/rt-applied" pod)
      × (is_true "mckube.io/rt-configured" pod' ≡ false)

  annotate-IsPendingFrom :
      (rt : RtSettings) (pod bound : Pod)
      → bound.annotations ≡ pod.annotations
      → is_true "mckube.io/rt-configured" pod ≡ false
      → IsPendingFrom pod (annotate rt bound)
  annotate-IsPendingFrom rt pod bound same unmarked = (
    annotate_pending rt bound,
    annotate_applied rt bound ∙ ap (λ m. or_empty (lookup "mckube.io/rt-applied" m) == "true") same,
    annotate_configured rt bound
        ∙ ap (λ m. or_empty (lookup "mckube.io/rt-configured" m) == "true") same
        ∙ unmarked,
  )

  mutate_found-IsPendingFrom :
      (list_nodes : Option (List Node)) (pod pod' : Pod) (found : Option (Option Mckube))
      (sent : Option Mckube) (rt : RtSettings)
      → mutate_found F s pools dry_run list_nodes pod found ≡ mutated pod' sent rt
      → IsPendingFrom pod pod'
  unfolding mutate_found
  mutate_found-IsPendingFrom list_nodes pod pod' none sent rt h = absurd (cc)
  mutate_found-IsPendingFrom list_nodes pod pod' (some none) sent rt h = absurd (cc)
  mutate_found-IsPendingFrom list_nodes pod pod' (some (some cr)) sent rt h =
      elim (Option-cases cr.spec.rt_settings) [
        | inl e ↦ absurd (let q = rw (e, mutate_found) at h in cc)
        | inr (given, e) ↦
            elim (Bool-cases
              (is_true "mckube.io/rt-pending" pod || is_true "mckube.io/rt-configured" pod)) [
                | inl f ↦ absurd (let q = rw (e, mutate_found, f) at h in cc)
                | inr f ↦
                    let placed = select_core F s pools dry_run list_nodes cr given pod in
                    let made : mutated (annotate placed.2 placed.0) placed.1 placed.2
                        ≡ mutated pod' sent rt =
                      rw (e, mutate_found, f) at h in
                    let same : annotate placed.2 placed.0 ≡ pod' = cc in
                    subst (IsPendingFrom pod) same (
                      annotate-IsPendingFrom placed.2 pod placed.0
                        (select_core-annotations list_nodes cr given pod) (ground (arith, f)))
              ]
      ]

  pub handle-IsPendingFrom :
      (list_mckubes : String → Option (List Mckube)) (list_nodes : Option (List Node))
      (pod pod' : Pod) (sent : Option Mckube) (rt : RtSettings)
      → handle F s pools dry_run list_mckubes list_nodes (some pod) ≡ mutated pod' sent rt
      → (is_true "mckube.io/rt-applied" pod ≡ false) × IsPendingFrom pod pod'
  unfolding handle
  handle-IsPendingFrom list_mckubes list_nodes pod pod' sent rt h =
      elim (Bool-cases (is_true "mckube.io/rt-applied" pod)) [
        | inl e ↦ absurd (let q = rw (e) at h in cc)
        | inr e ↦ elim (Bool-cases (is_true "mckube.io/rt-pending" pod)) [
          | inl f ↦ absurd (let q = rw (e, f) at h in cc)
          | inr f ↦ (e, mutate_found-IsPendingFrom list_nodes pod pod' _ sent rt (rw (e, f) at h))
        ]
      ]

-- A pod that the handler has mutated is left alone by the next call, whatever the pools, the
-- resources and the nodes are then: it answers that the configuration is in progress.
pub handle-again :
    (F : Type 0) ⦃fl : Float64 F⦄ (s : Sorter) (pools later : Pools) (dry_run dry_again : Bool)
    (list_mckubes list_later : String → Option (List Mckube))
    (list_nodes nodes_later : Option (List Node)) (pod pod' : Pod) (sent : Option Mckube)
    (rt : RtSettings)
    → handle F s pools dry_run list_mckubes list_nodes (some pod) ≡ mutated pod' sent rt
    → handle F s later dry_again list_later nodes_later (some pod') ≡ skipped in_progress
unfolding handle
handle-again F s pools later dry_run dry_again list_mckubes list_later list_nodes nodes_later pod
      pod' sent rt h =
    let (unapplied, (pending, applied, unmarked)) =
      handle-IsPendingFrom F s pools dry_run list_mckubes list_nodes pod pod' sent rt h in
    rw (applied, unapplied, pending) refl
