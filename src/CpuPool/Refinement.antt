-- ===== src/CpuPool/Refinement.antt =====
-- internal/cpupool/cpupool.go: every history of the pools is one of the board.
use mc_kube.Prelude.{
  ◌≡◌, refl, ap, sym, subst, ◌∙◌, inl, inr, ℕ, zero, suc, ◌+◌, String, Bool, true, List, [], ◌∷◌,
  Option, none, some, lookup, lookup-insert, lookup-AllValues, string_eq, int_eq, nat_eq, ◌==◌,
  ==_refl, ℤ, pos, negsuc, ltb, leb, ◌&&◌, arith, Bool-cases, Option-cases, if◌then◌else◌,
}
use mathlib.Core.Path.{fun_ext}
use mathlib.Core.Option
use mc_kube.CpuPool.{CpuCoreInfo, CpuPool, Pools}
use mc_kube.CpuPool.Store.{
  fresh_cores, get_or_create_cpu_pool, update_pool, remove_pods_not_in, remove_pod_from_core,
  take_pod, map_values, purge_core,
}
use mc_kube.CpuPool.Accounting.{IsCounted, IsSound, ArePoolsSound}
use mc_kube.CpuPool.Accounting.History.{
  Call, creates, registers, unregisters, deletes, purges, register_pod, step, step-ArePoolsSound,
  run,
}
use mc_kube.CpuPool.Removal.{
  lookup-take_pod, lookup-purge_pods, lookup-map_values, take_everywhere, remove-map_values,
}
use mc_kube.CpuPool.Board.{
  Roster, at_key, at_all, enter, leave, keep, empty_cores, play, play_all, roster, cores_view, view,
  remove_pod_from_core-leave, register_pod-enter,
}

view-update_pool :
    (node : String) (f : CpuPool → CpuPool) (g : (ℤ → Option Roster) → ℤ → Option Roster)
    (pools : Pools) (m : String)
    → ((p : CpuPool) → IsSound p → cores_view (f p) ≡ g (cores_view p))
    → ArePoolsSound pools
    → view (update_pool node f pools) m ≡ at_key node g (view pools) m
unfolding update_pool lookup
view-update_pool node f g [] m same sound = elim (Bool-cases (node == m)) [
  | inl hit ↦ rw hit refl
  | inr miss ↦ rw miss refl
]
view-update_pool node f g ((n, p) ∷ pools) m same sound = elim (Bool-cases (n == m)) [
  | inr other ↦ rw other (view-update_pool node f g pools m same sound.1)
  | inl here ↦
      let at_m : n ≡ m = (string_eq.equal_iff n m).0 here in
      elim (Bool-cases (n == node)) [
        | inl hit ↦
            let found =
              subst (λ k. (node == k) ≡ true) at_m
                (subst (λ k. (k == n) ≡ true) ((string_eq.equal_iff n node).0 hit) (==_refl n)) in
            rw (here, hit, found) (ap some (same p sound.0))
        | inr miss ↦ elim (Bool-cases (node == m)) [
          | inr apart ↦ rw (here, miss, apart) refl
          | inl same_node ↦
              let again =
                (string_eq.equal_iff n node).1
                  (at_m ∙ sym ((string_eq.equal_iff node m).0 same_node)) in
              absurd (ground (arith, again, miss))
        ]
      ]
]

view-map_values :
    (f : CpuPool → CpuPool) (g : (ℤ → Option Roster) → ℤ → Option Roster) (pools : Pools)
    → ((p : CpuPool) → IsSound p → cores_view (f p) ≡ g (cores_view p))
    → ArePoolsSound pools
    → view (map_values f pools) ≡ at_all g (view pools)
view-map_values f g pools same sound = fun_ext λ m. elim (Option-cases (lookup m pools)) [
  | inl e ↦ rw (lookup-map_values f m pools, e) refl
  | inr (p, e) ↦
      rw (lookup-map_values f m pools, e)
        (ap some (same p (lookup-AllValues IsSound m p pools sound e)))
]

cores_view-map_values :
    (f : CpuCoreInfo → CpuCoreInfo) (g : Roster → Roster) (p : CpuPool)
    → ((core : CpuCoreInfo) → IsCounted core → roster (f core) ≡ g (roster core))
    → IsSound p
    → cores_view (record p { cores = map_values f p.cores }) ≡ at_all g (cores_view p)
cores_view-map_values f g p same sound = fun_ext λ j. elim (Option-cases (lookup j p.cores)) [
  | inl e ↦ rw (lookup-map_values f j p.cores, e) refl
  | inr (core, e) ↦
      rw (lookup-map_values f j p.cores, e)
        (ap some (same core (lookup-AllValues IsCounted j core p.cores sound.cores_counted e)))
]

-- From core `i` on.
fresh_cores_from :
    (n i j : ℕ)
    → Option.map roster (lookup (pos j) (fresh_cores n i))
      ≡ (if leb i j && ltb j (i + n) then some (λ name. none) else none)
unfolding fresh_cores lookup
fresh_cores_from zero i j = ground arith
fresh_cores_from (suc n) i j = elim (Bool-cases (i == j)) [
  | inl hit ↦ ground (arith, hit)
  | inr miss ↦ ground (arith, miss, fresh_cores_from n (i + 1) j)
]

no_negative_core : (n i j : ℕ) → lookup (negsuc j) (fresh_cores n i) ≡ none
unfolding fresh_cores lookup
no_negative_core zero i j = refl
no_negative_core (suc n) i j = ground (arith, no_negative_core n (i + 1) j)

cores_view-fresh_cores :
    (node : String) (n : ℕ)
    → cores_view (record { node_name = node; cores = fresh_cores n 0 }) ≡ empty_cores n
cores_view-fresh_cores node n = fun_ext core
  where
    core : (j : ℤ) → Option.map roster (lookup j (fresh_cores n 0)) ≡ empty_cores n j
    core (pos j) = fresh_cores_from n 0 j ∙ ground arith
    core (negsuc j) = rw (no_negative_core n 0 j) refl

view-get_or_create :
    (node : String) (n : ℕ) (pools : Pools)
    → view (get_or_create_cpu_pool node n pools).1 ≡ play (creates node n) (view pools)
unfolding get_or_create_cpu_pool
view-get_or_create node n pools = fun_ext λ m. elim (Option-cases (lookup node pools)) [
  | inl e ↦ elim (Bool-cases (node == m)) [
    | inr miss ↦ rw (e, get_or_create_cpu_pool, lookup-insert node m _ pools, miss) refl
    | inl hit ↦
        let missing = subst (λ k. lookup k pools ≡ none) ((string_eq.equal_iff node m).0 hit) e in
        rw (e, get_or_create_cpu_pool, lookup-insert node m _ pools, hit, missing)
          (ap some (cores_view-fresh_cores node n))
  ]
  | inr (p, e) ↦ elim (Bool-cases (node == m)) [
    | inr miss ↦ rw (e, get_or_create_cpu_pool, miss) refl
    | inl hit ↦
        let found = subst (λ k. lookup k pools ≡ some p) ((string_eq.equal_iff node m).0 hit) e in
        rw (e, get_or_create_cpu_pool, hit, found) refl
  ]
]

purged :
    (existing : List (String × Bool)) (other : String) (core : CpuCoreInfo)
    → IsCounted core
    → roster (purge_core existing core) other ≡ keep existing (roster core) other
unfolding purge_core
purged existing other core counted =
    lookup-purge_pods existing core.usage_millis other core.pods counted.distinct

view-step :
    (c : Call) (pools : Pools) → ArePoolsSound pools → view (step c pools) ≡ play c (view pools)
unfolding step remove_pods_not_in
view-step (creates node n) pools sound = view-get_or_create node n pools
view-step (registers node core_id pod) pools sound = fun_ext λ m.
    view-update_pool node (register_pod core_id pod) (at_key core_id (enter pod)) pools m
      (register_pod-enter core_id pod) sound
view-step (unregisters node core_id name) pools sound = fun_ext λ m.
    view-update_pool node (remove_pod_from_core core_id name) (at_key core_id (leave name)) pools m
      (remove_pod_from_core-leave core_id name) sound
view-step (deletes name) pools sound =
    ap view (remove-map_values name pools)
    ∙ view-map_values (take_everywhere name) (at_all (leave name)) pools
        (λ p.
          cores_view-map_values (λ c. (take_pod name c).0) (leave name) p
            (λ core counted. fun_ext λ other. lookup-take_pod name other core counted))
        sound
view-step (purges existing) pools sound =
    view-map_values _ (at_all (keep existing)) pools
      (λ p.
        cores_view-map_values (purge_core existing) (keep existing) p
          (λ core counted. fun_ext λ other. purged existing other core counted))
      sound

run_from-play_all :
    (calls : List Call) (pools : Pools)
    → ArePoolsSound pools
    → view (run calls pools) ≡ play_all calls (view pools)
unfolding run
run_from-play_all [] pools sound = refl
run_from-play_all (c ∷ calls) pools sound =
    run_from-play_all calls (step c pools) (step-ArePoolsSound c pools sound)
    ∙ ap (play_all calls) (view-step c pools sound)

-- Any history of calls, seen as the pods on each core of each node, is the same history played on
-- the board, from the empty one.
pub run-play_all : (calls : List Call) → view (run calls []) ≡ play_all calls (λ node. none)
unfolding lookup
run-play_all calls = run_from-play_all calls [] tt
