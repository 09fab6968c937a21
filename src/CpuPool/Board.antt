-- ===== src/CpuPool/Board.antt =====
-- internal/cpupool/cpupool.go: a board holds for each node and core the pods on it, and neither a
-- usage nor an order. The methods of a pool, seen as changes of the board.
use mc_kube.Prelude.{
  ◌≡◌, refl, ap, subst, ◌∙◌, inl, inr, ℕ, String, Bool, List, [], ◌∷◌, Option, none, some, lookup,
  insert, lookup-insert, lookup-AllValues, string_eq, int_eq, nat_eq, ◌==◌, Comparable, ℤ, pos,
  negsuc, ltb, Bool-cases, Option-cases, if◌then◌else◌,
}
use mathlib.Core.Path.{fun_ext}
use mathlib.Core.Option
use mc_kube.CpuPool.{PodInfo, CpuCoreInfo, CpuPool, Pools}
use mc_kube.CpuPool.Store.{exists_pod, add_pod_to_core, remove_pod_from_core}
use mc_kube.CpuPool.Accounting.{IsCounted, IsSound}
use mc_kube.CpuPool.Accounting.History.{
  Call, creates, registers, unregisters, deletes, purges, register_pod,
}
use mc_kube.CpuPool.Removal.{lookup-take_pod}

-- The pods on a core, by their name.
abbrev pub Roster : Type 0
Roster = String → Option PodInfo

abbrev pub Board : Type 0
Board = String → Option (ℤ → Option Roster)

module _ {ℓ κ} {K : Type ℓ} {A : Type κ} ⦃e : Comparable K⦄ where
  -- A change of what stands at one key, if anything does.
  abbrev pub at_key : K → (A → A) → (K → Option A) → K → Option A
  at_key k g f j = if k == j then Option.map g (f j) else f j

  abbrev pub at_all : (A → A) → (K → Option A) → K → Option A
  at_all g f j = Option.map g (f j)

abbrev pub enter : PodInfo → Roster → Roster
enter pod roster name = if pod.name == name then some pod else roster name

abbrev pub leave : String → Roster → Roster
leave gone roster name = if gone == name then none else roster name

abbrev pub keep : List (String × Bool) → Roster → Roster
keep existing roster name = if exists_pod existing name then roster name else none

-- The cores from 0 to `n - 1`, with nobody on them.
abbrev pub empty_cores : ℕ → ℤ → Option Roster
empty_cores n (pos i) = if ltb i n then some (λ name. none) else none
empty_cores n (negsuc i) = none

abbrev pub opened : ℕ → Option (ℤ → Option Roster) → ℤ → Option Roster
opened n none = empty_cores n
opened n (some cores) = cores

-- The call, on the board.
abbrev pub play : Call → Board → Board
play (creates node n) board = λ m. if node == m then some (opened n (board m)) else board m
play (registers node core_id pod) board = at_key node (at_key core_id (enter pod)) board
play (unregisters node core_id name) board = at_key node (at_key core_id (leave name)) board
play (deletes name) board = at_all (at_all (leave name)) board
play (purges existing) board = at_all (at_all (keep existing)) board

abbrev pub play_all : List Call → Board → Board
play_all [] board = board
play_all (c ∷ calls) board = play_all calls (play c board)

abbrev pub roster : CpuCoreInfo → Roster
roster core name = lookup name core.pods

abbrev pub cores_view : CpuPool → ℤ → Option Roster
cores_view p core_id = Option.map roster (lookup core_id p.cores)

abbrev pub view : Pools → Board
view pools node = Option.map cores_view (lookup node pools)

no_core :
    (core_id : ℤ) (g : Roster → Roster) (p : CpuPool)
    → lookup core_id p.cores ≡ none
    → cores_view p ≡ at_key core_id g (cores_view p)
no_core core_id g p e = fun_ext λ j. elim (Bool-cases (core_id == j)) [
  | inl hit ↦
      let missing = subst (λ i. lookup i p.cores ≡ none) ((int_eq.equal_iff core_id j).0 hit) e in
      rw (hit, missing) refl
  | inr miss ↦ rw miss refl
]

change_core :
    (core_id : ℤ) (g : Roster → Roster) (p : CpuPool) (core after : CpuCoreInfo)
    → lookup core_id p.cores ≡ some core
    → roster after ≡ g (roster core)
    → cores_view (record p { cores = insert core_id after p.cores })
      ≡ at_key core_id g (cores_view p)
change_core core_id g p core after e h = fun_ext λ j. elim (Bool-cases (core_id == j)) [
  | inl hit ↦
      let found =
        subst (λ i. lookup i p.cores ≡ some core) ((int_eq.equal_iff core_id j).0 hit) e in
      rw (lookup-insert core_id j after p.cores, hit, found) (ap some h)
  | inr miss ↦ rw (lookup-insert core_id j after p.cores, miss) refl
]

pub add_pod_to_core-enter :
    (core_id : ℤ) (pod : PodInfo) (p : CpuPool)
    → cores_view (add_pod_to_core core_id pod p) ≡ at_key core_id (enter pod) (cores_view p)
unfolding add_pod_to_core
add_pod_to_core-enter core_id pod p = elim (Option-cases (lookup core_id p.cores)) [
  | inl e ↦ rw (e, add_pod_to_core) (no_core core_id (enter pod) p e)
  | inr (core, e) ↦
      rw (e, add_pod_to_core)
        (change_core core_id (enter pod) p core _ e
          (fun_ext λ name. lookup-insert pod.name name pod core.pods))
]

pub remove_pod_from_core-leave :
    (core_id : ℤ) (gone : String) (p : CpuPool)
    → IsSound p
    → cores_view (remove_pod_from_core core_id gone p) ≡ at_key core_id (leave gone) (cores_view p)
unfolding remove_pod_from_core
remove_pod_from_core-leave core_id gone p sound = elim (Option-cases (lookup core_id p.cores)) [
  | inl e ↦ rw (e, remove_pod_from_core) (no_core core_id (leave gone) p e)
  | inr (core, e) ↦
      let counted = lookup-AllValues IsCounted core_id core p.cores sound.cores_counted e in
      rw (e, remove_pod_from_core)
        (change_core core_id (leave gone) p core _ e
          (fun_ext λ name. lookup-take_pod gone name core counted))
]

at_key-at_key :
    (core_id : ℤ) (f g h : Roster → Roster) (cores : ℤ → Option Roster)
    → ((r : Roster) → f (g r) ≡ h r)
    → at_key core_id f (at_key core_id g cores) ≡ at_key core_id h cores
at_key-at_key core_id f g h cores both = fun_ext λ j. elim (Bool-cases (core_id == j)) [
  | inl hit ↦ elim (Option-cases (cores j)) [
    | inl e ↦ rw (hit, e) refl
    | inr (r, e) ↦ rw (hit, e) (ap some (both r))
  ]
  | inr miss ↦ rw miss refl
]

enter-leave : (pod : PodInfo) (r : Roster) → enter pod (leave pod.name r) ≡ enter pod r
enter-leave pod r =
    fun_ext λ name. elim (Bool-cases (pod.name == name)) [
      | inl hit ↦ rw hit refl
      | inr miss ↦ rw miss refl
    ]

-- To register a pod is to enter it.
pub register_pod-enter :
    (core_id : ℤ) (pod : PodInfo) (p : CpuPool)
    → IsSound p
    → cores_view (register_pod core_id pod p) ≡ at_key core_id (enter pod) (cores_view p)
unfolding register_pod
register_pod-enter core_id pod p sound =
    add_pod_to_core-enter core_id pod (remove_pod_from_core core_id pod.name p)
    ∙ ap (at_key core_id (enter pod)) (remove_pod_from_core-leave core_id pod.name p sound)
    ∙ at_key-at_key core_id (enter pod) (leave pod.name) (enter pod) (cores_view p)
        (enter-leave pod)
