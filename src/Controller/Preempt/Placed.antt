-- ===== src/Controller/Preempt/Placed.antt =====
-- internal/controller/mckube_controller.go: the accounts of a pool in which every pod stands on one
-- core, over a migration of preemptPod.
use mc_kube.Prelude.{
  ◌≡◌, ◌≢◌, refl, ap, sym, subst, ◌∙◌, ◌⊎◌, inl, inr, String, false, Option, none, some, lookup,
  string_eq, int_eq, ◌==◌, ==_refl, ℤ, arith, Bool-cases, Option-cases,
}
use mathlib.Core.Option
use mc_kube.CpuPool.{PodInfo, CpuPool}
use mc_kube.CpuPool.Store.{remove_pod_from_core}
use mc_kube.CpuPool.Accounting.{IsSound, IsAbsent}
use mc_kube.CpuPool.Board.{
  Roster, at_key, enter, leave, cores_view, add_pod_to_core-enter, remove_pod_from_core-leave,
}
use mc_kube.Controller.Preemption.{migrate}
use mc_kube.Controller.Migration.{migrate-Moves}

abbrev read : Option Roster → String → Option PodInfo
read none name = none
read (some r) name = r name

-- The entry of a pod on a core of the pool.
abbrev pub entry : CpuPool → ℤ → String → Option PodInfo
entry p core_id name = read (cores_view p core_id) name

-- The accounts are right, every pod is on one core at most, and stands there under its own name.
pub record IsPlaced (p : CpuPool) : Type 0 where
  pub sound : IsSound p
  pub single :
      (name : String) (c d : ℤ) (v w : PodInfo)
      → entry p c name ≡ some v
      → entry p d name ≡ some w
      → c ≡ d
  pub keyed : (name : String) (c : ℤ) (v : PodInfo) → entry p c name ≡ some v → v.name ≡ name

-- A move on a board of cores.
abbrev moved : PodInfo → ℤ → ℤ → (ℤ → Option Roster) → ℤ → Option Roster
moved v current_core new_core g = at_key new_core (enter v) (at_key current_core (leave v.name) g)

differs_test : (a b : String) → a ≢ b → (a == b) ≡ false
differs_test a b differ = elim (Bool-cases (a == b)) [
  | inl hit ↦ absurd (differ ((string_eq.equal_iff a b).0 hit))
  | inr miss ↦ miss
]

read-map :
    (f : Roster → Roster) (o : Option Roster) (name : String)
    → ((r : Roster) → f r name ≡ r name)
    → read (Option.map f o) name ≡ read o name
read-map f none name h = refl
read-map f (some r) name h = h r

at_key-others :
    (k : ℤ) (f : Roster → Roster) (g : ℤ → Option Roster) (d : ℤ) (name : String)
    → ((r : Roster) → f r name ≡ r name)
    → read (at_key k f g d) name ≡ read (g d) name
at_key-others k f g d name h = elim (Bool-cases (k == d)) [
  | inl hit ↦ rw hit (read-map f (g d) name h)
  | inr miss ↦ rw miss refl
]

-- A move does not touch another pod.
moved_others :
    (v : PodInfo) (cur new : ℤ) (g : ℤ → Option Roster) (d : ℤ) (name : String)
    → v.name ≢ name
    → read (moved v cur new g d) name ≡ read (g d) name
moved_others v cur new g d name differ =
    let miss = differs_test v.name name differ in
    at_key-others new (enter v) (at_key cur (leave v.name) g) d name (λ r. rw miss refl)
    ∙ at_key-others cur (leave v.name) g d name (λ r. rw miss refl)

entered :
    (v w : PodInfo) (o : Option Roster) → read (Option.map (enter v) o) v.name ≡ some w → v ≡ w
entered v w none h = absurd (cc)
entered v w (some r) h = let q = rw (==_refl v.name) at h in cc q

left : (n : String) (w : PodInfo) (o : Option Roster) → read (Option.map (leave n) o) n ≢ some w
left n w none h = absurd (cc)
left n w (some r) h = let q = rw (==_refl n) at h in absurd (cc)

-- Where the moved pod is found, it is on the new core and itself, or where it was and not on the
-- core that it left.
moved_self :
    (v w : PodInfo) (cur new d : ℤ) (g : ℤ → Option Roster)
    → read (moved v cur new g d) v.name ≡ some w
    → ((new ≡ d) × (v ≡ w)) ⊎ ((cur ≢ d) × (read (g d) v.name ≡ some w))
moved_self v w cur new d g h = elim (Bool-cases (new == d)) [
  | inl hit ↦
      inl
        ((int_eq.equal_iff new d).0 hit, entered v w (at_key cur (leave v.name) g d) (rw hit at h))
  | inr miss ↦ elim (Bool-cases (cur == d)) [
    | inl here ↦ absurd (left v.name w (g d) (rw (miss, here) at h))
    | inr there ↦ inr (
      λ e. let q = (int_eq.equal_iff cur d).1 e in absurd (ground (arith, q, there)),
      rw (miss, there) at h,
    )
  ]
]

entry-migrate :
    (v : PodInfo) (cur new : ℤ) (p : CpuPool)
    → IsSound p
    → cores_view (migrate v cur new p) ≡ moved v cur new (cores_view p)
unfolding migrate
entry-migrate v cur new p sound =
    add_pod_to_core-enter new v (remove_pod_from_core cur v.name p)
    ∙ ap (at_key new (enter v)) (remove_pod_from_core-leave cur v.name p sound)

-- What is found after a move is the moved pod on the new core, or what was there before.
moved_entry :
    (v w : PodInfo) (cur new d : ℤ) (g : ℤ → Option Roster) (name : String)
    → read (moved v cur new g d) name ≡ some w
    → ((v.name ≡ name) × (new ≡ d) × (v ≡ w))
      ⊎ ((v.name ≡ name → cur ≢ d) × (read (g d) name ≡ some w))
moved_entry v w cur new d g name h = elim (Bool-cases (v.name == name)) [
  | inr miss ↦
      let differ : v.name ≢ name =
        λ e. let q = (string_eq.equal_iff v.name name).1 e in absurd (ground (arith, q, miss)) in
      inr (λ e. absurd (differ e), sym (moved_others v cur new g d name differ) ∙ h)
  | inl hit ↦
      let own : v.name ≡ name = (string_eq.equal_iff v.name name).0 hit in
      elim (moved_self v w cur new d g
        (subst (λ n. read (moved v cur new g d) n ≡ some w) (sym own) h)) [
          | inl (there, it) ↦ inl (own, there, it)
          | inr (away, old) ↦ inr (λ e. away, subst (λ n. read (g d) n ≡ some w) own old)
        ]
]

module _ (v v0 : PodInfo) (cur new : ℤ) (p : CpuPool) (placed : IsPlaced p) where
  entry_after :
      (name : String) (d : ℤ) (w : PodInfo)
      → entry (migrate v cur new p) d name ≡ some w
      → ((v.name ≡ name) × (new ≡ d) × (v ≡ w))
        ⊎ ((v.name ≡ name → cur ≢ d) × (entry p d name ≡ some w))
  entry_after name d w h =
      moved_entry v w cur new d (cores_view p) name
        (sym (ap (λ g. read (g d) name) (entry-migrate v cur new p placed.sound)) ∙ h)

  not_elsewhere : entry p cur v.name ≡ some v0 → new ≢ cur → IsAbsent new v.name p
  not_elsewhere here other core e = elim (Option-cases (lookup v.name core.pods)) [
    | inl none_there ↦ none_there
    | inr (w, there) ↦ absurd (other (sym (placed.single v.name cur new v0 w here (rw e there))))
  ]

  pub migrate-IsPlaced : entry p cur v.name ≡ some v0 → new ≢ cur → IsPlaced (migrate v cur new p)
  migrate-IsPlaced here other = record {
    sound = (migrate-Moves v cur new p placed.sound other (not_elsewhere here other)).0;
    single = λ name c d u w hc hd. elim (entry_after name c u hc) [
      | inl (own, at_c, it) ↦ elim (entry_after name d w hd) [
        | inl (own', at_d, it') ↦ sym at_c ∙ at_d
        | inr (away, old) ↦ absurd (
            away own
              (placed.single name cur d v0 w (subst (λ n. entry p cur n ≡ some v0) own here) old))
      ]
      | inr (away, old) ↦ elim (entry_after name d w hd) [
        | inl (own, at_d, it) ↦ absurd (
            away own
              (placed.single name cur c v0 u (subst (λ n. entry p cur n ≡ some v0) own here) old))
        | inr (away', old') ↦ placed.single name c d u w old old'
      ]
    ];
    keyed = λ name c w h. elim (entry_after name c w h) [
      | inl (own, there, it) ↦ ap PodInfo.name (sym it) ∙ own
      | inr (away, old) ↦ placed.keyed name c w old
    ];
  }

  pub entry-migrate_others :
      (name : String) (d : ℤ) → v.name ≢ name → entry (migrate v cur new p) d name ≡ entry p d name
  entry-migrate_others name d differ =
      ap (λ g. read (g d) name) (entry-migrate v cur new p placed.sound)
      ∙ moved_others v cur new (cores_view p) d name differ
