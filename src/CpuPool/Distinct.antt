-- ===== src/CpuPool/Distinct.antt =====
-- Pods of different names, for lists of candidates and victims of internal/cpupool/cpupool.go.
use mc_kube.Prelude.{
  ◌≡◌, ◌≢◌, refl, sym, subst, ◌∙◌, inl, inr, String, Bool, List, [], ◌∷◌, none, some, All, All-map,
  lookup, IsMap, filter, string_eq, ◌==◌, ==_refl, Bool-cases,
}
use mathlib.Core.List.{Permᴰ}
use mathlib.Core.List.Permᴰ
use mc_kube.Prelude.Float.{Float64, millis}
use mc_kube.Prelude.Sort.{Sorter, Permᴰ-All}
use mc_kube.CpuPool.{PodInfo, values}
use mc_kube.CpuPool.Victims.{pick_from, victim_before, select_minimum_victims}

abbrev pub Differs : PodInfo → PodInfo → Type 0
Differs u v = u.name ≢ v.name

abbrev pub AreDistinct : List PodInfo → Type 0
AreDistinct [] = Unit
AreDistinct (u ∷ us) = All (Differs u) us × AreDistinct us

pub All-filter {κ} :
    (P : PodInfo → Type κ) (test : PodInfo → Bool) (us : List PodInfo)
    → All P us
    → All P (filter test us)
All-filter P test [] h = tt
All-filter P test (u ∷ us) h = elim (Bool-cases (test u)) [
  | inl e ↦ rw e (h.0, All-filter P test us h.1)
  | inr e ↦ rw e (All-filter P test us h.1)
]

pub filter-AreDistinct :
    (test : PodInfo → Bool) (us : List PodInfo) → AreDistinct us → AreDistinct (filter test us)
filter-AreDistinct test [] h = tt
filter-AreDistinct test (u ∷ us) h = elim (Bool-cases (test u)) [
  | inl e ↦ rw e (All-filter (Differs u) test us h.0, filter-AreDistinct test us h.1)
  | inr e ↦ rw e (filter-AreDistinct test us h.1)
]

Permᴰ-AreDistinct : {us vs : List PodInfo} → Permᴰ us vs → AreDistinct us → AreDistinct vs
Permᴰ-AreDistinct Permᴰ.nil h = tt
Permᴰ-AreDistinct (Permᴰ.cons e p) h = (rw (← e) (Permᴰ-All _ p h.0), Permᴰ-AreDistinct p h.1)
Permᴰ-AreDistinct (Permᴰ.swap {a = a} {b = b} {a' = a'} {b' = b'} {l = l} e f) h =
    subst (λ x. AreDistinct (a' ∷ x ∷ l)) e
      (subst (λ y. AreDistinct (y ∷ a ∷ l)) f ((λ q. h.0.0 (sym q), h.1.0), (h.0.1, h.1.1)))
Permᴰ-AreDistinct (Permᴰ.trans p q) h = Permᴰ-AreDistinct q (Permᴰ-AreDistinct p h)

module _ (F : Type 0) ⦃fl : Float64 F⦄ where
  pick_from-All {κ} :
      (P : PodInfo → Type κ) (needed acc : F) (cs : List PodInfo)
      → All P cs
      → All P (pick_from needed acc cs)
  unfolding pick_from
  pick_from-All P needed acc [] h = tt
  pick_from-All P needed acc (c ∷ cs) h =
      elim (Bool-cases (fl.le needed (fl.add acc (millis c.cpu_millis)))) [
        | inl e ↦ rw e (h.0, tt)
        | inr e ↦ rw e (h.0, pick_from-All P needed (fl.add acc (millis c.cpu_millis)) cs h.1)
      ]

  pick_from-AreDistinct :
      (needed acc : F) (cs : List PodInfo) → AreDistinct cs → AreDistinct (pick_from needed acc cs)
  unfolding pick_from
  pick_from-AreDistinct needed acc [] h = tt
  pick_from-AreDistinct needed acc (c ∷ cs) h =
      let acc' = fl.add acc (millis c.cpu_millis) in
      elim (Bool-cases (fl.le needed acc')) [
        | inl e ↦ rw e (tt, tt)
        | inr e ↦
            rw e (
              pick_from-All (Differs c) needed acc' cs h.0,
              pick_from-AreDistinct needed acc' cs h.1,
            )
      ]

  module _ (s : Sorter) (candidates : List PodInfo) (needed : F) where
    pub select-All {κ} :
        (P : PodInfo → Type κ)
        → All P candidates
        → All P (select_minimum_victims s candidates needed)
    unfolding select_minimum_victims
    select-All P h =
        pick_from-All P needed (fl.decimal 0 0) (s.sort victim_before candidates)
          (Permᴰ-All P (Permᴰ.symm (s.sort-perm victim_before candidates)) h)

    pub select-AreDistinct :
        AreDistinct candidates → AreDistinct (select_minimum_victims s candidates needed)
    unfolding select_minimum_victims
    select-AreDistinct h =
        pick_from-AreDistinct needed (fl.decimal 0 0) (s.sort victim_before candidates)
          (Permᴰ-AreDistinct (Permᴰ.symm (s.sort-perm victim_before candidates)) h)

-- Every entry stands under its own name.
abbrev pub AreKeyed : List (String × PodInfo) → Type 0
AreKeyed pods = (name : String) (v : PodInfo) → lookup name pods ≡ some v → v.name ≡ name

abbrev IsEntry : List (String × PodInfo) → PodInfo → Type 0
IsEntry pods v = (w : PodInfo) × (lookup v.name pods ≡ some w)

apart :
    (k name : String) (v w : PodInfo) (pods : List (String × PodInfo))
    → lookup k pods ≡ none
    → lookup name pods ≡ some w
    → lookup name ((k, v) ∷ pods) ≡ some w
unfolding lookup
apart k name v w pods free there = elim (Bool-cases (k == name)) [
  | inr miss ↦ rw miss there
  | inl hit ↦
      let here = subst (λ n. lookup n pods ≡ none) ((string_eq.equal_iff k name).0 hit) free in
      absurd (cc)
]

AreKeyed-tail :
    (k : String) (v : PodInfo) (pods : List (String × PodInfo))
    → lookup k pods ≡ none
    → AreKeyed ((k, v) ∷ pods)
    → AreKeyed pods
AreKeyed-tail k v pods free keyed name w there = keyed name w (apart k name v w pods free there)

-- The values of a map whose entries stand under their names are entries of different names.
pub values-AreDistinct :
    (pods : List (String × PodInfo))
    → IsMap pods
    → AreKeyed pods
    → All (IsEntry pods) (values pods) × AreDistinct (values pods)
unfolding values lookup
values-AreDistinct [] distinct keyed = (tt, tt)
values-AreDistinct ((k, v) ∷ pods) distinct keyed =
    let (entries, apart_all) =
      values-AreDistinct pods distinct.1 (AreKeyed-tail k v pods distinct.0 keyed) in
    let own : v.name ≡ k = keyed k v (rw (==_refl k) refl) in
    (
      (
        (v, rw (own, ==_refl k) refl),
        All-map (IsEntry pods) (IsEntry ((k, v) ∷ pods)) (values pods)
            (λ u there. (there.0, apart k u.name v there.0 pods distinct.0 there.1)) entries,
      ),
      (
        All-map (IsEntry pods) (Differs v) (values pods)
            (λ u there same.
              let here = subst (λ n. lookup n pods ≡ none) (sym own ∙ same) distinct.0 in
              let found = there.1 in cc (here, found))
            entries,
        apart_all,
      ),
    )
