-- ===== src/Ipvs/Tiers/Sorted.antt =====
-- internal/ipvs/event_handler.go: CollectSortedTiers lists the tiers of the pods in ascending order.
use mc_kube.Prelude.{
  ℕ, zero, suc, ◌≤◌, ◌≡◌, refl, sym, ap, subst, ◌∙◌, ◌⊎◌, ◌↔◌, inl, inr, String, Bool, true, List,
  [], ◌∷◌, some, insert, keys, string_eq, ◌==◌, ltb, length, All, arith, Bool-cases, Option-cases,
  if◌then◌else◌,
}
use mathlib.Core.List.{Memᴰ, Permᴰ}
use mathlib.Core.List.Memᴰ
use mathlib.Core.List.Permᴰ
use text.Mathlib.TextEquality.{eq_iff}
use mc_kube.Prelude.Sort.{Permᴰ-All, Permᴰ-Memᴰ}
use mc_kube.Ipvs.{Pod, RealTimeData}
use mc_kube.Ipvs.Tiers.{rank_of, tier_of, seen_tiers, exchange, sort_from, collect_sorted_tiers}

abbrev AreAtLeast : String → List String → Type 0
AreAtLeast first tiers = All (λ t. rank_of first ≤ rank_of t) tiers

-- Each tier ranks at most as high as the ones behind it.
abbrev pub IsAscending : List String → Type 0
IsAscending [] = Unit
IsAscending (t ∷ tiers) = All (λ u. rank_of t ≤ rank_of u) tiers × IsAscending tiers

exchange-perm :
    (x : String) (ys : List String) → Permᴰ ((exchange x ys).0 ∷ (exchange x ys).1) (x ∷ ys)
unfolding exchange
exchange-perm x [] = Permᴰ.refl (x ∷ [])
exchange-perm x (y ∷ ys) = elim (Bool-cases (ltb (rank_of y) (rank_of x))) [
  | inl e ↦ rw e (Permᴰ.trans (Permᴰ.swap refl refl) (Permᴰ.cons refl (exchange-perm y ys)))
  | inr e ↦ rw e (
      Permᴰ.trans (Permᴰ.swap refl refl)
        (Permᴰ.trans (Permᴰ.cons refl (exchange-perm x ys)) (Permᴰ.swap refl refl)))
]

-- The first of the pair ranks at most as high as the entry it was exchanged for, and as the rest.
abbrev IsLowest : String → String × List String → Type 0
IsLowest x r = (rank_of r.0 ≤ rank_of x) × AreAtLeast r.0 r.1

exchange-IsLowest : (x : String) (ys : List String) → IsLowest x (exchange x ys)
unfolding exchange
exchange-IsLowest x [] = (omega arith, tt)
exchange-IsLowest x (y ∷ ys) = elim (Bool-cases (ltb (rank_of y) (rank_of x))) [
  | inl e ↦
      let (low, rest) = exchange-IsLowest y ys in
      let stepped : ((exchange y ys).0, x ∷ (exchange y ys).1) ≡ exchange x (y ∷ ys) =
        rw (e, exchange) refl in
      subst (IsLowest x) stepped (ground (arith, e, low), (ground (arith, e, low), rest))
  | inr e ↦
      let (low, rest) = exchange-IsLowest x ys in
      let stepped : ((exchange x ys).0, y ∷ (exchange x ys).1) ≡ exchange x (y ∷ ys) =
        rw (e, exchange) refl in
      subst (IsLowest x) stepped (low, (ground (arith, e, low), rest))
]

exchange-length : (x : String) (ys : List String) → length (exchange x ys).1 ≡ length ys
unfolding exchange
exchange-length x [] = refl
exchange-length x (y ∷ ys) =
    ap suc (exchange-length (if ltb (rank_of y) (rank_of x) then y else x) ys)

sort_from_lem :
    (n : ℕ) (tiers : List String)
    → length tiers ≤ n
    → Permᴰ (sort_from n tiers) tiers × IsAscending (sort_from n tiers)
unfolding sort_from
sort_from_lem zero [] h = (Permᴰ.nil, tt)
sort_from_lem zero (x ∷ xs) h = absurd (ground (arith, h))
sort_from_lem (suc n) [] h = (Permᴰ.nil, tt)
sort_from_lem (suc n) (x ∷ xs) h =
    let (perm, sorted) =
      sort_from_lem n (exchange x xs).1 (ground (arith, h, exchange-length x xs)) in
    (
      Permᴰ.trans (Permᴰ.cons refl perm) (exchange-perm x xs),
      (
        Permᴰ-All (λ t. rank_of (exchange x xs).0 ≤ rank_of t) (Permᴰ.symm perm)
            (exchange-IsLowest x xs).1,
        sorted,
      ),
    )

Memᴰ-keys-insert :
    (c k : String) (v : Bool) (m : List (String × Bool))
    → Memᴰ c (keys (insert k v m)) ↔ ((c ≡ k) ⊎ Memᴰ c (keys m))
unfolding insert
Memᴰ-keys-insert c k v [] = (
  λ m. elim (Memᴰ.cases_cons m) [ inl e ↦ inl e | inr t ↦ inr t ],
  λ s. elim s [ inl e ↦ Memᴰ.head e | inr t ↦ Memᴰ.tail t ],
)
Memᴰ-keys-insert c k v ((j, w) ∷ m) = elim (Bool-cases (j == k)) [
  | inl hit ↦
      let same : j ≡ k = (eq_iff j k).0 hit in
      rw hit (
        λ r. elim (Memᴰ.cases_cons r) [ inl e ↦ inl e | inr t ↦ inr (Memᴰ.tail t) ],
        λ r. elim r [
          | inl e ↦ Memᴰ.head e
          | inr t ↦ elim (Memᴰ.cases_cons t) [ inl e ↦ Memᴰ.head (e ∙ same) | inr u ↦ Memᴰ.tail u ]
        ],
      )
  | inr miss ↦
      let ih = Memᴰ-keys-insert c k v m in
      rw miss (
        λ r. elim (Memᴰ.cases_cons r) [
          | inl e ↦ inr (Memᴰ.head e)
          | inr t ↦ elim (ih.0 t) [ inl e ↦ inl e | inr u ↦ inr (Memᴰ.tail u) ]
        ],
        λ r. elim r [
          | inl e ↦ Memᴰ.tail (ih.1 (inl e))
          | inr t ↦ elim (Memᴰ.cases_cons t) [
            | inl e ↦ Memᴰ.head e
            | inr u ↦ Memᴰ.tail (ih.1 (inr u))
          ]
        ],
      )
]

Memᴰ-seen_tiers :
    (rt_data : List (String × RealTimeData)) (pods : List Pod) (seen : List (String × Bool))
    (c : String)
    → Memᴰ c (keys (seen_tiers rt_data pods seen))
      ↔ (Memᴰ c (keys seen) ⊎ ((p : Pod) × Memᴰ p pods × (tier_of rt_data p ≡ some c)))
unfolding seen_tiers
Memᴰ-seen_tiers rt_data [] seen c =
    (inl, λ r. elim r [ inl m ↦ m | inr (q, k, _) ↦ absurd (Memᴰ.not-nil k) ])
Memᴰ-seen_tiers rt_data (p ∷ pods) seen c = elim (Option-cases (tier_of rt_data p)) [
  | inl e ↦
      let ih = Memᴰ-seen_tiers rt_data pods seen c in
      rw (e, seen_tiers)
        (
          λ m. elim (ih.0 m) [ inl s ↦ inl s | inr (q, k, t) ↦ inr (q, Memᴰ.tail k, t) ],
          λ r. elim r [
            | inl s ↦ ih.1 (inl s)
            | inr (q, k, t) ↦ elim (Memᴰ.cases_cons k) [
              | inl same ↦
                  let u : tier_of rt_data p ≡ some c =
                    subst (λ v. tier_of rt_data v ≡ some c) same t in
                  absurd (cc)
              | inr k' ↦ ih.1 (inr (q, k', t))
            ]
          ],
        )
  | inr (d, e) ↦
      let ih = Memᴰ-seen_tiers rt_data pods (insert d true seen) c in
      let added = Memᴰ-keys-insert c d true seen in
      rw (e, seen_tiers)
        (
          λ m. elim (ih.0 m) [
            | inl s ↦ elim (added.0 s) [
              | inl is_d ↦ inr (p, Memᴰ.head refl, e ∙ ap some (sym is_d))
              | inr old ↦ inl old
            ]
            | inr (q, k, t) ↦ inr (q, Memᴰ.tail k, t)
          ],
          λ r. elim r [
            | inl s ↦ ih.1 (inl (added.1 (inr s)))
            | inr (q, k, t) ↦ elim (Memᴰ.cases_cons k) [
              | inl same ↦
                  let u : tier_of rt_data p ≡ some c =
                    subst (λ v. tier_of rt_data v ≡ some c) same t in
                  let is_d : c ≡ d = cc in ih.1 (inl (added.1 (inl is_d)))
              | inr k' ↦ ih.1 (inr (q, k', t))
            ]
          ],
        )
]

-- CollectSortedTiers lists the tiers in ascending order of criticality, and a tier is listed exactly
-- if the app of some pod has this criticality and it is a known one.
pub collect_sorted_tiers_lem :
    (pods : List Pod) (rt_data : List (String × RealTimeData))
    → IsAscending (collect_sorted_tiers pods rt_data)
      × ((c : String)
          → Memᴰ c (collect_sorted_tiers pods rt_data)
            ↔ ((p : Pod) × Memᴰ p pods × (tier_of rt_data p ≡ some c)))
unfolding collect_sorted_tiers
collect_sorted_tiers_lem pods rt_data =
    let tiers = keys (seen_tiers rt_data pods []) in
    let (perm, sorted) = sort_from_lem (length tiers) tiers (omega arith) in
    (
      sorted,
      λ c. (
        λ m. elim ((Memᴰ-seen_tiers rt_data pods [] c).0 (Permᴰ-Memᴰ c perm m)) [
          | inl none_yet ↦ absurd (Memᴰ.not-nil none_yet)
          | inr of_pod ↦ of_pod
        ],
        λ of_pod.
            Permᴰ-Memᴰ c (Permᴰ.symm perm) ((Memᴰ-seen_tiers rt_data pods [] c).1 (inr of_pod)),
      ),
    )
