-- ===== src/Ipvs/Tiers.antt =====
-- internal/ipvs/event_handler.go: the tiers of a node, by criticality.
pub mod Next
pub mod Climb
pub mod Sorted
use mc_kube.Prelude.{
  ℕ, zero, suc, ◌+◌, ◌^◌, String, Bool, true, false, ◌&&◌, List, [], ◌∷◌, Option, none, some,
  is_some, lookup, insert, keys, string_eq, ◌==◌, ltb, length, if◌then◌else◌,
}
use mc_kube.Ipvs.{Pod, RealTimeData, NodePressureState, tier_rank, app_of}

-- The criticality that a pod adds to `seen`, if any.
unfoldable pub tier_of : List (String × RealTimeData) → Pod → Option String
unfolding tier_rank
tier_of rt_data p = if app_of p == "" then none else elim (lookup (app_of p) rt_data) [
  | none ↦ none
  | some rt ↦ if is_some (tier_rank rt.criticality) then some rt.criticality else none
]

unfoldable pub seen_tiers :
    List (String × RealTimeData) → List Pod → List (String × Bool) → List (String × Bool)
seen_tiers rt_data [] seen = seen
seen_tiers rt_data (p ∷ pods) seen = elim (tier_of rt_data p) [
  | none ↦ seen_tiers rt_data pods seen
  | some c ↦ seen_tiers rt_data pods (insert c true seen)
]

abbrev pub rank_or_zero : Option ℕ → ℕ
rank_or_zero none = 0
rank_or_zero (some r) = r

abbrev pub rank_of : String → ℕ
rank_of c = rank_or_zero (tier_rank c)

-- One round of the inner loop: `tiers[i]` against each later entry, exchanged where that is lower.
unfoldable pub exchange : String → List String → String × List String
exchange x [] = (x, [])
exchange x (y ∷ ys) =
    let lower = ltb (rank_of y) (rank_of x) in
    let (first, rest) = exchange (if lower then y else x) ys in
    (first, (if lower then x else y) ∷ rest)

-- The outer loop, with the number of entries left.
unfoldable pub sort_from : ℕ → List String → List String
unfolding exchange
sort_from zero tiers = tiers
sort_from (suc n) [] = []
sort_from (suc n) (x ∷ xs) = let (first, rest) = exchange x xs in first ∷ sort_from n rest

unfoldable pub collect_sorted_tiers : List Pod → List (String × RealTimeData) → List String
unfolding tier_of seen_tiers sort_from
collect_sorted_tiers pods rt_data =
    let tiers = keys (seen_tiers rt_data pods []) in sort_from (length tiers) tiers

-- The index of a tier, from `i` on.
unfoldable pub index_from : ℕ → String → List String → Option ℕ
index_from i tier [] = none
index_from i tier (t ∷ tiers) = if t == tier then some i else index_from (i + 1) tier tiers

unfoldable pub reindex_current_tier : NodePressureState → NodePressureState
unfolding index_from
reindex_current_tier state = elim state.tiers [
  | [] ↦ record state { current_tier = ""; current_tier_idx = 0 }
  | first ∷ rest ↦ elim (index_from 0 state.current_tier (first ∷ rest)) [
    | some i ↦ record state { current_tier_idx = i }
    | none ↦ record state { current_tier_idx = 0; current_tier = first }
  ]
]

-- The loop of NextHigherTier over `bestRank` and `best`.
unfoldable pub next_from : ℕ → ℕ → String → List String → String
unfolding tier_rank
next_from cur_rank best_rank best [] = best
next_from cur_rank best_rank best (t ∷ tiers) = elim (tier_rank t) [
  | none ↦ next_from cur_rank best_rank best tiers
  | some r ↦
      let better = ltb cur_rank r && ltb r best_rank in
      next_from cur_rank (if better then r else best_rank) (if better then t else best) tiers
]

unfoldable pub next_higher_tier : String → List String → Option String
unfolding tier_rank next_from
next_higher_tier cur tiers = elim (tier_rank cur) [
  | none ↦ none
  | some cur_rank ↦
      let best = next_from cur_rank (2 ^ 30) "" tiers in if best == "" then none else some best
]
