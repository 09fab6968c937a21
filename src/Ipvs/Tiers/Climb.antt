-- ===== src/Ipvs/Tiers/Climb.antt =====
-- internal/ipvs/event_handler.go: a step to the next tier climbs, and three tiers are all there is.
use mc_kube.Prelude.{
  ℕ, ◌≤◌, ◌<◌, ◌≡◌, subst, inl, inr, String, List, some, arith, Option-cases, string_eq,
}
use mc_kube.Ipvs.{tier_rank}
use mc_kube.Ipvs.Tiers.{next_higher_tier, rank_of}
use mc_kube.Ipvs.Tiers.Next.{tier_rank_bound, next_higher_tier_lem}

rank_of-some : (c : String) (q : ℕ) → tier_rank c ≡ some q → rank_of c ≡ q
rank_of-some c q h = ground (arith, h)

pub rank_of-bound : (c : String) → rank_of c ≤ 2
rank_of-bound c = elim (Option-cases (tier_rank c)) [
  | inl e ↦ ground (arith, e)
  | inr (q, e) ↦ ground (arith, e, tier_rank_bound c q e)
]

-- The next tier ranks above the current one.
pub next_higher_tier-climbs :
    (cur t : String) (tiers : List String)
    → next_higher_tier cur tiers ≡ some t
    → rank_of cur < rank_of t
next_higher_tier-climbs cur t tiers h = elim (next_higher_tier_lem cur tiers) [
  | inl (nothing, _) ↦ absurd (ground (arith, h, nothing))
  | inr (low, u, e, f, (q, ranked, above, _, _)) ↦
      let same : u ≡ t = ground (arith, h, f) in
      let ranked_t : tier_rank t ≡ some q = subst (λ c. tier_rank c ≡ some q) same ranked in
      ground (arith, rank_of-some cur low e, rank_of-some t q ranked_t, above)
]
