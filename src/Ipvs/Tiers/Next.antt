-- ===== src/Ipvs/Tiers/Next.antt =====
-- internal/ipvs/event_handler.go: NextHigherTier gives the lowest tier above the current one.
use mc_kube.Prelude.{
  ℕ, ◌≤◌, ◌<◌, ◌^◌, ◌≡◌, refl, sym, subst, ◌⊎◌, inl, inr, String, ◌&&◌, List, [], ◌∷◌, none, some,
  string_eq, ◌==◌, ltb, All, arith, Bool-cases, Option-cases, lookup,
}
use mathlib.Core.List.{Memᴰ}
use text.Mathlib.TextEquality.{eq_iff}
use mc_kube.Ipvs.{tier_rank}
use mc_kube.Ipvs.Tiers.{next_from, next_higher_tier}

-- No tier of the list between the rank and the bound.
abbrev pub AreOutside : ℕ → ℕ → List String → Type 0
AreOutside low high tiers = All (λ t. (q : ℕ) → tier_rank t ≡ some q → low < q → high ≤ q) tiers

-- The tier stands in the list, above the rank, and no other does between the two.
abbrev pub IsLowestAbove : ℕ → List String → String → Type 0
IsLowestAbove low tiers t =
    (q : ℕ) × (tier_rank t ≡ some q) × (low < q) × Memᴰ t tiers × AreOutside low q tiers

pub tier_rank_bound : (c : String) (q : ℕ) → tier_rank c ≡ some q → q ≤ 2
unfolding tier_rank lookup
tier_rank_bound c q h = ground (arith, h)

next_from_lem :
    (low best_rank : ℕ) (best : String) (tiers : List String)
    → ((next_from low best_rank best tiers ≡ best) × AreOutside low best_rank tiers)
      ⊎ ((q : ℕ) × (q < best_rank)
          × (tier_rank (next_from low best_rank best tiers) ≡ some q)
          × (low < q)
          × Memᴰ (next_from low best_rank best tiers) tiers
          × AreOutside low q tiers)
unfolding next_from
next_from_lem low best_rank best [] = inl (refl, tt)
next_from_lem low best_rank best (t ∷ tiers) = elim (Option-cases (tier_rank t)) [
  | inl e ↦
      rw (e, next_from)
        (elim (next_from_lem low best_rank best tiers) [
          | inl (same, out) ↦ inl (same, (λ q k _. absurd (ground (arith, e, k)), out))
          | inr (q, below, ranked, above, m, out) ↦
              inr (
                q,
                below,
                ranked,
                above,
                Memᴰ.tail m,
                (λ k f _. absurd (ground (arith, e, f)), out),
              )
        ])
  | inr (r, e) ↦ elim (Bool-cases (ltb low r && ltb r best_rank)) [
    | inl better ↦
        rw (e, next_from, better)
          (elim (next_from_lem low r t tiers) [
            | inl (same, out) ↦ inr (
              r,
              ground (arith, better),
              subst (λ c. tier_rank c ≡ some r) (sym same) e,
              ground (arith, better),
              Memᴰ.head same,
              (λ k f _. ground (arith, e, f), out),
            )
            | inr (q, below, ranked, above, m, out) ↦ inr (
              q,
              ground (arith, better, below),
              ranked,
              above,
              Memᴰ.tail m,
              (λ k f _. ground (arith, e, f, below), out),
            )
          ])
    | inr worse ↦
        rw (e, next_from, worse)
          (elim (next_from_lem low best_rank best tiers) [
            | inl (same, out) ↦ inl (same, (λ q k up. ground (arith, worse, e, k, up), out))
            | inr (q, below, ranked, above, m, out) ↦ inr (
              q,
              below,
              ranked,
              above,
              Memᴰ.tail m,
              (λ k f up. ground (arith, worse, e, f, up, below), out),
            )
          ])
  ]
]

blank_unranked : tier_rank "" ≡ none
unfolding tier_rank lookup
blank_unranked = refl

-- The current tier has no rank, or no tier of the list is above it.
abbrev pub IsTop : String → List String → Type 0
IsTop cur tiers = (low : ℕ) → tier_rank cur ≡ some low → AreOutside low (2 ^ 30) tiers

-- NextHigherTier gives nothing exactly where the current tier has no rank or no tier of the list
-- ranks above it; otherwise it gives a tier of the list of the lowest rank above the current one.
pub next_higher_tier_lem :
    (cur : String) (tiers : List String)
    → ((next_higher_tier cur tiers ≡ none) × IsTop cur tiers)
      ⊎ ((low : ℕ) × (t : String) × (tier_rank cur ≡ some low)
          × (next_higher_tier cur tiers ≡ some t)
          × IsLowestAbove low tiers t)
unfolding next_higher_tier
next_higher_tier_lem cur tiers = elim (Option-cases (tier_rank cur)) [
  | inl e ↦ inl (rw (e, next_higher_tier) refl, λ low f. absurd (ground (arith, e, f)))
  | inr (low, e) ↦ elim (next_from_lem low (2 ^ 30) "" tiers) [
    | inl (same, out) ↦ inl (
      rw (e, next_higher_tier, same) refl,
      λ k f.
          let low_k : low ≡ k = ground (arith, e, f) in
          subst (λ l. AreOutside l (2 ^ 30) tiers) low_k out,
    )
    | inr (q, below, ranked, above, m, out) ↦
        let t = next_from low (2 ^ 30) "" tiers in
        elim (Bool-cases (t == "")) [
          | inl blank ↦
              let unranked : tier_rank t ≡ none =
                subst (λ c. tier_rank c ≡ none) (sym ((eq_iff t "").0 blank)) blank_unranked in
              absurd (ground (arith, ranked, unranked))
          | inr named ↦
              inr (low, t, e, rw (e, next_higher_tier, named) refl, (q, ranked, above, m, out))
        ]
  ]
]
