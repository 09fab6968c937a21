-- ===== src/Controller/Expiry.antt =====
-- internal/controller/mckube_controller.go: dropping expired marks of throttled victims is not seen.
use mc_kube.Prelude.{
  ◌≡◌, refl, sym, ap, subst, ◌∙◌, inl, inr, String, Bool, true, false, List, [], ◌∷◌, Option, none,
  some, lookup, IsMap, string_eq, ◌==◌, ℤ, ◌-ℤ◌, ltb_ℤ, leb_ℤ, -ℤ_parts, arith, Bool-cases,
  Option-cases,
}
use text.Mathlib.TextEquality.{eq_iff}
use mc_kube.Controller.Throttle.{
  throttled_victim_ttl, cleanup_expired_throttled_victims, is_victim_throttled,
}

-- What is_victim_throttled makes of an entry.
abbrev within : ℤ → Option ℤ → Bool
within now none = false
within now (some at_time) = leb_ℤ (now -ℤ at_time) throttled_victim_ttl

expired-within :
    (now at_time : ℤ)
    → ltb_ℤ at_time (now -ℤ throttled_victim_ttl) ≡ true
    → leb_ℤ (now -ℤ at_time) throttled_victim_ttl ≡ false
expired-within now at_time h =
    ground (arith, h, -ℤ_parts now at_time, -ℤ_parts now throttled_victim_ttl)

lookup-cleanup_none :
    (now : ℤ) (uid : String) (victims : List (String × ℤ))
    → lookup uid victims ≡ none
    → lookup uid (cleanup_expired_throttled_victims now victims) ≡ none
unfolding cleanup_expired_throttled_victims lookup
lookup-cleanup_none now uid [] h = refl
lookup-cleanup_none now uid ((u, t) ∷ victims) h = elim (Bool-cases (u == uid)) [
  | inl hit ↦ absurd (ground (arith, h, hit))
  | inr miss ↦
      let rest = lookup-cleanup_none now uid victims (ground (arith, h, miss)) in
      elim (Bool-cases (ltb_ℤ t (now -ℤ throttled_victim_ttl))) [
        | inl old ↦ rw old rest
        | inr new ↦ rw (new, miss) rest
      ]
]

within-cleanup :
    (now : ℤ) (uid : String) (victims : List (String × ℤ))
    → IsMap victims
    → within now (lookup uid (cleanup_expired_throttled_victims now victims))
      ≡ within now (lookup uid victims)
unfolding cleanup_expired_throttled_victims lookup
within-cleanup now uid [] h = refl
within-cleanup now uid ((u, t) ∷ victims) h =
    elim (Bool-cases (ltb_ℤ t (now -ℤ throttled_victim_ttl))) [
      | inr new ↦ elim (Bool-cases (u == uid)) [
        | inl hit ↦ rw (new, hit) refl
        | inr miss ↦ rw (new, miss) (within-cleanup now uid victims h.1)
      ]
      | inl old ↦ elim (Bool-cases (u == uid)) [
        | inr miss ↦ rw (old, miss) (within-cleanup now uid victims h.1)
        | inl hit ↦
            let same : u ≡ uid = (eq_iff u uid).0 hit in
            let gone =
              lookup-cleanup_none now uid victims (subst (λ v. lookup v victims ≡ none) same h.0) in
            rw (old, hit) (ap (within now) gone ∙ sym (expired-within now t old))
      ]
    ]

is_victim_throttled-within :
    (now : ℤ) (uid : String) (victims : List (String × ℤ))
    → is_victim_throttled now uid victims ≡ within now (lookup uid victims)
unfolding is_victim_throttled
is_victim_throttled-within now uid victims = elim (Option-cases (lookup uid victims)) [
  | inl e ↦ rw (e, is_victim_throttled) refl
  | inr (t, e) ↦ rw (e, is_victim_throttled) refl
]

-- Dropping the expired marks changes no answer of isVictimThrottled at that time, if no pod is
-- marked twice.
pub is_victim_throttled-cleanup :
    (now : ℤ) (uid : String) (victims : List (String × ℤ))
    → IsMap victims
    → is_victim_throttled now uid (cleanup_expired_throttled_victims now victims)
      ≡ is_victim_throttled now uid victims
is_victim_throttled-cleanup now uid victims h =
    is_victim_throttled-within now uid (cleanup_expired_throttled_victims now victims)
    ∙ within-cleanup now uid victims h
    ∙ sym (is_victim_throttled-within now uid victims)
