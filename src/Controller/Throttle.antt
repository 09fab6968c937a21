-- ===== src/Controller/Throttle.antt =====
-- internal/controller/mckube_controller.go: the marks of throttled victims, in nanoseconds.
use mc_kube.Prelude.{
  String, Bool, false, not, List, none, some, lookup, insert, filter, string_eq, ℤ, pos, ◌-ℤ◌,
  ltb_ℤ, leb_ℤ,
}

-- `30 * time.Second`
abbrev pub throttled_victim_ttl : ℤ
throttled_victim_ttl = pos 30000000000

unfoldable pub cleanup_expired_throttled_victims : ℤ → List (String × ℤ) → List (String × ℤ)
cleanup_expired_throttled_victims now victims =
    filter (λ entry. not (ltb_ℤ entry.1 (now -ℤ throttled_victim_ttl))) victims

unfoldable pub mark_throttled_victim : String → ℤ → List (String × ℤ) → List (String × ℤ)
mark_throttled_victim uid throttled_at victims = insert uid throttled_at victims

unfoldable pub is_victim_throttled : ℤ → String → List (String × ℤ) → Bool
is_victim_throttled now uid victims = elim (lookup uid victims) [
  | none ↦ false
  | some throttled_at ↦ leb_ℤ (now -ℤ throttled_at) throttled_victim_ttl
]
