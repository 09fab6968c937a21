-- ===== src/Webhook/Validator/Settings.antt =====
-- internal/webhook/rt_validator.go: which settings validateRTSettings accepts, and which resource
-- findMcKubeForPod finds.
use mc_kube.Prelude.{
  ◌≡◌, ◌≢◌, sym, ap, subst, ◌↔◌, inl, inr, String, Bool, true, false, List, [], ◌∷◌, Option, none,
  some, is_some, string_eq, ◌==◌, pos, ◌≤ℤ◌, ◌<ℤ◌, arith, Bool-cases, ◌&&◌, Option-cases,
}
use mathlib.Core.List.{Memᴰ}
use mathlib.Core.List.Memᴰ
use text.Mathlib.TextEquality.{eq_iff}
use mc_kube.Prelude.Float.{Float64}
use mc_kube.Api.{RtSettings, Mckube}
use mc_kube.Webhook.Validator.{max_runtime, validate_rt_settings, find_in, is_empty_core}

is_empty_core_iff : (c : Option String) → (is_empty_core c ≡ true) ↔ (c ≡ some "")
is_empty_core_iff none = (λ e. absurd (cc), λ e. absurd (cc))
is_empty_core_iff (some c) = (
  λ e. ap some ((eq_iff c "").0 e),
  λ e. (eq_iff c "").1 (let f : ◌≡◌ {A = String} c "" = cc in f),
)

module _ (F : Type 0) ⦃fl : Float64 F⦄ where
  -- 0 < budget_lo <= budget_hi <= period, and budget_hi is within the capacity of a core.
  pub record AreValid (rt : RtSettings) : Type 0 where
    pub lo_positive : pos 0 <ℤ rt.runtime_low
    pub lo_below_hi : rt.runtime_low ≤ℤ rt.runtime_hi
    pub hi_below_period : rt.runtime_hi ≤ℤ rt.period
    pub hi_below_capacity : rt.runtime_hi ≤ℤ max_runtime F rt.period
    pub core_not_empty : rt.core ≢ some ""

  accepted-AreValid : (rt : RtSettings) → validate_rt_settings F rt ≡ none → AreValid rt
  unfolding validate_rt_settings
  accepted-AreValid rt h = record {
    lo_positive = ground (arith, h);
    lo_below_hi = ground (arith, h);
    hi_below_period = ground (arith, h);
    hi_below_capacity = ground (arith, h);
    core_not_empty = λ e. let full = (is_empty_core_iff rt.core).1 e in ground (arith, h, full);
  }

  valid-accepted : (rt : RtSettings) → AreValid rt → validate_rt_settings F rt ≡ none
  unfolding validate_rt_settings
  valid-accepted rt v = elim (Bool-cases (is_empty_core rt.core)) [
    | inl e ↦ absurd (v.core_not_empty ((is_empty_core_iff rt.core).0 e))
    | inr e ↦
        ground (arith, e, v.lo_positive, v.lo_below_hi, v.hi_below_period, v.hi_below_capacity)
  ]

  pub validate-AreValid_iff : (rt : RtSettings) → (validate_rt_settings F rt ≡ none) ↔ AreValid rt
  validate-AreValid_iff rt = (accepted-AreValid rt, valid-accepted rt)

is_match : String → Mckube → Bool
is_match name mc = (mc.spec.pod_name == name) && is_some mc.spec.rt_settings

-- The resource found stands in the list, names the pod and has settings.
pub find_in-some :
    (name : String) (items : List Mckube) (cr : Mckube)
    → find_in name items ≡ some cr
    → Memᴰ cr items × (cr.spec.pod_name ≡ name) × (is_some cr.spec.rt_settings ≡ true)
unfolding find_in is_match
find_in-some name [] cr h = absurd (cc)
find_in-some name (mc ∷ items) cr h = elim (Bool-cases (is_match name mc)) [
  | inl e ↦
      let same : mc ≡ cr = ground (arith, h, e) in
      let hit : (mc.spec.pod_name == name) ≡ true = ground (arith, e) in
      (
        Memᴰ.head (sym same),
        subst (λ (m : Mckube). m.spec.pod_name ≡ name) same ((eq_iff _ _).0 hit),
        subst (λ (m : Mckube). is_some m.spec.rt_settings ≡ true) same (ground (arith, e)),
      )
  | inr e ↦
      let (inside, named, has) = find_in-some name items cr (ground (arith, h, e)) in
      (Memᴰ.tail inside, named, has)
]

-- None is found only if no resource that names the pod has settings.
pub find_in-none :
    (name : String) (items : List Mckube) (m : Mckube)
    → find_in name items ≡ none
    → Memᴰ m items
    → m.spec.pod_name ≡ name
    → m.spec.rt_settings ≡ none
unfolding find_in is_match
find_in-none name [] m h k named = elim k [ ]
find_in-none name (mc ∷ items) m h k named = elim (Bool-cases (is_match name mc)) [
  | inl e ↦ absurd (ground (arith, h, e))
  | inr e ↦ elim (Memᴰ.cases_cons k) [
    | inl same ↦ elim (Option-cases m.spec.rt_settings) [
      | inl unset ↦ unset
      | inr (rt, set) ↦
          let hit : (m.spec.pod_name == name) ≡ true = (eq_iff _ _).1 named in
          let miss : is_match name m ≡ false = subst (λ c. is_match name c ≡ false) (sym same) e in
          absurd (ground (arith, hit, set, miss))
    ]
    | inr later ↦ find_in-none name items m (ground (arith, h, e)) later named
  ]
]
