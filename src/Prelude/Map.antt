-- ===== src/Prelude/Map.antt =====
-- Go maps as association lists. The order of a list stands for one order of iteration.
use mathlib.Core.Path.{◌≡◌, refl}
use mathlib.Core.Logic.{◌≢◌, inl, inr}
use mathlib.Core.Option.{Option, none, some}
use mathlib.Core.List.{List, [], ◌∷◌}
use native.Mathlib.Omega.{arith}
use mc_kube.Prelude.Tests.{if◌then◌else◌, Bool-cases}
use mc_kube.Prelude.Keys.{Comparable, ◌==◌, ==_refl}

module _ {ℓ κ} {K : Type ℓ} {V : Type κ} ⦃e : Comparable K⦄ where
  -- `v, ok := m[k]`
  unfoldable pub lookup : K → List (K × V) → Option V
  lookup key [] = none
  lookup key ((here, v) ∷ dict) = if here == key then some v else lookup key dict

  -- `m[k] = v`
  unfoldable pub insert : K → V → List (K × V) → List (K × V)
  insert key v [] = (key, v) ∷ []
  insert key v ((here, w) ∷ dict) =
      if here == key then (key, v) ∷ dict else (here, w) ∷ insert key v dict

  -- `delete(m, k)`
  unfoldable pub delete : K → List (K × V) → List (K × V)
  delete key [] = []
  delete key ((here, w) ∷ dict) = if here == key then dict else (here, w) ∷ delete key dict

  -- No key stands twice.
  abbrev pub IsMap : List (K × V) → Type κ
  IsMap [] = Unit
  IsMap ((key, v) ∷ dict) = (lookup key dict ≡ none) × IsMap dict

  pub lookup-insert :
      (key here : K) (v : V) (dict : List (K × V))
      → lookup here (insert key v dict) ≡ (if key == here then some v else lookup here dict)
  unfolding lookup insert
  lookup-insert key here v [] = refl
  lookup-insert key here v ((i, w) ∷ dict) = ground (
    arith,
    e.equal_iff key here,
    e.equal_iff i key,
    e.equal_iff i here,
    lookup-insert key here v dict,
  )

  pub lookup-delete_ne :
      (key here : K) (dict : List (K × V))
      → key ≢ here
      → lookup here (delete key dict) ≡ lookup here dict
  unfolding lookup delete
  lookup-delete_ne key here [] h = refl
  lookup-delete_ne key here ((i, w) ∷ dict) h =
      ground (arith, e.equal_iff i key, e.equal_iff i here, lookup-delete_ne key here dict h)

  pub lookup-delete_self :
      (key : K) (dict : List (K × V)) → IsMap dict → lookup key (delete key dict) ≡ none
  unfolding lookup delete
  lookup-delete_self key [] h = refl
  lookup-delete_self key ((i, w) ∷ dict) h =
      ground (arith, e.equal_iff i key, lookup-delete_self key dict h.1)

  pub insert-IsMap :
      (key : K) (v : V) (dict : List (K × V)) → IsMap dict → IsMap (insert key v dict)
  unfolding lookup insert
  insert-IsMap key v [] h = (refl, tt)
  insert-IsMap key v ((i, w) ∷ dict) h = elim (Bool-cases (i == key)) [
    | inl hit ↦ rw hit (rw (← (e.equal_iff i key).0 hit) h.0, h.1)
    | inr miss ↦ rw miss (
      ground (arith, lookup-insert key i v dict, e.equal_iff key i, e.equal_iff i key),
      insert-IsMap key v dict h.1,
    )
  ]

  pub delete-IsMap : (key : K) (dict : List (K × V)) → IsMap dict → IsMap (delete key dict)
  unfolding lookup delete
  delete-IsMap key [] h = tt
  delete-IsMap key ((i, w) ∷ dict) h = elim (Bool-cases (i == key)) [
    | inl hit ↦ rw hit h.1
    | inr miss ↦ rw miss (
      ground (arith, lookup-delete_ne key i dict, e.equal_iff i key, e.equal_iff key i, ==_refl i),
      delete-IsMap key dict h.1,
    )
  ]

  abbrev pub AllValues {ι} : (V → Type ι) → List (K × V) → Type ι
  AllValues P [] = Unit
  AllValues P ((key, v) ∷ dict) = P v × AllValues P dict

  pub lookup-AllValues {ι} :
      (P : V → Type ι) (key : K) (v : V) (dict : List (K × V))
      → AllValues P dict
      → lookup key dict ≡ some v
      → P v
  unfolding lookup
  lookup-AllValues P key v [] h f = absurd (cc)
  lookup-AllValues P key v ((i, w) ∷ dict) h f = elim (Bool-cases (i == key)) [
    | inl hit ↦ let e : w ≡ v = ground (arith, hit, f) in rw (← e) h.0
    | inr miss ↦ lookup-AllValues P key v dict h.1 (ground (arith, miss, f))
  ]

  pub insert-AllValues {ι} :
      (P : V → Type ι) (key : K) (v : V) (dict : List (K × V))
      → AllValues P dict
      → P v
      → AllValues P (insert key v dict)
  unfolding insert
  insert-AllValues P key v [] h p = (p, tt)
  insert-AllValues P key v ((i, w) ∷ dict) h p = elim (Bool-cases (i == key)) [
    | inl hit ↦ rw hit (p, h.1)
    | inr miss ↦ rw miss (h.0, insert-AllValues P key v dict h.1 p)
  ]

  abbrev pub keys : List (K × V) → List K
  keys [] = []
  keys ((key, v) ∷ dict) = key ∷ keys dict

  lookup-keys :
      (key : K) (dict n : List (K × V))
      → keys dict ≡ keys n
      → lookup key dict ≡ none
      → lookup key n ≡ none
  unfolding lookup
  lookup-keys key [] [] s h = refl
  lookup-keys key [] (y ∷ n) s h = absurd (cc)
  lookup-keys key (x ∷ dict) [] s h = absurd (cc)
  lookup-keys key ((i, v) ∷ dict) ((here, w) ∷ n) s h = ground (arith, lookup-keys key dict n)

  -- Changing the values alone keeps the keys distinct.
  pub IsMap-keys : (dict n : List (K × V)) → keys dict ≡ keys n → IsMap dict → IsMap n
  IsMap-keys [] [] s h = tt
  IsMap-keys [] (y ∷ n) s h = absurd (cc)
  IsMap-keys (x ∷ dict) [] s h = absurd (cc)
  IsMap-keys ((i, v) ∷ dict) ((here, w) ∷ n) s h =
      let same : i ≡ here = ground (arith, s) in
      let rest : keys dict ≡ keys n = ground (arith, s) in
      (rw (← same) (lookup-keys i dict n rest h.0), IsMap-keys dict n rest h.1)

  pub lookup-insert_self :
      (key : K) (v : V) (dict : List (K × V)) → lookup key (insert key v dict) ≡ some v
  lookup-insert_self key v dict = rw (lookup-insert key key v dict, ==_refl key)
