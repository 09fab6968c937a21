-- ===== src/Prelude/Float.antt =====
-- Go's `float64`: the operations that the program uses, and the laws of the IEEE order that its
-- results rest on. Rounding is left open; NaN is the value that is not `<=` itself.
use Prim.Native.Nat.{ℕ, ◌+◌, ◌*◌, ◌/◌, ◌^◌}
use mathlib.Core.Path.{◌≡◌, refl}
use mathlib.Core.Logic.{◌⊎◌}
use mathlib.Core.Bool.{Bool, true, not}
use native.Mathlib.Omega.{arith}
use mc_kube.Prelude.Int.{ℤ, pos, negsuc, pos_part, neg_part, sub_ℕ, ◌+ℤ◌, ◌-ℤ◌, ltb_ℤ, leb_ℤ}

pub record Float64 (F : Type 0) : Type 0 where
  -- `float64(n)` and `int64(x)`
  pub of_int : ℤ → F
  pub to_int : F → ℤ
  -- The constant `m / 10^k`: `0.95` is `decimal 95 2`.
  pub decimal : ℕ → ℕ → F
  pub add : F → F → F
  pub sub : F → F → F
  pub mul : F → F → F
  pub div : F → F → F
  -- `x <= y` and `x < y`
  pub le : F → F → Bool
  pub lt : F → F → Bool

module _ {F : Type 0} ⦃fl : Float64 F⦄ where
  -- `float64(m) / 1000.0`
  abbrev pub millis : ℤ → F
  millis m = fl.div (fl.of_int m) (fl.decimal 1000 0)

  abbrev pub IsNumber : F → Type 0
  IsNumber x = fl.le x x ≡ true

-- What IEEE 754 says of comparisons away from NaN, and that a constant less a constant or an
-- integer share is never NaN.
pub record IsOrdered (F : Type 0) ⦃fl : Float64 F⦄ : Type 0 where
  pub le_trans : (x y z : F) → fl.le x y ≡ true → fl.le y z ≡ true → fl.le x z ≡ true
  pub le_total : (x y : F) → IsNumber x → IsNumber y → (fl.le x y ≡ true) ⊎ (fl.le y x ≡ true)
  pub lt-eq-not-le : (x y : F) → IsNumber x → IsNumber y → fl.lt x y ≡ not (fl.le y x)
  pub decimal_less_decimal : (m k n j : ℕ) → IsNumber (fl.sub (fl.decimal m k) (fl.decimal n j))
  pub decimal_less_millis : (m k : ℕ) (i : ℤ) → IsNumber (fl.sub (fl.decimal m k) (millis i))

-- The laws can be met: whole millionths, rounded down at each step.
abbrev pub Millionths : Type 0
Millionths = ℤ

abbrev pub unit : ℕ
unit = 1000000

abbrev pub scaled : (ℕ → ℕ) → ℤ → ℤ
scaled f (pos n) = pos (f n)
scaled f (negsuc n) = sub_ℕ 0 (f (n + 1))

abbrev pub negate : ℤ → ℤ
negate z = sub_ℕ (neg_part z) (pos_part z)

-- The sign of the second factor, put on the first.
abbrev pub signed_by : (ℕ → ℕ → ℕ) → ℤ → ℤ → ℤ
signed_by f x (pos n) = scaled (λ m. f m n) x
signed_by f x (negsuc n) = negate (scaled (λ m. f m (n + 1)) x)

instance abbrev pub millionths : Float64 Millionths
millionths = record {
  of_int = scaled (λ n. n * unit);
  to_int = scaled (λ n. n / unit);
  decimal = λ m k. pos (m * unit / 10 ^ k);
  add = ◌+ℤ◌;
  sub = ◌-ℤ◌;
  mul = signed_by (λ a b. a * b / unit);
  div = signed_by (λ a b. a * unit / b);
  le = leb_ℤ;
  lt = ltb_ℤ;
}

le_transitive : (x y z : ℤ) → leb_ℤ x y ≡ true → leb_ℤ y z ≡ true → leb_ℤ x z ≡ true
le_transitive x y z h k = ground arith

le_connex : (x y : ℤ) → (leb_ℤ x y ≡ true) ⊎ (leb_ℤ y x ≡ true)
le_connex x y = ground arith

lt_complement : (x y : ℤ) → ltb_ℤ x y ≡ not (leb_ℤ y x)
lt_complement x y = ground arith

le_reflexive : (x : ℤ) → leb_ℤ x x ≡ true
le_reflexive x = ground arith

pub Millionths-IsOrdered : IsOrdered Millionths
Millionths-IsOrdered = record {
  le_trans = le_transitive;
  le_total = λ x y _ _. le_connex x y;
  lt-eq-not-le = λ x y _ _. lt_complement x y;
  decimal_less_decimal =
      λ m k n j. le_reflexive (millionths.sub (millionths.decimal m k) (millionths.decimal n j));
  decimal_less_millis =
      λ m k i. le_reflexive (millionths.sub (millionths.decimal m k) (millis {F = Millionths} i));
}

share_left : ◌≡◌ {A = ℤ} (millionths.sub (millionths.decimal 95 2) (millis (pos 250))) (pos 700000)
unfolding ◌-ℤ◌
share_left = refl
