-- ===== src/Prelude/Int.antt =====
-- Go's `int` and `int64`: integers over the native numbers, with the wrap-around of 64-bit sums.
use Prim.Native.Nat.{ℕ, suc, ◌+◌, ◌-◌, ◌%◌, ◌≤◌, ◌<◌}
use mathlib.Core.Path.{◌≡◌, ap}
use mathlib.Core.Logic.{◌↔◌}
use mathlib.Core.Bool.{Bool, true}
use native.Mathlib.Omega.{arith}
use mc_kube.Prelude.Tests.{ltb, leb, nat_beq, if◌then◌else◌}
use mc_kube.Prelude.Keys.{Comparable}

-- `negsuc n` is -(n + 1).
pub data ℤ : Type 0 where
  pos : ℕ → ℤ
  negsuc : ℕ → ℤ

abbrev pub pos_part : ℤ → ℕ
pos_part (pos n) = n
pos_part (negsuc n) = 0

abbrev pub neg_part : ℤ → ℕ
neg_part (pos n) = 0
neg_part (negsuc n) = suc n

-- a - b, as an integer.
abbrev pub sub_ℕ : ℕ → ℕ → ℤ
sub_ℕ a b = if leb b a then pos (a - b) else negsuc (b - a - 1)

infixl 65 ◌+ℤ◌ ◌-ℤ◌
infix 50 ◌≤ℤ◌ ◌<ℤ◌
unfoldable pub ◌+ℤ◌ : ℤ → ℤ → ℤ
a +ℤ b = sub_ℕ (pos_part a + pos_part b) (neg_part a + neg_part b)

unfoldable pub ◌-ℤ◌ : ℤ → ℤ → ℤ
a -ℤ b = sub_ℕ (pos_part a + neg_part b) (neg_part a + pos_part b)

abbrev pub ◌≤ℤ◌ : ℤ → ℤ → Type 0
a ≤ℤ b = pos_part a + neg_part b ≤ pos_part b + neg_part a

abbrev pub ◌<ℤ◌ : ℤ → ℤ → Type 0
a <ℤ b = pos_part a + neg_part b < pos_part b + neg_part a

abbrev pub ltb_ℤ : ℤ → ℤ → Bool
ltb_ℤ a b = ltb (pos_part a + neg_part b) (pos_part b + neg_part a)

abbrev pub leb_ℤ : ℤ → ℤ → Bool
leb_ℤ a b = leb (pos_part a + neg_part b) (pos_part b + neg_part a)

abbrev pub int_beq : ℤ → ℤ → Bool
int_beq a b = nat_beq (pos_part a + neg_part b) (pos_part b + neg_part a)

pub int_beq_iff : (a b : ℤ) → (int_beq a b ≡ true) ↔ (a ≡ b)
int_beq_iff a b = ground arith

instance abbrev pub int_eq : Comparable ℤ
int_eq = record { equal = int_beq; equal_iff = int_beq_iff }

pub +ℤ_parts :
    (a b : ℤ)
    → pos_part (a +ℤ b) + neg_part a + neg_part b ≡ neg_part (a +ℤ b) + pos_part a + pos_part b
unfolding ◌+ℤ◌
+ℤ_parts a b = ground arith

pub -ℤ_parts :
    (a b : ℤ)
    → pos_part (a -ℤ b) + neg_part a + pos_part b ≡ neg_part (a -ℤ b) + pos_part a + neg_part b
unfolding ◌-ℤ◌
-ℤ_parts a b = ground arith

pub eq_of_parts : (a b : ℤ) → pos_part a + neg_part b ≡ pos_part b + neg_part a → a ≡ b
eq_of_parts a b h = ground arith

pub ruleset int_laws = (arith, +ℤ_parts, -ℤ_parts, eq_of_parts)

-- The `int64` that an exact sum is stored as: two's complement, modulo 2^64.
abbrev pub residue : ℤ → ℕ
residue z =
    (pos_part z + 9223372036854775808 + (18446744073709551616 - neg_part z % 18446744073709551616))
    % 18446744073709551616

unfoldable pub wrap64 : ℤ → ℤ
wrap64 z = sub_ℕ (residue z) 9223372036854775808

pub residue-wrap64 : (z : ℤ) → residue (wrap64 z) ≡ residue z
unfolding wrap64
residue-wrap64 z = ground arith

-- Numbers that agree modulo 2^64 are stored alike.
pub wrap64-eq : (a b : ℤ) → residue a ≡ residue b → wrap64 a ≡ wrap64 b
unfolding wrap64
wrap64-eq a b h = ap (λ r. sub_ℕ r 9223372036854775808) h

-- Wrapping an intermediate result does not change the final one.
pub wrap64-+ : (a b : ℤ) → wrap64 (wrap64 a +ℤ b) ≡ wrap64 (a +ℤ b)
wrap64-+ a b =
    wrap64-eq (wrap64 a +ℤ b) (a +ℤ b)
      (omega (arith, residue-wrap64 a, +ℤ_parts (wrap64 a) b, +ℤ_parts a b))

pub wrap64-- : (a b : ℤ) → wrap64 (wrap64 a -ℤ b) ≡ wrap64 (a -ℤ b)
wrap64-- a b =
    wrap64-eq (wrap64 a -ℤ b) (a -ℤ b)
      (omega (arith, residue-wrap64 a, -ℤ_parts (wrap64 a) b, -ℤ_parts a b))

-- Within the range of `int64` nothing is lost.
pub wrap64_fits :
    (z : ℤ) → negsuc 9223372036854775807 ≤ℤ z → z <ℤ pos 9223372036854775808 → wrap64 z ≡ z
unfolding wrap64
wrap64_fits z lo hi = ground arith

pub +ℤ_regroup : (a b c : ℤ) → a +ℤ (b +ℤ c) ≡ a +ℤ b +ℤ c
+ℤ_regroup a b c = omega int_laws

pub +ℤ_regroup_sub : (a b c : ℤ) → a +ℤ (b -ℤ c) ≡ a +ℤ b -ℤ c
+ℤ_regroup_sub a b c = omega int_laws

pub -ℤ_drop_left : (a b : ℤ) → b +ℤ a -ℤ b ≡ a
-ℤ_drop_left a b = omega int_laws

pub +ℤ_comm : (a b : ℤ) → a +ℤ b ≡ b +ℤ a
+ℤ_comm a b = omega int_laws

pub +ℤ_drop_middle : (a b c : ℤ) → a +ℤ (b +ℤ c) -ℤ b ≡ a +ℤ c
+ℤ_drop_middle a b c = omega int_laws

pub zero-+ℤ : (a : ℤ) → pos 0 +ℤ a ≡ a
zero-+ℤ a = omega int_laws

pub +ℤ_put_back : (a b c : ℤ) → a +ℤ c ≡ a -ℤ b +ℤ c +ℤ b
+ℤ_put_back a b c = omega int_laws
