-- ===== src/Prelude/Keys.antt =====
-- Boolean equality as an interface, for the keys of maps and the names that the program compares.
use Prim.Native.Nat.{ℕ}
use Prim.Native.String.{String}
use mathlib.Core.Path.{◌≡◌, refl}
use mathlib.Core.Logic.{◌↔◌}
use mathlib.Core.Bool.{Bool, true}
use text.Mathlib.Text.{◌==◌ as str_eq}
use text.Mathlib.TextEquality.{eq_iff}
use mc_kube.Prelude.Tests.{nat_beq, nat_beq_iff}

-- What Go's `==` decides on the values of `K`.
pub record Comparable {ℓ} (K : Type ℓ) : Type ℓ where
  pub equal : K → K → Bool
  pub equal_iff : (x y : K) → (equal x y ≡ true) ↔ (x ≡ y)

instance abbrev pub string_eq : Comparable String
string_eq = record { equal_iff = eq_iff; equal = str_eq }

module _ {ℓ} {K : Type ℓ} ⦃c : Comparable K⦄ where
  infix 50 ◌==◌
  abbrev pub ◌==◌ : K → K → Bool
  x == y = c.equal x y

  pub ==_refl : (x : K) → (x == x) ≡ true
  ==_refl x = (c.equal_iff x x).1 refl

instance abbrev pub nat_eq : Comparable ℕ
nat_eq = record { equal_iff = nat_beq_iff; equal = nat_beq }
