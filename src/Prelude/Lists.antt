-- ===== src/Prelude/Lists.antt =====
-- Lists measured by native numbers, Boolean filters, and predicates on all and on some elements.
use Prim.Native.Nat.{ℕ, suc, ◌+◌}
use mathlib.Core.Path.{◌≡◌, refl}
use mathlib.Core.Bool.{Bool, true, false, ◌||◌}
use mathlib.Core.List.{List, [], ◌∷◌, ◌++◌, Memᴰ}
use native.Mathlib.Omega.{arith}
use mc_kube.Prelude.Tests.{if◌then◌else◌}

module _ {ℓ} {A : Type ℓ} where
  abbrev pub length : List A → ℕ
  length [] = 0
  length (x ∷ xs) = suc (length xs)

  pub length-append : (xs ys : List A) → length (xs ++ ys) ≡ length xs + length ys
  length-append [] ys = omega arith
  length-append (x ∷ xs) ys = omega (arith, length-append xs ys)

  -- The elements that pass a Boolean test, in order: the `append` loops of the source.
  abbrev pub filter : (A → Bool) → List A → List A
  filter p [] = []
  filter p (x ∷ xs) = if p x then x ∷ filter p xs else filter p xs

  abbrev pub any : (A → Bool) → List A → Bool
  any p [] = false
  any p (x ∷ xs) = p x || any p xs

  abbrev pub All {κ} : (A → Type κ) → List A → Type κ
  All P [] = Unit
  All P (x ∷ xs) = P x × All P xs

module _ {ℓ} {A : Type ℓ} where
  pub All-append {κ} : (P : A → Type κ) (xs ys : List A) → All P xs → All P ys → All P (xs ++ ys)
  All-append P [] ys h k = k
  All-append P (x ∷ xs) ys h k = (h.0, All-append P xs ys h.1 k)

  pub All-map {κ ι} :
      (P : A → Type κ) (Q : A → Type ι) (xs : List A) → ((x : A) → P x → Q x) → All P xs → All Q xs
  All-map P Q [] f h = tt
  All-map P Q (x ∷ xs) f h = (f x h.0, All-map P Q xs f h.1)

  pub All-of_Memᴰ {κ} : (P : A → Type κ) (xs : List A) → ((x : A) → Memᴰ x xs → P x) → All P xs
  All-of_Memᴰ P [] f = tt
  All-of_Memᴰ P (x ∷ xs) f = (f x (Memᴰ.head refl), All-of_Memᴰ P xs (λ y h. f y (Memᴰ.tail h)))

  pub All-Memᴰ {κ} : (P : A → Type κ) {a : A} {xs : List A} → All P xs → Memᴰ a xs → P a
  All-Memᴰ P h (Memᴰ.head e) = rw e h.0
  All-Memᴰ P h (Memᴰ.tail m) = All-Memᴰ P h.1 m

  -- Exactly the elements that pass.
  pub Memᴰ-filter :
      (p : A → Bool) (a : A) (xs : List A) → Memᴰ a (filter p xs) → Memᴰ a xs × (p a ≡ true)
  Memᴰ-filter p a [] m = elim m [ ]
  Memᴰ-filter p a (x ∷ xs) m = kept (p x) refl m (Memᴰ-filter p a xs)
    where
      kept :
          (b : Bool)
          → p x ≡ b
          → Memᴰ a (if b then x ∷ filter p xs else filter p xs)
          → (Memᴰ a (filter p xs) → Memᴰ a xs × (p a ≡ true))
          → Memᴰ a (x ∷ xs) × (p a ≡ true)
      kept true e (Memᴰ.head h) ih = (Memᴰ.head h, rw h e)
      kept true e (Memᴰ.tail h) ih = (Memᴰ.tail (ih h).0, (ih h).1)
      kept false e h ih = (Memᴰ.tail (ih h).0, (ih h).1)

  pub filter-Memᴰ :
      (p : A → Bool) {a : A} {xs : List A} → Memᴰ a xs → p a ≡ true → Memᴰ a (filter p xs)
  filter-Memᴰ p {xs = []} m h = elim m [ ]
  filter-Memᴰ p {xs = x ∷ xs} (Memᴰ.head e) h = rw (← e, h) (Memᴰ.head refl)
  filter-Memᴰ p {a} {xs = x ∷ xs} (Memᴰ.tail m) h = skip (p x) (filter-Memᴰ p m h)
    where
      skip : (b : Bool) → Memᴰ a (filter p xs) → Memᴰ a (if b then x ∷ filter p xs else filter p xs)
      skip true k = Memᴰ.tail k
      skip false k = k
