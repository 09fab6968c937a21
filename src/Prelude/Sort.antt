-- ===== src/Prelude/Sort.antt =====
-- `sort.Slice` behind its contract: the result is the input rearranged, and no element is before
-- one that must precede it. The order of equal elements is left open, as in Go. Insertion sort
-- meets the contract.
use mathlib.Core.Path.{◌≡◌, refl, ◌∙◌}
use mathlib.Core.Bool.{Bool, true, false}
use mathlib.Core.Logic.{inl, inr}
use mathlib.Core.List.{List, [], ◌∷◌, Permᴰ, Memᴰ}
use mathlib.Core.List.Memᴰ
use mathlib.Core.List.Permᴰ
use mc_kube.Prelude.Tests.{if◌then◌else◌, Bool-cases}
use mc_kube.Prelude.Lists.{All}

-- What `sort.Slice` asks of its `less`, on the elements that satisfy `P`.
pub record IsStrictOrder {ℓ κ} {A : Type ℓ} (P : A → Type κ) (less : A → A → Bool)
    : Type (ℓ ⊔ κ) where
  pub asym : (x y : A) → P x → P y → less x y ≡ true → less y x ≡ false
  pub incomparable_trans :
      (x y z : A) → P x → P y → P z → less y x ≡ false → less z y ≡ false → less z x ≡ false

module _ {ℓ} {A : Type ℓ} (less : A → A → Bool) where
  abbrev pub IsSorted : List A → Type 0
  IsSorted [] = Unit
  IsSorted (x ∷ xs) = All (λ y. less y x ≡ false) xs × IsSorted xs

pub record Sorter : Type 1 where
  pub sort : {A : Type 0} → (A → A → Bool) → List A → List A
  pub sort-perm : {A : Type 0} (less : A → A → Bool) (xs : List A) → Permᴰ (sort less xs) xs
  pub sort-IsSorted :
      {A : Type 0} (P : A → Type 0) (less : A → A → Bool)
      → IsStrictOrder P less
      → (xs : List A) → All P xs
      → IsSorted less (sort less xs)

module _ {ℓ} {A : Type ℓ} where
  pub Permᴰ-All {κ} : (P : A → Type κ) {xs ys : List A} → Permᴰ xs ys → All P xs → All P ys
  Permᴰ-All P Permᴰ.nil h = tt
  Permᴰ-All P (Permᴰ.cons e p) h = (rw (← e) h.0, Permᴰ-All P p h.1)
  Permᴰ-All P (Permᴰ.swap e f) h = (rw (← f) h.1.0, (rw (← e) h.0, h.1.1))
  Permᴰ-All P (Permᴰ.trans p q) h = Permᴰ-All P q (Permᴰ-All P p h)

module _ {ℓ} {A : Type ℓ} (less : A → A → Bool) where
  place : A → List A → List A
  place x [] = x ∷ []
  place x (y ∷ ys) = if less y x then y ∷ place x ys else x ∷ y ∷ ys

  unfoldable pub insertion_sort : List A → List A
  unfolding place
  insertion_sort [] = []
  insertion_sort (x ∷ xs) = place x (insertion_sort xs)

  place-perm : (x : A) (ys : List A) → Permᴰ (place x ys) (x ∷ ys)
  unfolding place
  place-perm x [] = Permᴰ.refl (x ∷ [])
  place-perm x (y ∷ ys) = elim (Bool-cases (less y x)) [
    | inl later ↦ rw later (Permᴰ.trans (Permᴰ.cons refl (place-perm x ys)) (Permᴰ.swap refl refl))
    | inr here ↦ rw here (Permᴰ.refl (x ∷ y ∷ ys))
  ]

  pub insertion_sort-perm : (xs : List A) → Permᴰ (insertion_sort xs) xs
  unfolding insertion_sort
  insertion_sort-perm [] = Permᴰ.nil
  insertion_sort-perm (x ∷ xs) =
      Permᴰ.trans (place-perm x (insertion_sort xs)) (Permᴰ.cons refl (insertion_sort-perm xs))

pub All-zip {ℓ κ ι ξ} :
    {A : Type ℓ} (P : A → Type κ) (Q : A → Type ι) (R : A → Type ξ) (xs : List A)
    → ((x : A) → P x → Q x → R x)
    → All P xs
    → All Q xs
    → All R xs
All-zip P Q R [] f h k = tt
All-zip P Q R (x ∷ xs) f h k = (f x h.0 k.0, All-zip P Q R xs f h.1 k.1)

module _ {ℓ κ} {A : Type ℓ} (P : A → Type κ) (less : A → A → Bool)
    (order : IsStrictOrder P less) where
  place-IsSorted :
      (x : A) (ys : List A) → P x → All P ys → IsSorted less ys → IsSorted less (place less x ys)
  unfolding place
  place-IsSorted x [] px ps h = (tt, tt)
  place-IsSorted x (y ∷ ys) px ps h = elim (Bool-cases (less y x)) [
    | inl later ↦ rw later (
      Permᴰ-All (λ z. less z y ≡ false) (Permᴰ.symm (place-perm less x ys))
          (order.asym y x ps.0 px later, h.0),
      place-IsSorted x ys px ps.1 h.1,
    )
    | inr here ↦ rw here (
      (
        here,
        All-zip P (λ z. less z y ≡ false) (λ z. less z x ≡ false) ys
            (λ z pz k. order.incomparable_trans x y z px ps.0 pz here k) ps.1 h.0,
      ),
      h,
    )
  ]

  pub insertion_sort-IsSorted : (xs : List A) → All P xs → IsSorted less (insertion_sort less xs)
  unfolding insertion_sort
  insertion_sort-IsSorted [] ps = tt
  insertion_sort-IsSorted (x ∷ xs) ps =
      place-IsSorted x (insertion_sort less xs) ps.0
        (Permᴰ-All P (Permᴰ.symm (insertion_sort-perm less xs)) ps.1)
        (insertion_sort-IsSorted xs ps.1)

module _ {ℓ} {A : Type ℓ} where
  pub Permᴰ-Memᴰ : (a : A) {xs ys : List A} → Permᴰ xs ys → Memᴰ a xs → Memᴰ a ys
  Permᴰ-Memᴰ a Permᴰ.nil m = m
  Permᴰ-Memᴰ a (Permᴰ.cons e p) m = elim (Memᴰ.cases_cons m) [
    | inl h ↦ Memᴰ.head (h ∙ e)
    | inr t ↦ Memᴰ.tail (Permᴰ-Memᴰ a p t)
  ]
  Permᴰ-Memᴰ a (Permᴰ.swap e f) m = elim (Memᴰ.cases_cons m) [
    | inl h ↦ Memᴰ.tail (Memᴰ.head (h ∙ e))
    | inr t ↦ elim (Memᴰ.cases_cons t) [
      | inl h ↦ Memᴰ.head (h ∙ f)
      | inr u ↦ Memᴰ.tail (Memᴰ.tail u)
    ]
  ]
  Permᴰ-Memᴰ a (Permᴰ.trans p q) m = Permᴰ-Memᴰ a q (Permᴰ-Memᴰ a p m)

  -- A rearrangement of the empty list is empty.
  pub Permᴰ-nil : {xs ys : List A} → Permᴰ xs ys → xs ≡ [] → ys ≡ []
  Permᴰ-nil Permᴰ.nil e = refl
  Permᴰ-nil (Permᴰ.cons _ _) e = absurd (cc)
  Permᴰ-nil (Permᴰ.swap _ _) e = absurd (cc)
  Permᴰ-nil (Permᴰ.trans p q) e = Permᴰ-nil q (Permᴰ-nil p e)

abbrev pub insertion : Sorter
insertion = record {
  sort = λ {A} less xs. insertion_sort less xs;
  sort-perm = λ {A} less xs. insertion_sort-perm less xs;
  sort-IsSorted = λ {A} P less order xs ps. insertion_sort-IsSorted P less order xs ps;
}
