-- ===== src/Controller/Taint/Lifted.antt =====
-- internal/controller/mckube_controller.go: a taint is lifted when the timer of its node has run out.
use mc_kube.Prelude.{
  ℕ, zero, suc, ◌≡◌, refl, ap, subst, inl, inr, String, true, false, List, [], ◌∷◌, Option, some,
  string_eq, ◌==◌, ℤ, pos, ◌-ℤ◌, leb_ℤ, arith, Bool-cases,
}
use mathlib.Core.List.{Memᴰ, Permᴰ}
use mathlib.Core.List.Memᴰ
use mathlib.Core.List.Permᴰ
use mc_kube.Controller.Taint.{
  Taint, rt_pressure_taint_key, last_of, without_last, swap_out, untaint, run_timer, wake, wakings,
}

last-Permᴰ : (t : Taint) (ts : List Taint) → Permᴰ (t ∷ ts) (last_of t ts ∷ without_last t ts)
last-Permᴰ t [] = Permᴰ.refl _
last-Permᴰ t (u ∷ us) = Permᴰ.trans (Permᴰ.cons refl (last-Permᴰ u us)) (Permᴰ.swap refl refl)

swap_out-Permᴰ : (t : Taint) (ts : List Taint) → Permᴰ ts (swap_out t ts)
swap_out-Permᴰ t [] = Permᴰ.nil
swap_out-Permᴰ t (u ∷ us) = last-Permᴰ u us

-- The lifted taints are the others, in some order.
pub record IsLifted (taints lifted : List Taint) : Type 0 where
  pub gone : Taint
  pub keyed : (gone.key == rt_pressure_taint_key) ≡ true
  pub others : Permᴰ taints (gone ∷ lifted)

untaint-IsLifted :
    (t : Taint) (taints : List Taint)
    → Memᴰ t taints
    → (t.key == rt_pressure_taint_key) ≡ true
    → (lifted : List Taint) × (untaint taints ≡ some lifted) × IsLifted taints lifted
unfolding untaint
untaint-IsLifted t [] m keyed = absurd (Memᴰ.not-nil m)
untaint-IsLifted t (u ∷ us) m keyed = elim (Bool-cases (u.key == rt_pressure_taint_key)) [
  | inl hit ↦ (
    swap_out u us,
    rw hit refl,
    record { gone = u; keyed = hit; others = Permᴰ.cons refl (swap_out-Permᴰ u us) },
  )
  | inr miss ↦ elim m [
    | Memᴰ.head e ↦ let q = rw e at keyed in absurd (ground (arith, q, miss))
    | Memᴰ.tail n ↦
        let (lifted, e, h) = untaint-IsLifted t us n keyed in
        (
          u ∷ lifted,
          rw (miss, e) refl,
          record {
            gone = h.gone;
            keyed = h.keyed;
            others = Permᴰ.trans (Permᴰ.cons refl h.others) (Permᴰ.swap refl refl);
          },
        )
  ]
]

module _ (get_taints : String → Option (List Taint)) where
  run_timer-waits :
      (name : String) (n : ℕ) → Memᴰ (name, pos n) (run_timer get_taints name (pos (suc n))).0
  unfolding ◌-ℤ◌
  run_timer-waits name n =
      let more : leb_ℤ (pos (suc n)) (pos 0) ≡ false = ground arith in
      let stays : pos n ≡ pos (suc n) -ℤ pos 1 = ground arith in
      rw more (Memᴰ.head (ap (λ z. (name, z)) stays))

  wake-waits :
      (name : String) (n : ℕ) (timers : List (String × ℤ))
      → Memᴰ (name, pos (suc n)) timers
      → Memᴰ (name, pos n) (wake get_taints timers).0
  unfolding wake
  wake-waits name n [] m = absurd (Memᴰ.not-nil m)
  wake-waits name n ((other, timer) ∷ timers) (Memᴰ.head e) =
      Memᴰ.append_left (wake get_taints timers).0 (
        subst (λ x. Memᴰ (name, pos n) (run_timer get_taints x.0 x.1).0) e (run_timer-waits name n))
  wake-waits name n ((other, timer) ∷ timers) (Memᴰ.tail m) =
      Memᴰ.append_right (run_timer get_taints other timer).0 (wake-waits name n timers m)

  wakings-waits :
      (name : String) (n : ℕ) (timers : List (String × ℤ))
      → Memᴰ (name, pos n) timers
      → Memᴰ (name, pos 0) (wakings get_taints n timers)
  unfolding wakings
  wakings-waits name zero timers m = m
  wakings-waits name (suc n) timers m =
      wakings-waits name n (wake get_taints timers).0 (wake-waits name n timers m)

  wake-sends :
      (name : String) (taints lifted : List Taint) (timers : List (String × ℤ))
      → get_taints name ≡ some taints
      → untaint taints ≡ some lifted
      → Memᴰ (name, pos 0) timers
      → Memᴰ (name, lifted) (wake get_taints timers).1
  unfolding wake
  wake-sends name taints lifted [] found e m = absurd (Memᴰ.not-nil m)
  wake-sends name taints lifted ((other, timer) ∷ timers) found e (Memᴰ.head h) =
      Memᴰ.append_left (wake get_taints timers).1 (
        subst (λ x. Memᴰ (name, lifted) (run_timer get_taints x.0 x.1).1) h
          (rw (found, e) (Memᴰ.head refl)))
  wake-sends name taints lifted ((other, timer) ∷ timers) found e (Memᴰ.tail m) =
      Memᴰ.append_right (run_timer get_taints other timer).1
        (wake-sends name taints lifted timers found e m)

  -- Where the timer of a node that can be read stands at n and the node has the taint of the
  -- pressure, the waking after the next n updates the node with its other taints.
  pub wakings_lift :
      (name : String) (n : ℕ) (timers : List (String × ℤ)) (t : Taint) (taints : List Taint)
      → Memᴰ (name, pos n) timers
      → get_taints name ≡ some taints
      → Memᴰ t taints
      → (t.key == rt_pressure_taint_key) ≡ true
      → (lifted : List Taint) × IsLifted taints lifted
        × Memᴰ (name, lifted) (wake get_taints (wakings get_taints n timers)).1
  wakings_lift name n timers t taints m found there keyed =
      let (lifted, e, h) = untaint-IsLifted t taints there keyed in
      (lifted, h, wake-sends name taints lifted _ found e (wakings-waits name n timers m))
