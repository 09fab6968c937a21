-- ===== src/Controller/Taint.antt =====
-- internal/controller/mckube_controller.go: StartTaintThread. `Timers` is a list of its entries, in
-- the order in which a round meets them.
pub mod Lifted
use mc_kube.Prelude.{
  ℕ, zero, suc, String, Bool, true, false, List, [], ◌∷◌, ◌++◌, Option, none, some, string_eq, ◌==◌,
  ℤ, pos, ◌-ℤ◌, leb_ℤ, if◌then◌else◌,
}

pub record Taint : Type 0 where
  pub key : String
  pub effect : String

abbrev pub rt_pressure_taint_key : String
rt_pressure_taint_key = "McKubeRTDeadlinePressure"

abbrev pub last_of : Taint → List Taint → Taint
last_of t [] = t
last_of t (u ∷ us) = last_of u us

abbrev pub without_last : Taint → List Taint → List Taint
without_last t [] = []
without_last t (u ∷ us) = t ∷ without_last u us

-- A taint is overwritten by the last one, which is cut off.
abbrev pub swap_out : Taint → List Taint → List Taint
swap_out t [] = []
swap_out t (u ∷ us) = last_of u us ∷ without_last u us

abbrev with_front : Taint → Option (List Taint) → Option (List Taint)
with_front t none = none
with_front t (some ts) = some (t ∷ ts)

-- The taints if one has the key, without the first such.
unfoldable pub untaint : List Taint → Option (List Taint)
untaint [] = none
untaint (t ∷ ts) =
    let rest = untaint ts in
    if t.key == rt_pressure_taint_key then some (swap_out t ts) else with_front t rest

-- The taints that nodes are updated with; an error of the update is only logged.
abbrev pub Updates : Type 0
Updates = List (String × List Taint)

abbrev pub updates_of : String → Option (List Taint) → Updates
updates_of name none = []
updates_of name (some taints) = (name, taints) ∷ []

-- A node that cannot be read keeps its timer.
abbrev pub ran_out : String → ℤ → Option (List Taint) → List (String × ℤ) × Updates
ran_out name timer none = ((name, timer) ∷ [], [])
ran_out name timer (some taints) = ([], updates_of name (untaint taints))

module _ (get_taints : String → Option (List Taint)) where
  abbrev pub run_timer : String → ℤ → List (String × ℤ) × Updates
  run_timer name timer =
      if leb_ℤ timer (pos 0)
      then ran_out name timer (get_taints name)
      else ((name, timer -ℤ pos 1) ∷ [], [])

  -- One waking of the thread: the timers afterwards, and the updates.
  unfoldable pub wake : List (String × ℤ) → List (String × ℤ) × Updates
  unfolding untaint
  wake [] = ([], [])
  wake ((name, timer) ∷ timers) =
      let (kept, sent) = run_timer name timer in
      let (rest, later) = wake timers in (kept ++ rest, sent ++ later)

  -- The timers after a number of wakings.
  unfoldable pub wakings : ℕ → List (String × ℤ) → List (String × ℤ)
  unfolding wake
  wakings zero timers = timers
  wakings (suc n) timers = wakings n (wake timers).0
