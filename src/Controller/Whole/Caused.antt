-- ===== src/Controller/Whole/Caused.antt =====
-- internal/controller/mckube_controller.go: which overrun a pod in its high runtime was raised by.
use mc_kube.Prelude.{List, ◌≡◌, ◌⊎◌, String, true, false, some, Bool}
use mathlib.Core.List.{Memᴰ}
use mc_kube.Prelude.Float.{Float64}
use mc_kube.Prelude.Sort.{Sorter}
use mc_kube.Controller.Runtime.{is_hi, hi_request}
use mc_kube.Controller.Recovery.{IsRevertible}
use mc_kube.Controller.Containers.{ListedPod, OverrunData}
use mc_kube.Controller.Containers.Search.{IsOwner}
use mc_kube.Controller.Whole.{World, runtime_of}
use mc_kube.Controller.Whole.Run.{Overrun, Step, reconciles, watches, overruns, Reach, here, next}
use mc_kube.Controller.Whole.Lowers.{Lowers}

-- The report was put down to a listed pod of this name that owns the container, and the daemon of
-- its node took the request with the high runtime.
pub record IsRaiser (name : String) (overrun : Overrun) : Type 0 where
  pub report : OverrunData
  pub reported : overrun.body ≡ some report
  pub pods : List ListedPod
  pub listing : overrun.list_pods ≡ some pods
  pub p : ListedPod
  pub listed : Memᴰ p pods
  pub owner : IsOwner report.node_name report.container_id p
  pub named : p.pod.name ≡ name
  pub target : IsRevertible overrun.list_mckubes p.pod
  pub taken : overrun.sends p.pod.host_ip (hi_request target.rt report.container_id) ≡ true

module _ (F : Type 0) ⦃fl : Float64 F⦄ (s : Sorter) (name : String) where
  -- No Reconcile and no change of a watched pod raises a pod.
  abbrev pub Raises : {w w' : World} → Step F s w w' → Type 0
  Raises (reconciles answers cluster now accepts answer w w' round requests h) = ⊥
  Raises (watches list_mckubes pod w) = ⊥
  Raises (overruns o w) = IsRaiser name o

  abbrev high : World → Bool
  high w = is_hi name (runtime_of w)

  -- One of the steps raised the pod, which was not high before it, and it was high ever since.
  abbrev pub HighSince : {start w : World} → Reach F s start w → Type 0
  HighSince here = ⊥
  HighSince (next {m = m} reached step) =
      ((high m ≡ false) × Raises step) ⊎ ((high m ≡ true) × HighSince reached)
