-- ===== src/Controller/Whole/Run.antt =====
-- internal/controller/mckube_controller.go: the handlers of the process in any order, each with any
-- answers of the API server and of the daemons.
use mc_kube.Prelude.{◌≡◌, String, Bool, List, Option, some, ℤ}
use mc_kube.Prelude.Float.{Float64}
use mc_kube.Prelude.Sort.{Sorter}
use mc_kube.Api.{Mckube}
use mc_kube.Ipvs.Pressure.{Request}
use mc_kube.Controller.{ControllerState}
use mc_kube.Controller.Runtime.{CgroupRequest, RunningPod}
use mc_kube.Controller.Cluster.{Got, Cluster}
use mc_kube.Controller.Reconcile.{Resource, Round}
use mc_kube.Controller.Containers.{ListedPod, OverrunData, serve_overrun}
use mc_kube.Controller.Watch.{WatchedPod, find_objects_for_pod}
use mc_kube.Controller.Whole.{World, runtime_of, with_runtime_state, NodeAnswers, reconcile_whole}

abbrev pub with_controller : ControllerState → World → World
with_controller controller w = record w { process = record w.process { controller = controller } }

-- One report to the overrun listener.
pub record Overrun : Type 0 where
  pub sends : String → CgroupRequest → Bool
  pub now : ℤ
  pub list_mckubes : RunningPod → Option (List Mckube)
  pub list_pods : Option (List ListedPod)
  pub is_post : Bool
  pub body : Option OverrunData

abbrev pub overrun_world : Overrun → World → World
overrun_world o w =
    with_runtime_state
      (serve_overrun o.sends o.now o.list_mckubes o.list_pods o.is_post o.body (runtime_of w)).1 w

module _ (F : Type 0) ⦃fl : Float64 F⦄ (s : Sorter) where
  -- A Reconcile with its answers and its result, a change of a pod that is watched, an overrun.
  pub data Step : World → World → Type 0 where
    reconciles :
        (answers : NodeAnswers) (cluster : Cluster) (now : ℤ) (accepts : Resource → Bool)
        (answer : Got Resource) (w w' : World) (round : Round) (requests : List Request)
        → reconcile_whole answers F s cluster now accepts answer w ≡ some (w', round, requests)
        → Step w w'
    watches :
        (list_mckubes : String → Option (List Mckube)) (pod : WatchedPod) (w : World)
        → Step w (with_controller (find_objects_for_pod list_mckubes pod w.process.controller).1 w)
    overruns : (o : Overrun) (w : World) → Step w (overrun_world o w)

  pub data Reach (start : World) : World → Type 0 where
    here : Reach start start
    next : {m n : World} → Reach start m → Step m n → Reach start n
