-- ===== src/Controller.antt =====
-- internal/controller/mckube_controller.go: the controller, which keeps the pools in step with the
-- pods, and the runtime of the pods with their overruns and the pressure of their nodes.
pub mod PoolUpdate
pub mod Registered
pub mod Preemption
pub mod Candidates
pub mod Migration
pub mod Runtime
pub mod Recovery
pub mod Overrun
pub mod Throttle
pub mod Expiry
pub mod Cluster
pub mod Preempt
pub mod Process
pub mod Reconcile
pub mod Turn
pub mod Whole
pub mod Containers
pub mod Taint
pub mod Watch
pub mod Upkeep
pub mod RoundTests
pub mod Tests
use mc_kube.Prelude.{String, Bool, List, lookup, insert, delete, filter, string_eq}
use mc_kube.CpuPool.{Pools}
use mc_kube.CpuPool.Store.{remove_pod_from_pool, remove_pods_not_in, exists_pod}

-- `podRuntimeState` and the pools of the process.
pub record ControllerState : Type 0 where
  pub pod_runtime_state : List (String × String)
  pub pools : Pools
