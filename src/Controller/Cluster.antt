-- ===== src/Controller/Cluster.antt =====
-- internal/controller/mckube_controller.go: what the controller asks of the API server and of the
-- daemons of the nodes, and what it is answered.
use mc_kube.Prelude.{String, Bool, List, Option, ℤ}
use mc_kube.Api.{Mckube}
use mc_kube.Controller.PoolUpdate.{Pod}
use mc_kube.Controller.Runtime.{CgroupRequest}

pub data Phase : Type 0 where
  pending : Phase
  running : Phase
  ended : Phase

-- What the controller reads of a `corev1.Pod`; the identifiers are those of its containers' states.
pub record ClusterPod : Type 0 where
  pub name : String
  pub namespace : String
  pub uid : String
  pub node_name : String
  pub host_ip : String
  pub phase : Phase
  pub deleting : Bool
  pub container_ids : List String

-- The part of it that updateCPUPoolForPod reads.
abbrev pub pod_of : ClusterPod → Pod
pod_of p = record { name = p.name; namespace = p.namespace; node_name = p.node_name }

-- What is sent on behalf of a pod: a request to the daemon of its node, a status of its resource,
-- its label and its eviction.
pub data Effect : Type 0 where
  asks : ClusterPod → CgroupRequest → Effect
  reports : ClusterPod → Mckube → Effect
  labels : ClusterPod → Effect
  evicts : ClusterPod → Effect

pub data Got (A : Type 0) : Type 0 where
  got : A → Got A
  absent : Got A
  broken : Got A

-- The resources of a namespace; a pod; whether a status, a request and an eviction are accepted;
-- and the time when the request for a container is answered.
pub record Cluster : Type 0 where
  pub list_mckubes : String → Option (List Mckube)
  pub get_pod : String → String → Got ClusterPod
  pub accepts_status : Mckube → Bool
  pub sends : String → CgroupRequest → Bool
  pub accepts_eviction : ClusterPod → Bool
  pub answered_at : String → ℤ
