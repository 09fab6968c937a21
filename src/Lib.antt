-- ===== src/Lib.antt =====
-- MC-Kube: a Kubernetes controller and admission webhooks for real-time pods of mixed criticality.
--
-- The program keeps, for each node, the CPU budget that is in use on each core
-- (internal/cpupool/cpupool.go). The mutating webhook asks it for the best node and core for a new
-- pod, the validating webhook asks whether a pod fits on the core it names, and the controller
-- enters and takes out pods as they come, move and go.
--
-- Prelude holds what the parts share: Prelude/Map is a Go map as an association list in its order
-- of iteration, Prelude/Int is Go's int64 with its wrap-around written out, Prelude/Sort is
-- sort.Slice behind its contract, Prelude/Float is float64 behind the laws of its order. A theorem
-- holds for every sort and every float64 that meets these; insertion sort and whole millionths
-- meet them.
--
-- CpuPool is internal/cpupool/cpupool.go, whole. CpuPool has the data; CpuPool/Store the pool
-- singleton and the methods of a pool (GetOrCreateCPUPool, RemovePodFromPool, RemovePodsNotIn,
-- AddPodToCore, ...); CpuPool/Victims poolEvictionLookahead, SelectMinimumVictims and
-- greedyMinVictims; CpuPool/Search SelectBestNodeAndCore and CheckNodeCoreFeasibility;
-- CpuPool/CoreSet ParseCoreSet, on a text as the list of its code points. Each method holds the
-- lock of its pool for its whole body, so a call is one step, and a history of the pools is a list
-- of calls. The other modules of CpuPool are about these: Accounting the usage of a core against
-- its pods, Removal and LeastLoaded the methods they name, Board and Refinement the pods on each
-- core without usage and order, Distinct lists of pods of different names, Cover the victims,
-- Placement the search against all nodes and cores, Feasibility one core, and Relisted two calls
-- that meet the same maps in different orders: a listing of a core's pods is the order of one call.
--
-- Api is api/v1/mckube_types.go, the resource that holds a pod's real-time settings.
--
-- Webhook/Validator is internal/webhook/rt_validator.go: validateRTSettings, findMcKubeForPod and
-- Handle (`handle`), as functions of what the API server answers; each denial and each grant is a
-- constructor, with the data of its message. Validator/Settings is about the settings and the
-- resource found, Validator/Admission about the answer of the handler, Validator/Confirmed about
-- the handler's check against the search by which the mutating webhook selects a core.
--
-- Webhook/Mutator is internal/webhook/pod_mutator.go: Handle (`handle`) with the selection of a
-- core (`select_core`, `place`), patchMcKubeCore (`patched_cr`) and the annotations. The resource
-- sent and the settings handed on are part of the answer. Mutator/Confirmed is about the selection
-- against the validating webhook, Mutator/Repeat about a second call for the same pod.
-- Webhook/Configuration is the goroutine that Handle starts (scheduleRTConfiguration,
-- applyRTSettingsViaDaemon, updatePodRTAnnotation): its ticks and its timeout are a list of
-- events, in any order, each tick with the answers of the API server and of the daemons at that
-- time (`Moment`), so that a request can be refused at one tick and taken at the next; a patch is
-- one that is tried, with its outcome. Configuration/Orderly is about what it sends,
-- Configuration/Ending about when it is done. CpuPool/CoreSet/Sprint is Sprintf("%d"), which
-- writes the core that ParseCoreSet reads; Prelude/Text is strings.Index, LastIndex and Contains.
--
-- Ipvs is internal/ipvs: Ipvs/Pods is pod_spec_handler.go and ListPodMilliCPUByNode,
-- Ipvs/Collector GetRealTimeData, Ipvs/Tiers the tiers of event_handler.go (CollectSortedTiers,
-- ReindexCurrentTier, NextHigherTier), Ipvs/Pressure the steps of ProcessCurrentTier and
-- HandleNodeCPUPressure, Ipvs/Node its beginning, which reads the annotations of the node and the
-- real-time data. The requests to the API server are part of the result, in their order, and its
-- answers are given as a `Cluster`. Ipvs/Events is FindObjectsForNode: a `Monitor` holds the nodes
-- in process and the goroutines, and a `Step` is a change of a node or the return of a goroutine.
-- Pressure/Requests and Pressure/Order are about the requests and the order of the tiers,
-- Pressure/Frame about the state of the other nodes, Pressure/Stuck about a tier whose eviction
-- was tried, Events/Exclusion about two goroutines of one node, Node/Incomplete about a resource
-- that lacks a field.
--
-- Controller is internal/controller/mckube_controller.go. Controller/Cluster is what it asks of
-- the API server and of the daemons: their answers are a record of functions, and what is sent is
-- a list of effects. Controller/PoolUpdate is updateCPUPoolForPod, cleanupPodState,
-- cleanupPodStateByMcKubeName and ensurePodRuntimeStateInitialized, on the runtime states and the
-- pools; Controller/Preemption findPreemptionVictims, findMigrationTargetCore and what a migration
-- does to the pool; Controller/Preempt checkAndPreemptForPod, preemptPod,
-- throttlePodRuntimeBeforeEviction and updatePodCoreAffinity; Controller/Process what Reconcile
-- does for an active pod, with applyRTSettingsToContainers; Controller/Reconcile its finalizer,
-- its node and its answer to the work queue; Controller/Turn its end, the change of a node's
-- pressure; Controller/Whole all of it, on the state that the handlers share, and in Whole/Run the
-- handlers in any order; Controller/Runtime handleOverrunEvent and handleCPURecovery, with what
-- they send on record; Controller/Containers the overrun listener and findPodByContainerID;
-- Controller/Taint StartTaintThread; Controller/Watch findObjectsForPod; Controller/Throttle the
-- marks of throttled victims, with the time as an argument. Registered is about the pool after an
-- update, Upkeep about any sequence of the calls that enter a pod and clean up after one, without
-- the preemptions of Reconcile, Candidates about victims and targets, Migration about the pool
-- after a move, Preempt/Lower about whom a preemption touches, Preempt/Subject about the pod of a
-- request, Preempt/Standing about the pods of a pool under migrations, Preempt/Placed and
-- Preempt/Keeping about pods on more than one core, Process/Stale about a core that is not
-- entered, Process/Cored about settings with a core, Reconcile/Status the stored resource after
-- the updates of its status, Reconcile/Deletion and Reconcile/Settling about the end of a resource
-- and about its first rounds, Turn/Edges about a second look at a node, Whole/Recovered about a
-- node that is no longer busy, Whole/Panicked about a resource without a core, Whole/Lowers,
-- Reverts, Raised and Caused about what changes the runtime of a pod, Whole/Steady about a pod
-- that is reconciled once more, Containers/Search and Containers/Blank about the pod of an
-- overrun, Taint/Lifted about the taint of a node, Recovery and Overrun about the runtime of the
-- pods, Expiry about the marks.
--
-- Bounds: ProcessCurrentTier calls itself for the next tier, on fuel, and three tiers have a rank,
-- so three is enough; usage_millis is an int64 and wraps; core numbers are read in the range of
-- int. Every loop is over a finite list and is structural recursion; reading digits needs no fuel.
--
-- Not modelled: the locks, logging, and the client of the Kubernetes API; a node is its name and
-- its CPU capacity, or its annotations, addresses or taints where these are read. An HTTP exchange
-- with a daemon is its outcome, so the token that it carries (getSharedToken) and SendRTRequest
-- beyond that are left out, as are the registration of watches (SetupWithManager) and the wiring
-- of the process (cmd/main.go); api/v1/zz_generated.deepcopy.go is generated.
pub mod Prelude
pub mod Api
pub mod CpuPool
pub mod Webhook
pub mod Ipvs
pub mod Controller
