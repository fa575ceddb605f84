-- ===== src/Lib.antt =====
-- A model of PlenusLB, a load balancer for Kubernetes: a controller gives the services of type
-- LoadBalancer their IP addresses, and an operator on each node puts addresses on the interfaces.
--
-- The parts and their files. Api models the custom resources (pkg/apis/loadbalancing/v1alpha1) and
-- the predicates of pkg/controller/utils. Pools is the list of addresses that are available
-- (pkg/controller/persistentips/poolsManager.go): `use_ip` is `UseIP`, `release_ip` is `ReleaseIP`,
-- and so on, each on the slice `availablesPools`, which is passed and returned. Persistent and
-- Ephemeral are the allocators of pkg/controller/persistentips and pkg/controller/ephemeralips, with
-- the lines that both have in Placement. Manager is pkg/controller/ipallocations/manager.go, the
-- calls on the objects that record allocations. Operators is the controller's side of the operators
-- (pkg/controller/operator/operatorslist.go and pkg/controller/operatorSpeaker), Services its side
-- of the services. Allocator (pkg/controller/allocator) puts an allocation into effect, Reconciler
-- (pkg/controller/allocationReconciler) compares it with its service, and Watcher
-- (pkg/controller/allocationswatcher and the handlers of pkg/controller/servicewatcher) calls both
-- under the lock of pkg/controller/allocationsLock, which is Lock. Backoff is the retry loop of
-- pkg/controller/utils/utils.go, and Calculator its copy in tools/backoffCalculator.go. Observer is the
-- operator: pkg/operator/network and pkg/operator/observer, with the calls of pkg/operator/server in
-- Server. Deployment is pkg/controller/poolsController, which deploys the operators while a pool wants
-- them, with `DeployOrDie` and `Delete` of pkg/controller/operator/daemonset.go; the rest of that file
-- is Daemonset, and the waits of pkg/controller/wait are Wait. Events is pkg/controller/events, the
-- channels between the watchers and the handlers, and Wiring what an event does once
-- pkg/controller/allocationswatcher and pkg/controller/poolsController have registered for it; its
-- System is those channels with the informers of pools and of the operators' pods, in any order.
-- Process is the start of pkg/cmd/controller with the probes of pkg/utils/k8shealth. Hetzner is
-- pkg/clouds, Election pkg/controller/leader, and Crd the definitions of the custom
-- resources with pkg/controller/CRDDeployer.
--
-- State and failure. A function of the controller takes a `World` (World.antt), the package variables
-- and the contents of the informers' stores, and returns it changed, or none where the code panics.
-- An error is a value, `Option Err` or `Result`. The API server, the cloud, the operators' gRPC and
-- the random source are the record `Api`, of which nothing is assumed but what a theorem names as a
-- hypothesis; netlink (`Netlink`), the cloud's client (Hetzner.Client), the API server as the daemon set
-- (Daemonset.Calls.Kube) and the definitions (Crd.Deploy.Server) use it, the lock of the election and
-- the polls are records in the same way, and so are the floats of the calculator's total.
--
-- Concurrency. A mutex that a function holds from its first to its last line makes it one step. The lock
-- of allocations is no mutex: a handler tries it ten times, with any change of the world in between
-- (`others` of `Api`), and Lock/Race.antt interleaves two goroutines in it. What takes no lock at all
-- is described as it runs when nothing overlaps it; Pools/Race.antt and Deployment/Required.antt show
-- what an overlap does to EnsureAddressIsNotAvailable and to DeployOrDie.
--
-- Bounds. The retry loop runs on fuel, and a theorem says that more fuel than the backoff has steps
-- is enough. The `int` and `int64` of the cloud's rate limit wrap around at 64 bits (Base.Int). All
-- other recursion is on lists. Durations are natural numbers, and the growth by a floating-point
-- factor and the jitter are functions of the model.
--
-- Not modelled: logging, the informers' caches, the elector of the client library, gRPC and HTTP
-- themselves, the start of the operator, signals, the clients, and generated code. Copies of objects
-- are values: the code makes a deep copy before each change.
pub mod Base
pub mod Api
pub mod Pools
pub mod Errors
pub mod Lock
pub mod Backoff
pub mod World
pub mod Manager
pub mod Operators
pub mod Placement
pub mod Persistent
pub mod Ephemeral
pub mod Services
pub mod Allocator
pub mod Reconciler
pub mod Watcher
pub mod Observer
pub mod Calculator
pub mod Daemonset
pub mod Process
pub mod Events
pub mod Wiring
pub mod Election
pub mod Server
pub mod Crd
pub mod Wait
pub mod Deployment
pub mod Hetzner
pub mod Tests
