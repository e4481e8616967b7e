-- ===== src/Lib.antt =====
-- The Equinix addon of Harvester: two Kubernetes controllers that keep pools of bare-metal nodes.
--
-- The program. An InstancePool asks for a number of nodes. The pool controller
-- (pkg/controllers/instancepool/instancepool.go) finds the join token of the cluster, creates an
-- Instance for each node that is missing, counts those that are managed, and deletes those in excess.
-- The instance controller (pkg/controllers/instance/instance.go) takes each Instance through its
-- states: a device is created with the client of Equinix Metal (pkg/equinix/equinix.go), its network
-- is converted and it is reinstalled with a cloud-init that joins the cluster, and it is managed once
-- its node appears; a deleted instance has its device and its node removed, and a node that has been
-- unhealthy for too long has its instance deleted. The controllers share nothing but the objects of
-- the cluster; a changed instance puts its pool on the queue.
--
-- The files.
--   Prelude: names of the library, tests, the integers of Go with 64-bit wrap-around, texts and maps.
--   Api: pkg/apis/equinix.harvesterhci.io/v1, the two custom resources.
--   Harvester: pkg/harvester/config.go, with the copies of a configuration in Harvester/Copy.
--   Services: everything outside. Calls has one constructor for each call that the program makes
--     and the type of its reply, and the pure functions of libraries; Monad has the statements of Go
--     as functions on a state (the outside, the calls made so far, the mutex) that go on, return early,
--     panic or wait; Trace, Outcome, Success and Total have the rules that follow a program to show
--     what it calls, what it returns, what it does when no call fails, and how it then changes a
--     measure of the outside.
--   Util: pkg/util/util.go.
--   Metal: pkg/equinix/equinix.go. Network is ConvertDevice and UpdateNetworkConfig, CloudInit is
--     updateCloudInit, Devices are the methods that the instance controller calls.
--   InstanceController: Lifecycle is OnInstanceChange with submitRequest (submit_request),
--     reinstallDevice (reinstall), checkDeviceStatus (check_status) and manageNodes; Removal is
--     OnInstanceRemove; Nodes is ResolveNode.
--     Onboarding takes a new instance through them to a managed node, where services let it through.
--   PoolController: Prepare is prepareInstancePool, Template and Submit are submitInstances and
--     generateCloudInit, Reconcile is reconcileInstances, Remove is removeInstances, and Dispatch is
--     wrapper and ReconcileNodePool. Healthy takes a pool out of balance to one in balance, on a
--     cluster where no call fails.
--   Controllers: the handlers that pkg/controllers/controllers.go and the two Register functions put
--     on the work queues, and their histories: runs of handlers one after the other, on any objects,
--     with any change outside between them.
--   Setup: what is done once. Crd is pkg/crd/crd.go (newCRD is new_crd), Startup is main.go,
--     controllers.go and the Register functions as steps, Codegen is pkg/codegen; Plan and Process say
--     in what order the program starts and how it ends, Printed and Written what the file of the
--     definitions holds.
--   Copies: pkg/apis/equinix.harvesterhci.io/v1/zz_generated_deepcopy.go in an explicit memory, where a
--     pointer, slice or map is an address. DeepCopyInto of a type T is copy_t (of a status, which has no addresses, its copier
--     instance_status or instance_pool_status), and DeepCopy t_pointer, as is DeepCopyObject.
--   Generated: pkg/generated/controllers/equinix.harvesterhci.io and the other zz_generated files. Client
--     and Cache are the generated controller and cache, Handlers the adapters of handlers, Status and
--     Generating the generated status and generating handlers, Changes is Update...DeepCopyOnChange on
--     values, and Changes/Pointers the same on pointers into memory (update_in_memory); Scheme and
--     Factory are the names, constructors and factories.
--   Tests: concrete services and objects, and the theorems applied to them.
--
-- The model. A handler is a function from a state to how it ends and the state that it leaves. The
-- replies of the outside are a function of an arbitrary state of it, of which nothing is assumed
-- unless a theorem says so; hypotheses on YAML, mergo and errors.Wrap stand among the arguments. A
-- pointer that may be nil is an option. The handlers own the object that they are given, so that a
-- change of it in place is a new value, and the value that is returned is the changed one. The
-- int counters of a pool are integers that wrap at 64 bits; the number of items of a list
-- is taken not to. Times and durations are integers of nanoseconds that do not wrap. The loops
-- of submitInstances and removeInstances run on the number of rounds that their bounds give, which is
-- all of them, so that no fuel is needed. A map over which the code ranges is a list in the order in
-- which that range meets its entries. strings.ToLower is written out for ASCII letters. A
-- deletion time that is set counts as a deletion, the zero time too, which the API server never sets;
-- the length of a random string is a natural number, since only 8 and 16 are passed.
--
-- In a healthy cluster a created instance is listed at once if it has the label of the pool; a deleted one may be listed until its
-- finalizers are gone, and is not counted among those that stay. The steps of Setup have an error or none,
-- and hand on no other value: clients and factories are handles that the program only passes on.
--
-- The controllers call the generated code through the calls of Services, whose replies are arbitrary; Copies
-- and Generated are models of that code of their own. In Copies, memory only grows, a slice spans its
-- array, and a map has no key twice; a quantity is its text. In Generated an object is a value, a
-- handler that is given a pointer to a copy returns what it leaves there, and lasso, client-go,
-- wrangler and apimachinery are records of functions, with arbitrary effects on an arbitrary world; a
-- handler is taken to return. v1/instance.go and v1/instancepool.go differ in names only, so that the
-- operations are written once, for what differs between the types.
--
-- Not modelled: log lines, charts and build scripts, and the interface types of the generated code, of
-- which the operations are arguments where they are used. A wait for the mutex is an end of the run: several workers are
-- interleaved by whole runs of handlers, not inside one.
pub mod Prelude
pub mod Api
pub mod Harvester
pub mod Services
pub mod Util
pub mod Metal
pub mod InstanceController
pub mod PoolController
pub mod Controllers
pub mod Setup
pub mod Copies
pub mod Generated
pub mod Tests
