-- ===== src/Lib.antt =====
-- A sandbox service on Firecracker micro-VMs: it creates, watches and deletes sandboxes, each a VM
-- with several containers, its own firewall chains and published host ports.
--
-- The parts of the program and the files that model them:
--
-- * internal/model/types.go is Model.antt, with the phases of internal/sandbox/state.go as data
--   types; internal/model/validate.go is Model/Validate.antt, one function for each loop.
-- * internal/network/firewall.go is Network/Firewall.antt (EnsureGlobalChains, ApplySandboxRules,
--   DeleteSandboxRules and their helpers), Network/Dnat.antt (the published host ports),
--   Network/ShortId.antt (shortID) and Network/Nameservers.antt (systemNameservers). A loop body of
--   the source is a definition of its own.
-- * internal/network/fcnet_cache.go is Network/Cni.antt.
-- * internal/store/file_store.go is Store.antt. Base/Paths.antt gives the Clean and Join of
--   path/filepath, by which the source builds every path.
-- * internal/sandbox/service.go, by parts: the configuration is Sandbox/Config.antt; DefaultConfig and New are
--   Startup.antt, with what cmd/server/main.go reads from the environment.
-- * internal/sandbox/state.go and the refresh of internal/sandbox/runtime.go are Sandbox/Phase.antt;
--   the helpers that read a request: Sandbox/Runtime.antt.
-- * internal/sandbox/runtime.go, by parts: the virtual machines are Sandbox/Vm.antt, the containers
--   Sandbox/Containers.antt, the file locks Sandbox/Locks.antt, and the removal of all that a sandbox
--   leaves on its host Sandbox/Artifacts.antt.
-- * internal/sandbox/lifecycle.go, by parts: the host ports are Sandbox/Ports.antt, the loops that wait
--   Sandbox/Waits.antt, provisioning Sandbox/Provision.antt, and creation, deletion and listing
--   Sandbox/Lifecycle.antt.
-- * internal/sandbox/reconcile.go, by parts: Sandbox/Reconcile.antt, the clean-up of orphans
--   Sandbox/Orphans.antt, the memory of unhealthy sandboxes Sandbox/Health.antt.
-- * Sandbox/Isolation.antt and the files below it relate the operations to what the service promises
--   of its store: a map from ids to sandboxes (View), with an insertion and a removal.
-- * internal/network/bridge_nf.go is Network/BridgeNetfilter.antt; the handlers and the answers of
--   internal/http are Http.antt.
--
-- How the parts interact: a handler calls the service, which acts on a world (Sandbox/World.antt): the
-- machine, the tables of iptables, the files of the store and the memory of the service. A creation
-- takes the lock of the sandbox, validates the request, clears what is left of an older sandbox,
-- checks and reserves the host ports under the lock of the ports, and stores the initial state.
-- Provisioning, in the call or in a goroutine, runs its stages one after the other: the VM, the
-- containers, the address, the firewall, the wait for the containers, the published ports; if one
-- fails, the failure is stored and what was made is removed. A reconciliation compares the store with
-- the host and gives up a sandbox that is seen unhealthy often and long enough. An operation is a
-- function from a world to a world; between operations that different goroutines run, others may
-- come in any order, while within one the store, the tables and the memory change only by it.
--
-- What stands outside the repository is a parameter: go-iptables is the interface IpTables of
-- Network/Tables.antt, with laws for what its calls do (IsLawful) and for a kernel that accepts them
-- (IsReliable). Network/Tables/Memory.antt is a table in memory that meets both. The files of os and
-- the JSON codec of the store are the interfaces Files and Codec of Store.antt, with files in memory in
-- Store/Memory.antt. The directories of the store, of the results of CNI and of the shims and tasks are
-- taken to lie apart: the store has files of its own, which a removal below another directory leaves
-- alone as long as the id names one entry of that directory. The clock, the firecracker control client, containerd, the other files, flock and
-- sockets are the interfaces of Machine.antt over one state of the machine, which Machine/Memory.antt
-- fills; the laws that a theorem needs of them are records beside it. The nameservers of the host, the
-- parsers of CNI results and of addresses, and the environment are arguments.
--
-- Conventions: a string is a list of bytes, and ToLower, ToUpper, TrimSpace and Fields are given for
-- ASCII text. Go's int is ℤ without a width: the numbers of the source that are computed with are
-- ports and counters. A counter of sightings does not wrap. Times and durations are nanoseconds. The
-- hash of an id wraps at 2 ^ 32. A map is an association list whose order is the order of an
-- iteration. Code under a mutex is one function. An error is a value; nil is none.
--
-- Recursion on fuel: the decimal numeral of Base/Decimal.antt, where a number n has at most n + 1
-- digits, and the loops that wait until a deadline (Machine/Polling.antt, Sandbox/Locks.antt). Their
-- fuel is the number of periods that fit before the deadline: 80 of 150 ms in 12 s, 134 in 20 s and
-- 67 in 10 s, and 168 rounds of 120 ms for the lock, one of them after its 20 s. As a sleep takes at
-- least its period, the deadline ends the loop first. The attempts at a VM or a container are counted
-- as in the source. Every other loop is recursion on a list.
--
-- A context is the function that gives its error at a state of the machine; the waits look at it. The
-- contexts of single calls to clients are left out: a call whose context has ended fails like any
-- other.
--
-- Not modelled: debug output, the closing of clients, the ticker that repeats a reconciliation, the
-- routes and the JSON of gin, the signals and the shutdown of main, and the command that looks up the
-- external address. Shell scripts and documents hold no code of the service.
pub mod Base
pub mod Model
pub mod Network
pub mod Sandbox
pub mod Store
pub mod Machine
pub mod Startup
pub mod Http
