-- ===== src/Lib.antt =====
-- kube-service-exporter watches the Services and Nodes of a Kubernetes cluster and writes what it
-- exports to Consul: a registration with the local agent, and documents in the key-value store,
-- which only the leader among the processes of a cluster writes. This library models its decisions
-- and its writes.
--
-- The parts, with paths from the root of the repository:
--
--   Base, Go      lists, texts as lists of bytes, Go's errors and panics, strconv, JSON values, and
--                 calls on shared state (Go/Act) with rules for what they leave behind
--   Kube          the fields of Services and Nodes that the program reads
--   Util          pkg/util/util.go and pkg/util/node_ready_checker.go: is_domain_name is IsDomainName,
--                 should_include is ShouldInclude
--   Export        pkg/controller/exportable_service.go: new_exported_services is
--                 NewExportedServicesFromKubeService, new_exported_service is NewExportedService
--   ExportTarget  pkg/controller/export_target.go: what the watchers ask of a target
--   ServiceWatcher
--                 pkg/controller/service_watcher.go and keyop.go: add_service, update_service and
--                 delete_service are the methods with those names; Process has the event handlers,
--                 process_next_item and run_worker; Calls has the target that writes down its calls, Pairing
--                 says which old service is updated,
--                 Waiting puts the watcher on the priority queue, Lifecycle has Run and Stop
--                 as the relation LifeStep, and Informer the configurations of both informers
--   NodeWatcher   pkg/controller/node_watcher.go: export_nodes is exportNodes, and process_next_node
--                 processNextItem; Lifecycle has Run and Stop as the relation NodeStep
--   Leader        pkg/leader/consul_leader_elector.go: has_leader, wait_for_leader, and Run as the
--                 relation Step between states of an Elector; Start is NewConsulLeaderElector
--   Queue         pkg/queue/priority_queue.go and queue.go: add, get, forget, failed and peek are the
--                 methods of PriorityQueue; Heap has container/heap on its items, Spec what the queue
--                 promises. Slots, Order, Moved, Sift, Sink, Root, Container, Remove and Push are about
--                 the heap, and Lookup, Valid, Refine, Taking, Runs, Ties and Forget about the queue.
--                 Metrics is pkg/queue/metrics.go, Metered and Reported have the queue with its
--                 metrics, and Delaying and Counting are about pkg/queue/delaying_queue_statsd.go
--   Stats         pkg/stats/stats.go: what is sent to the statsd client; Client is Configure
--   Consul        the Consul client and the leader as the target sees them: a record of calls, and
--                 the laws of the key-value store; Consul/Instrumented is
--                 pkg/consul/instrumented_consul.go
--   Target        pkg/controller/consul_target.go: create, update, clean, delete and write_nodes are
--                 the methods of ConsulTarget with those names; payload is MarshalJSON; Calm has the target
--                 as the watchers see it, Metered puts it on the instrumented client, and Start is
--                 NewConsulTarget. Region, Follower, Reliable and Replace say what its operations do
--                 to the store, for Exporter
--   Exporter      the service watcher on the Consul target: what comes of a Service in the
--                 key-value store
--   Server        pkg/server/server.go: new_server is New, ping is ping
--   Main          main.go: Settings and Start are main up to its goroutines, where Startup says how
--                 that can end, and Shutdown is what follows, with the life cycles of the elector,
--                 the two watchers and the server in the relation ProcessStep. Defaults,
--                 Failures and Selector are about a start, Order and Ending about a shutdown
--
-- A call ends with a value, a Go error or a panic (Go/Run). Code that talks to the world passes
-- its state on explicitly (Go/Act); what was changed before an error stays changed. Loops run over
-- lists, by structural recursion; two run on fuel: run_worker, the loop of runWorker, for which
-- more of it than the queue has items is enough, and the loops of container/heap, which have the
-- length of the heap: each round halves or doubles an index, and the proofs about Push, Pop and
-- Remove cover that this is enough. A port is a ℤ, and parse_int refuses what does not fit into 32
-- bits, as strconv.ParseInt does with that size.
--
-- Parameters, since their code is not the program's: the Consul client, with the hypotheses of the
-- record Laws (nobody else writes to the store and leadership does not change while one operation
-- runs, a read returns what the store holds, a write sets one key, a recursive delete removes the
-- keys with the prefix, a write or delete that fails may have been applied, and the agent's list
-- of services has no nil pointer; a nil pointer that is there is dereferenced, and the call
-- panics) and, where a theorem says so, of Answers (every call succeeds); encoding/json, with the
-- hypothesis that it reads back what it wrote; the structure hash; the rendering of a key
-- template; sort.Sort; the informer's index; labels.Parse with the listing of nodes, which panics
-- for a selector that does not parse; client-go's work queue; equality of the queue's values and
-- the order of its priorities, with the hypotheses IsEquality and IsWeakOrder; the clock and
-- time.Parse; viper, with the hypotheses of the record Documented; what client-go, net, statsd.New
-- and the construction of a Consul client answer during a start.
--
-- A document is called current for a service when it is a JSON object with the service's hash as
-- its hash member: the program too compares hashes only, and the rest of such a document may
-- differ where hashes collide or the document was written by another version.
--
-- Not modelled: logs, the metrics that are sent from within main, the watchers, the elector and
-- the target, the locks of the queue (an operation is one step), the construction of an informer,
-- net/http and expvar, an error of LockOpts in Run of the elector. strings.TrimSpace knows only
-- ASCII white space here. A shared Service object is never changed by the program, so it is a
-- value; the only aliasing that matters, the tags that shouldUpdateService sorts in place, is
-- written out by returning the registration.
pub mod Base
pub mod Go
pub mod Kube
pub mod Util
pub mod Export
pub mod Stats
pub mod Consul
pub mod ExportTarget
pub mod Target
pub mod ServiceWatcher
pub mod NodeWatcher
pub mod Leader
pub mod Queue
pub mod Exporter
pub mod Server
pub mod Main
