-- ===== src/Lib.antt =====
-- The Slurm operator (upstream/slurm-operator): the controller that keeps the pods of a NodeSet,
-- each of which is a Slurm node, at the number and the revision that are wanted, and that drains
-- the Slurm node of a pod before it deletes the pod. In the files named below, internal/ stands
-- for upstream/slurm-operator/internal/.
--
-- * NodeSetSync is the reconciler (internal/controller/nodeset/nodeset_controller.go,
--   nodeset_sync.go, nodeset_sync_status.go and nodeset_history.go). NodeSetSync.Reconciler has
--   what it holds: the controls, the expectations, the API server and the duration store, each a
--   record of operations over one state. Cordon has the marks on a pod and syncSlurm; ScaleOut,
--   ScaleIn and Process have syncNodeSet and what it calls, with syncs in a row in
--   Process.Converge, where pods are missing, and Process.Shrink, where there are too many, and a
--   NodeSet that is as wanted in Process.AsWanted; Update has the rolling update, with its limit
--   in Update.Budget and what the limit does not count in Update.Unlimited; Status and History
--   have the files of these names, and Patch what a revision keeps of a NodeSet; Sync has Sync and
--   Reconcile.
-- * SlurmControl is internal/controller/nodeset/slurmcontrol/slurmcontrol.go, the Slurm nodes
--   behind the pods: draining (Drain), the counts of states (Status), the ends of running jobs
--   (Deadlines) and the interface that they fill (Interface).
-- * PodControl is internal/controller/nodeset/podcontrol/podcontrol.go with the create and the
--   delete of internal/utils/podcontrol/podcontrol.go: the owner references of claims (Owners),
--   the claims of a pod (Claims), the operations on a pod (Operations), the pod of a template
--   (Templates) and the interface that they fill (Interface).
-- * HistoryControl is internal/utils/historycontrol/historycontrol.go, the revisions on the
--   server: what a create leaves there (Created), and which revisions are adopted, released and
--   renumbered (Controlled). HistoryControl.Interface fills the record of operations that the
--   reconciler takes, and NodeSetSync.History.Stored joins the two; History.Unchanged has a
--   NodeSet that is changed outside its template.
-- * EventHandler is internal/controller/nodeset/nodeset_eventhandler.go, the events of pods and
--   Slurm nodes: Wakes has which NodeSets they put in the queue, Owner whose expectations they
--   lower, and Updates what an update is made of, and Objects what an event may carry besides a
--   pod. NodeSetSync.ScaleOut.Expected joins it to the scale-out, whose expectations it lowers,
--   and NodeSetSync.ScaleOut.Composed to the pod control that the operator has.
-- * ClusterSync is internal/controller/cluster, the reconciler of Clusters, which fills the
--   registry: Registered has the clients behind a sync, Requeued which Clusters are reconciled
--   again and when.
-- * Clusters is internal/resources/clusters.go, the registry of Slurm clients: Running has which
--   clients run. SlurmControl takes the registry as a map.
-- * Naming and Sort are utils.go and sort.go of internal/controller/nodeset/utils: names, identity
--   and storage of pods, and which of them go first.
-- * Admission is upstream/slurm-operator/api/v1alpha1/nodeset_webhook.go, what is filled in and
--   refused before the reconciler sees a NodeSet. Accepted has which NodeSets pass, and Cluster is
--   cluster_webhook.go beside it.
-- * Utils is internal/utils: Batch is SlowStartBatch of tools.go, KeyedStore is durationstore,
--   TimeStore is timestore, which has the same text, Math is math.go, and Pods is pod.go, map.go,
--   meta.go and historycontrol/utils.go with api/v1alpha1/well_known.go.
-- * Kube has the resources in the fields that the operator reads or writes
--   (api/v1alpha1/nodeset_types.go for its own), and Strconv what the code uses of Go's strconv
--   and strings.
-- * Operator is cmd/manager/main.go and cmd/webhook/main.go under upstream/slurm-operator: the
--   flags, what the two programs ask of the controller runtime (Manager, Webhook), what
--   SetupWithManager of the two controllers asks of it (Controllers), and the calls in order
--   (Runs). Operator.Shared has the two controllers over one state, in which the Slurm control of
--   the NodeSets reads the registry that the reconciler of Clusters fills, and Shared.Asked which
--   client a NodeSet then asks.
-- * Exec has the effects: a function from a state to a result and a state, where what was written
--   before an error stays written, and a panic is an outcome of its own. Prelude has maps,
--   integers, tests and lists. Scenarios has the theorems at concrete inputs.
--
-- A reconcile reads the NodeSet, its revisions and its pods, passes deadlines and cordons on to
-- Slurm and back, then scales or updates, and writes the status in the end. Every list of pods is
-- worked through by SlowStartBatch, whose goroutines run in an order that is a parameter; each
-- call is one step, so a call's own reads and writes are not interleaved with another's.
--
-- Numbers are natural or signed integers without a bound where the code's int cannot overflow,
-- which are counts and positions in lists of pods. Where a product can overflow, in the time limit
-- of a job, the int64 wrap-around is written out. An ordinal is read as an int32 and is -1 if it
-- does not fit. Times are nanoseconds since Go's zero time.
--
-- Four loops have fuel. SlowStartBatch has one round for each call that is left, and each round
-- makes at least one. The search for a free ordinal has one round for each used ordinal, and each
-- round passes one. Printing a number has one round for each unit of the number. The create of a
-- revision has one round for each name that it tries, and needs one more than there are
-- collisions; the code's loop has no bound.
--
-- Kubernetes' own packages, the Slurm client, the expansion of host lists, the text of JSON and
-- Go's sort, time formats and clock are parameters. The API server is a record of operations whose
-- results are arbitrary; a theorem on a reconcile therefore holds for every behaviour of the
-- server. A NodeSet without a selector is refused at admission, and the claims of such a NodeSet
-- are modelled as if the selector were empty. Fields that no modelled code reads or writes are
-- left out, and so are logging and the texts of events.
--
-- An update that UpdateNodeSetPod makes to its pod in place stays within it: the steps behind it
-- in the same sync go on with the pods as they were listed.
--
-- Not modelled: the generated deep copies; and of the programs the logging, the scheme and the
-- signals.
pub mod Prelude
pub mod Exec
pub mod Strconv
pub mod Kube
pub mod Utils
pub mod Naming
pub mod Sort
pub mod PodControl
pub mod SlurmControl
pub mod NodeSetSync
pub mod Admission
pub mod Clusters
pub mod ClusterSync
pub mod EventHandler
pub mod HistoryControl
pub mod Scenarios
pub mod Operator
