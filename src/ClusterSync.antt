-- ===== src/ClusterSync.antt =====
-- The reconciler of Clusters, which keeps a Slurm client for each
-- (upstream/slurm-operator/internal/controller/cluster: cluster_controller.go, cluster_sync.go,
-- cluster_sync_status.go and slurmcontrol/slurmcontrol.go).
pub mod Registered
pub mod Requeued
use slinky_on_openshift.Prelude.{
  ℕ, Bool, true, false, not, ◌&&◌, ◌||◌, Option, none, some, List, [], ◌∷◌, String, str_eq,
  if◌then◌else◌,
}
use slinky_on_openshift.Prelude.Dict.{Dict}
use slinky_on_openshift.Prelude.Int.{ℤ, pos}
use slinky_on_openshift.Exec.{
  Error, not_found, message, single, also, Result, ok, err, panic, M, pure, raise, ◌>>=◌, ◌>>◌,
}
use slinky_on_openshift.Kube.{Cluster, ClusterStatus, get_string}
use slinky_on_openshift.Utils.Pods.{key_func}
use slinky_on_openshift.Utils.KeyedStore.{KeyedStore, push, pop}
use slinky_on_openshift.Clusters
use slinky_on_openshift.Clusters.{Clusters, add_client, remove}
use slinky_on_openshift.SlurmControl.Client.{tolerate_error}

-- What the reconciler keeps, beside the state of the servers: the registry of clients, and the
-- package's `durationStore`.
pub record State (S : Type 0) : Type 0 where
  pub clusters : Clusters
  pub durations : KeyedStore
  pub servers : S

-- The API server, `slurmclient.NewClient` with what its clients give back of their configuration,
-- the list of pings that a client reads, and the handler that `SetEventHandler` gives to a client.
-- A secret is its data.
pub record ClusterClient (S : Type 0) : Type 0 where
  pub get_cluster : String → M S Cluster
  pub list_clusters : M S (List Cluster)
  pub get_secret : String → M S (Dict String)
  pub update_status : Cluster → M S (Unit {0})
  pub retry_on_conflict : M S (Unit {0}) → M S (Unit {0})
  pub new_client : (server token : String) → M S ℕ
  pub get_server : ℕ → String
  pub get_token : ℕ → String
  pub list_pings : ℕ → M S (List (Option String))
  pub set_event_handler : ℕ → S → S

abbrev pub cluster_key : Cluster → String
cluster_key cluster = key_func cluster.namespace cluster.name

-- 10 and 30 seconds, in nanoseconds
abbrev pub requeue_secret_time : ℤ
requeue_secret_time = pos 10000000000

abbrev pub requeue_ready_time : ℤ
requeue_ready_time = pos 30000000000

abbrev pub is_terminating : Cluster → Bool
is_terminating cluster = elim cluster.deletion_timestamp [ none ↦ false | some t ↦ true ]

module _ {S : Type 0} where
  -- a call of the servers
  abbrev pub served : {A : Type 0} → M S A → M (State S) A
  served m s = let (res, servers) = m s.servers in (res, record s { servers = servers })

  unfoldable pub slurm_client_delete : String → State S → State S
  slurm_client_delete name s = record s { clusters = (remove name s.clusters).1 }

  unfoldable pub push_duration : Cluster → ℤ → State S → State S
  push_duration cluster d s = record s { durations = push (cluster_key cluster) d s.durations }

module _ {S : Type 0} (client : ClusterClient S) where
  -- a client that is there and has the server and the token
  abbrev pub is_unchanged : Option ℕ → String → String → Bool
  is_unchanged none server token = false
  is_unchanged (some c) server token =
      str_eq (client.get_server c) server && str_eq (client.get_token c) token

  -- a client that cannot be created is no error
  abbrev pub replaced : Cluster → Result ℕ → M (State S) (Unit {0})
  replaced cluster panic s = (panic, s)
  replaced cluster (err e) s = (ok tt, s)
  replaced cluster (ok c) s = (
    ok tt,
    record s {
      servers = client.set_event_handler c s.servers;
      clusters = (add_client (cluster_key cluster) c s.clusters).1;
    },
  )

  unfoldable pub replace_client : Cluster → (token : String) → M (State S) (Unit {0})
  replace_client cluster token s =
      let (created, s1) = served (client.new_client cluster.server token) s in
      replaced cluster created s1

  -- behind the read of the secret
  abbrev pub with_secret : Cluster → Result (Dict String) → M (State S) (Unit {0})
  with_secret cluster panic s = (panic, s)
  with_secret cluster (err not_found) s = (
    ok tt,
    slurm_client_delete (cluster_key cluster) (push_duration cluster requeue_secret_time s),
  )
  with_secret cluster (err e) s = (err e, s)
  with_secret cluster (ok secret) s =
      let token = get_string "auth-token" (some secret) in
      if is_unchanged (Clusters.get (cluster_key cluster) s.clusters) cluster.server token
      then (ok tt, s)
      else replace_client cluster token s

  unfoldable pub slurm_client_update : Cluster → M (State S) (Unit {0})
  unfolding slurm_client_delete push_duration replace_client
  slurm_client_update cluster s =
      let (secret, s1) =
        served (client.get_secret (key_func cluster.namespace cluster.secret_ref)) s in
      with_secret cluster secret s1

  unfoldable pub sync_cluster : Cluster → M (State S) (Unit {0})
  unfolding slurm_client_delete slurm_client_update
  sync_cluster cluster s =
      if is_terminating cluster
      then (ok tt, slurm_client_delete (cluster_key cluster) s)
      else slurm_client_update cluster s

  -- the `switch` of the loop over the pings
  abbrev pub is_up : List (Option String) → Bool
  is_up [] = false
  is_up (none ∷ pings) = is_up pings
  is_up (some text ∷ pings) = str_eq text "UP" || is_up pings

  unfoldable pub ping_controller : Cluster → M (State S) Bool
  unfolding tolerate_error
  ping_controller cluster s = elim (Clusters.get (cluster_key cluster) s.clusters) [
    | none ↦ (ok false, s)
    | some c ↦
        let (pings, s1) = served (client.list_pings c) s in
        elim pings [
          | panic ↦ (panic, s1)
          | err e ↦ ((if tolerate_error (some e) then ok false else err e), s1)
          | ok l ↦ (ok (is_up l), s1)
        ]
  ]

  -- the function that is retried
  unfoldable pub update_cluster_status : Cluster → ClusterStatus → M S (Unit {0})
  update_cluster_status cluster new_status = client.retry_on_conflict λ s.
      let (found, s1) = client.get_cluster (cluster_key cluster) s in
      elim found [
        | panic ↦ (panic, s1)
        | err not_found ↦ (ok tt, s1)
        | err e ↦ (err e, s1)
        | ok to_update ↦ client.update_status (record to_update { status = new_status }) s1
      ]

  abbrev pub inconsistent_status : Cluster → ClusterStatus → Bool
  inconsistent_status cluster status =
      if status.is_ready then not cluster.status.is_ready else cluster.status.is_ready

  unfoldable pub update_status : Cluster → ClusterStatus → M S (Unit {0})
  unfolding update_cluster_status
  update_status cluster status =
      if not (inconsistent_status cluster status)
      then pure tt
      else update_cluster_status cluster status

  -- a ping that fails is none
  abbrev pub ready_of : Result Bool → Option Bool
  ready_of (ok b) = some b
  ready_of (err e) = some false
  ready_of panic = none

  abbrev pub with_update : Cluster → Bool → Result (Unit {0}) → M (State S) (Unit {0})
  with_update cluster is_ready panic s = (panic, s)
  with_update cluster is_ready (err e) s = (err (message "error updating Cluster status"), s)
  with_update cluster is_ready (ok _) s =
      (ok tt, (if is_ready then s else push_duration cluster requeue_ready_time s))

  abbrev pub with_ping : Cluster → Option Bool → M (State S) (Unit {0})
  with_ping cluster none s = (panic, s)
  with_ping cluster (some is_ready) s =
      let (updated, s1) =
        served (update_status cluster (record cluster.status { is_ready = is_ready })) s in
      with_update cluster is_ready updated s1

  unfoldable pub sync_cluster_status : Cluster → M (State S) (Unit {0})
  unfolding ping_controller update_status push_duration
  sync_cluster_status cluster s =
      let (pinged, s1) = ping_controller cluster s in with_ping cluster (ready_of pinged) s1

  -- the error of the sync, with that of the status behind it
  abbrev pub aggregated : Error → Result (Unit {0}) × State S → Result (Unit {0}) × State S
  aggregated e (panic, s) = (panic, s)
  aggregated e (ok _, s) = (err (single e), s)
  aggregated e (err e', s) = (err (also e (single e')), s)

  -- the status is synced whatever the result
  abbrev pub with_status : Cluster → Result (Unit {0}) → M (State S) (Unit {0})
  with_status cluster panic s = (panic, s)
  with_status cluster (ok _) s = sync_cluster_status cluster s
  with_status cluster (err e) s = aggregated e (sync_cluster_status cluster s)

  unfoldable pub sync_found : Cluster → M (State S) (Unit {0})
  unfolding sync_cluster sync_cluster_status
  sync_found cluster s = let (synced, s1) = sync_cluster cluster s in with_status cluster synced s1

  abbrev pub with_cluster : String → Result Cluster → M (State S) (Unit {0})
  with_cluster request panic s = (panic, s)
  with_cluster request (err not_found) s = (ok tt, slurm_client_delete request s)
  with_cluster request (err e) s = (err e, s)
  with_cluster request (ok cluster) s = sync_found cluster s

  unfoldable pub sync_request : String → M (State S) (Unit {0})
  unfolding sync_found slurm_client_delete
  sync_request request s =
      let (found, s1) = served (client.get_cluster request) s in with_cluster request found s1

  -- `Reconcile`: the result, `RequeueAfter`, and the state. The deferred `Pop` has the namespace for
  -- its key.
  unfoldable pub reconcile : (namespace name : String) → State S → Result (Unit {0}) × ℤ × State S
  unfolding sync_request
  reconcile namespace name s =
      let request = key_func namespace name in
      let (res, s1) = sync_request request s in
      let (after, durations) = pop request s1.durations in
      (res, after, record s1 { durations = (pop namespace durations).1 })

  abbrev pub is_referenced : (namespace name : String) → Cluster → Bool
  is_referenced namespace name cluster =
      str_eq namespace cluster.namespace && str_eq name cluster.secret_ref

  -- the loop over the clusters
  abbrev pub requests : Bool → (namespace name : String) → List Cluster → List String
  requests is_deleted namespace name [] = []
  requests is_deleted namespace name (cluster ∷ clusters) =
      let rest = requests is_deleted namespace name clusters in
      if not is_deleted && not (is_referenced namespace name cluster)
      then rest
      else cluster_key cluster ∷ rest

  abbrev pub is_missing : Result (Dict String) → Bool
  is_missing (err not_found) = true
  is_missing _ = false

  unfoldable pub enqueue_requests_for_secrets : (namespace name : String) → S → List String × S
  enqueue_requests_for_secrets namespace name s =
      let (secret, s1) = client.get_secret (key_func namespace name) s in
      let (listed, s2) = client.list_clusters s1 in
      elim listed [
        | ok clusters ↦ (requests (is_missing secret) namespace name clusters, s2)
        | _ ↦ ([], s2)
      ]
