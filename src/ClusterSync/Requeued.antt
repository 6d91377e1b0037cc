-- ===== src/ClusterSync/Requeued.antt =====
-- Which Clusters are reconciled again, and when
-- (upstream/slurm-operator/internal/controller/cluster: cluster_controller.go, cluster_sync.go and
-- cluster_sync_status.go).
use text.Mathlib.TextPositions.{eq_refl}
use slinky_on_openshift.Prelude.{
  ◌≡◌, refl, ap, ◌∙◌, ◌⊎◌, Bool, true, false, none, some, List, [], ◌∷◌, String, map, All,
}
use slinky_on_openshift.Prelude.Dict.{Dict, lookup}
use slinky_on_openshift.Exec.{not_found, ok, err}
use slinky_on_openshift.Kube.{Cluster}
use slinky_on_openshift.Utils.Pods.{key_func}
use slinky_on_openshift.Utils.KeyedStore.{KeyedStore, greater, push, pop, value_of, held}
use slinky_on_openshift.Utils.KeyedStore.Latest.{push_all, latest, lookup-push_all}
use slinky_on_openshift.Clusters.Running.{get-remove}
use slinky_on_openshift.ClusterSync.{
  State, ClusterClient, cluster_key, is_terminating, requeue_secret_time, requeue_ready_time,
  slurm_client_delete, push_duration, slurm_client_update, sync_cluster, ping_controller,
  update_status, sync_cluster_status, sync_found, sync_request, reconcile,
}

-- of two pushes for a key that has none, the longer is popped
pop-both :
    (key : String) (d : KeyedStore)
    → d.eval ≡ greater
    → lookup key d.entries ≡ none
    → (pop key (push key requeue_ready_time (push key requeue_secret_time d))).0
      ≡ requeue_ready_time
unfolding pop push_all latest
pop-both key d greater' absent =
    let l = (key, requeue_secret_time) ∷ (key, requeue_ready_time) ∷ [] in
    let stored : lookup key (push_all l d).entries ≡ some (held requeue_ready_time) =
      lookup-push_all l key d greater' ∙ rw (absent, eq_refl key) refl in
    ap value_of stored

module _ {S : Type 0} (client : ClusterClient S) where
  -- the registry has no client for the Cluster once it is removed, so that no ping is made
  unpinged :
      (cluster : Cluster) (s : State S)
      → ping_controller client cluster (slurm_client_delete (cluster_key cluster) s)
        ≡ (ok false, slurm_client_delete (cluster_key cluster) s)
  unfolding ping_controller slurm_client_delete
  unpinged cluster s =
      let key = cluster_key cluster in
      rw (get-remove key key s.clusters, ping_controller, eq_refl key) refl

  -- For a Cluster that is not terminating, whose secret is missing and whose status can be written:
  -- a reconcile asks to be called again after the 30 seconds of a Cluster that is not ready, not after
  -- the 10 seconds of the missing secret.
  pub reconcile-late :
      (namespace name : String) (cluster : Cluster) (s : State S) (w1 w2 w3 : S)
      → client.get_cluster (key_func namespace name) s.servers ≡ (ok cluster, w1)
      → cluster_key cluster ≡ key_func namespace name
      → is_terminating cluster ≡ false
      → client.get_secret (key_func cluster.namespace cluster.secret_ref) w1 ≡ (err not_found, w2)
      → update_status client cluster (record cluster.status { is_ready = false }) w2 ≡ (ok tt, w3)
      → s.durations.eval ≡ greater
      → lookup (key_func namespace name) s.durations.entries ≡ none
      → (reconcile client namespace name s).1 ≡ requeue_ready_time
  unfolding reconcile sync_request sync_found sync_cluster slurm_client_update sync_cluster_status
      push_duration slurm_client_delete
  reconcile-late namespace name cluster s w1 w2 w3 found same alive missing written greater'
        absent =
      let pushed : State S =
        push_duration cluster requeue_secret_time (record s { servers = w2 }) in
      rw found (
        rw (alive, missing)
          (rw (unpinged cluster pushed, written)
            (rw same (pop-both (key_func namespace name) s.durations greater' absent))))

  abbrev pub Requested : String → List String → Type 0
  Requested key [] = ⊥
  Requested key (k ∷ keys) = (k ≡ key) ⊎ Requested key keys

  abbrev pub Listed : Cluster → List Cluster → Type 0
  Listed cluster [] = ⊥
  Listed cluster (c ∷ clusters) = (c ≡ cluster) ⊎ Listed cluster clusters

  -- the cluster is in the secret's namespace, and its reference is the secret's name
  abbrev pub Refers : (namespace name : String) → Cluster → Type 0
  Refers namespace name cluster = (cluster.namespace ≡ namespace) × (cluster.secret_ref ≡ name)

  -- all the clusters, or only such as refer to the secret
  abbrev pub NoOthers : Bool → String → String → List Cluster → List String → Type 0
  NoOthers true namespace name clusters keys = keys ≡ map cluster_key clusters
  NoOthers false namespace name clusters keys =
      All (λ key. (c : Cluster) × (key ≡ cluster_key c) × Refers namespace name c) keys
