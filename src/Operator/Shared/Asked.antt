-- ===== src/Operator/Shared/Asked.antt =====
-- Which Slurm client a scale-in asks behind a sync of the Cluster
-- (upstream/slurm-operator/internal/controller: cluster/cluster_sync.go, nodeset/nodeset_sync.go and
-- nodeset/slurmcontrol/slurmcontrol.go).
use text.Mathlib.TextPositions.{eq_refl}
use slinky_on_openshift.Prelude.{
  ℕ, ◌≡◌, refl, ap, ◌∙◌, Bool, true, false, Option, none, some, [], ◌∷◌, String, arith,
}
use slinky_on_openshift.Prelude.Dict.{Dict, lookup}
use slinky_on_openshift.Exec.{ok, Result}
use slinky_on_openshift.Kube.{Cluster, NodeSet, Pod}
use slinky_on_openshift.Utils.Pods.{key_func, is_terminating}
use slinky_on_openshift.Clusters
use slinky_on_openshift.Clusters.{Clusters}
use slinky_on_openshift.SlurmControl.Nodes.{SlurmClient}
use slinky_on_openshift.SlurmControl.Client.{lookup_client}
use slinky_on_openshift.SlurmControl.Drain.{is_node_drained}
use slinky_on_openshift.NodeSetSync.Reconciler.{Reconciler}
use slinky_on_openshift.NodeSetSync.ScaleIn.{ignoring_not_found, process_condemned}
use slinky_on_openshift.PodControl.Operations.{delete_nodeset_pod}
use slinky_on_openshift.ClusterSync.{
  State, ClusterClient, cluster_key, slurm_client_update, sync_request,
}
use slinky_on_openshift.ClusterSync.Registered.{
  token_of, Lost, sync_request-unregisters, slurm_client_update-Registers,
}
use slinky_on_openshift.Operator.Shared.{Parts, connected, set_up}

module _ {S : Type 0} where
  -- the client that a name has, if it has one
  abbrev connection : (ℕ → SlurmClient S) → Option ℕ → Option (SlurmClient S)
  connection connect none = none
  connection connect (some client) = some (connect client)

  lookup-connected :
      (connect : ℕ → SlurmClient S) (name : String) (clients : Dict ℕ)
      → lookup name (connected connect clients) ≡ connection connect (lookup name clients)
  unfolding lookup connected
  lookup-connected connect name [] = refl
  lookup-connected connect name ((other, client) ∷ clients) =
      ground (arith, lookup-connected connect name clients)

is_node_drained-lookup :
    {S : Type 0} (nodeset : NodeSet) (pod : Pod) (s : S) (a b : Dict (SlurmClient S))
    → lookup (key_func nodeset.namespace nodeset.cluster_name) a
      ≡ lookup (key_func nodeset.namespace nodeset.cluster_name) b
    → is_node_drained a nodeset pod s ≡ is_node_drained b nodeset pod s
unfolding is_node_drained lookup_client
is_node_drained-lookup nodeset pod s a b same = ground (arith, same)

process_condemned-drained :
    {S : Type 0} (r : Reconciler S) (nodeset : NodeSet) (pod : Pod) (s : S)
    → is_terminating pod ≡ false
    → r.slurm_control.is_node_drained nodeset pod s ≡ (ok true, s)
    → let deleted = r.pod_control.delete_nodeset_pod nodeset pod s in
      process_condemned r nodeset pod s ≡ (ignoring_not_found deleted.0, deleted.1)
unfolding process_condemned
process_condemned-drained r nodeset pod s alive drained = ground (arith, alive, drained)

module _ {S : Type 0} (cluster_client : ClusterClient S) (parts : Parts (State S))
    (shares : (s : State S) → parts.registry s ≡ s.clusters) (r : Reconciler (State S))
    (nodeset : NodeSet) (pod : Pod) where
  abbrev cluster_of : String
  cluster_of = key_func nodeset.namespace nodeset.cluster_name

  lookup-shared :
      (s : State S)
      → lookup cluster_of (connected parts.connect (parts.registry s).clients)
        ≡ connection parts.connect (Clusters.get cluster_of s.clusters)
  unfolding Clusters.get
  lookup-shared s =
      lookup-connected parts.connect cluster_of (parts.registry s).clients
      ∙ ap (λ (c : Clusters). connection parts.connect (lookup cluster_of c.clients)) (shares s)

  abbrev pub asked : State S → Result Bool × State S
  asked s = (set_up parts r).slurm_control.is_node_drained nodeset pod s

  -- a client of the Cluster is asked as if it were the only one
  asked-registered :
      (c : ℕ) (s : State S)
      → Clusters.get cluster_of s.clusters ≡ some c
      → asked s ≡ is_node_drained ((cluster_of, parts.connect c) ∷ []) nodeset pod s
  unfolding lookup
  asked-registered c s there =
      let only : some (parts.connect c) ≡ lookup cluster_of ((cluster_of, parts.connect c) ∷ []) =
        rw (eq_refl cluster_of) refl in
      is_node_drained-lookup nodeset pod s (connected parts.connect (parts.registry s).clients)
        ((cluster_of, parts.connect c) ∷ [])
        (lookup-shared s ∙ ap (connection parts.connect) there ∙ only)

  asked-unregistered :
      (s : State S) → Clusters.get cluster_of s.clusters ≡ none → asked s ≡ (ok true, s)
  unfolding is_node_drained lookup
  asked-unregistered s gone =
      is_node_drained-lookup nodeset pod s (connected parts.connect (parts.registry s).clients) []
        (lookup-shared s ∙ ap (connection parts.connect) gone)

  -- For a Cluster whose secret is read, and a client that is created with the server and the token it
  -- is given: behind an update of the Cluster's client, the Slurm control of a NodeSet of the Cluster
  -- asks a client that has the Cluster's server and the secret's token, whichever client it asked
  -- before.
  pub is_node_drained-registered :
      (cluster : Cluster) (secret : Dict String) (c : ℕ) (s : State S) (w1 w2 : S)
      → cluster_key cluster ≡ cluster_of
      → cluster_client.get_secret (key_func cluster.namespace cluster.secret_ref) s.servers
        ≡ (ok secret, w1)
      → cluster_client.new_client cluster.server (token_of secret) w1 ≡ (ok c, w2)
      → cluster_client.get_server c ≡ cluster.server
      → cluster_client.get_token c ≡ token_of secret
      → let s' = (slurm_client_update cluster_client cluster s).1 in
        (d : ℕ) × (cluster_client.get_server d ≡ cluster.server)
        × (cluster_client.get_token d ≡ token_of secret)
        × (asked s' ≡ is_node_drained ((cluster_of, parts.connect d) ∷ []) nodeset pod s')
  is_node_drained-registered cluster secret c s w1 w2 same read new server token =
      let s' = (slurm_client_update cluster_client cluster s).1 in
      let (fine, (d, has_server, has_token, there)) =
        slurm_client_update-Registers cluster_client cluster secret c cluster_of s w1 w2 read new
          server token in
      let found : Clusters.get cluster_of s'.clusters ≡ some d =
        there ∙ rw (same, eq_refl cluster_of) refl in
      (d, has_server, has_token, asked-registered d s' found)

  -- Behind the sync of a Cluster that is gone or terminating, or whose secret is missing: a scale-in
  -- of a NodeSet of the Cluster deletes each condemned pod that is not terminating, also one that is
  -- running and ready, and asks no Slurm server for its node.
  pub process_condemned-unregistered :
      (s : State S)
      → Lost cluster_client cluster_of s.servers
      → is_terminating pod ≡ false
      → let s' = (sync_request cluster_client cluster_of s).1 in
        let deleted = delete_nodeset_pod parts.pods nodeset pod s' in
        process_condemned (set_up parts r) nodeset pod s'
        ≡ (ignoring_not_found deleted.0, deleted.1)
  process_condemned-unregistered s lost alive =
      let s' = (sync_request cluster_client cluster_of s).1 in
      let gone : Clusters.get cluster_of s'.clusters ≡ none =
        sync_request-unregisters cluster_client cluster_of cluster_of s lost
        ∙ rw (eq_refl cluster_of) refl in
      process_condemned-drained (set_up parts r) nodeset pod s' alive (asked-unregistered s' gone)
