-- ===== src/ClusterSync/Registered.antt =====
-- Which clients the registry has behind a sync of a Cluster
-- (upstream/slurm-operator/internal/controller/cluster/cluster_sync.go).
use slinky_on_openshift.Prelude.{
  ℕ, ◌+◌, ◌≡◌, refl, ap, ◌∙◌, true, false, ◌&&◌, Bool-cases, Option-cases, ◌⊎◌, inl, inr, none,
  some, String, arith, str_eq, eq_iff, if◌then◌else◌,
}
use slinky_on_openshift.Prelude.Dict.{Dict}
use slinky_on_openshift.Exec.{Error, not_found, Result, ok, err, panic}
use slinky_on_openshift.Kube.{Cluster, get_string}
use slinky_on_openshift.Utils.Pods.{key_func}
use slinky_on_openshift.Clusters
use slinky_on_openshift.Clusters.{Clusters, add_client, remove}
use slinky_on_openshift.Clusters.Running.{
  Reachable, adding, removing, starts, stops, names_of, starts-stops, get-add_client, get-remove,
}
use slinky_on_openshift.ClusterSync.{
  State, ClusterClient, cluster_key, is_terminating, slurm_client_delete, push_duration,
  is_unchanged, replaced, replace_client, with_secret, slurm_client_update, sync_cluster,
  ping_controller, sync_cluster_status, aggregated, with_status, sync_found, with_cluster,
  sync_request, reconcile,
}

-- the token that a secret holds
abbrev pub token_of : Dict String → String
token_of secret = get_string "auth-token" (some secret)

module _ {S : Type 0} (client : ClusterClient S) where
  delete-Reachable :
      (name : String) (s : State S)
      → Reachable s.clusters
      → Reachable (slurm_client_delete name s).clusters
  unfolding slurm_client_delete
  delete-Reachable name s h = removing name s.clusters h

  replaced-Reachable :
      (cluster : Cluster) (created : Result ℕ) (s : State S)
      → Reachable s.clusters
      → Reachable (replaced client cluster created s).1.clusters
  replaced-Reachable cluster panic s h = h
  replaced-Reachable cluster (err e) s h = h
  replaced-Reachable cluster (ok c) s h = adding (cluster_key cluster) c s.clusters h

  with_secret-Reachable :
      (cluster : Cluster) (secret : Result (Dict String)) (s : State S)
      → Reachable s.clusters
      → Reachable (with_secret client cluster secret s).1.clusters
  unfolding slurm_client_delete push_duration replace_client
  with_secret-Reachable cluster panic s h = h
  with_secret-Reachable cluster (err not_found) s h = removing (cluster_key cluster) s.clusters h
  with_secret-Reachable cluster (err e) s h = h
  with_secret-Reachable cluster (ok secret) s h =
      let token = get_string "auth-token" (some secret) in
      elim (is_unchanged client (Clusters.get (cluster_key cluster) s.clusters) cluster.server
          token)
        as (λ b.
          Reachable
            ((if b then (ok tt, s) else replace_client client cluster token s).1.clusters)) [
              | true ↦ h
              | false ↦ replaced-Reachable cluster _ _ h
            ]

  sync_cluster-Reachable :
      (cluster : Cluster) (s : State S)
      → Reachable s.clusters
      → Reachable (sync_cluster client cluster s).1.clusters
  unfolding sync_cluster slurm_client_update slurm_client_delete
  sync_cluster-Reachable cluster s h =
      elim (is_terminating cluster)
        as (λ b. Reachable (
          (if b
            then (ok tt, slurm_client_delete (cluster_key cluster) s)
            else slurm_client_update client cluster s).1.clusters)) [
              | true ↦ removing (cluster_key cluster) s.clusters h
              | false ↦ with_secret-Reachable cluster _ _ h
            ]

  -- a ping and the status leave the registry alone
  status-clusters :
      (cluster : Cluster) (s : State S)
      → (sync_cluster_status client cluster s).1.clusters ≡ s.clusters
  unfolding sync_cluster_status ping_controller push_duration
  status-clusters cluster s = ground arith

  aggregated-clusters :
      (e : Error) (r : Result (Unit {0}) × State S)
      → (aggregated client e r).1.clusters ≡ r.1.clusters
  aggregated-clusters e (panic, s) = refl
  aggregated-clusters e (ok u, s) = refl
  aggregated-clusters e (err e', s) = refl

  with_status-clusters :
      (cluster : Cluster) (synced : Result (Unit {0})) (s : State S)
      → (with_status client cluster synced s).1.clusters ≡ s.clusters
  with_status-clusters cluster panic s = refl
  with_status-clusters cluster (ok u) s = status-clusters cluster s
  with_status-clusters cluster (err e) s =
      aggregated-clusters e (sync_cluster_status client cluster s) ∙ status-clusters cluster s

  with_status-Reachable :
      (cluster : Cluster) (synced : Result (Unit {0})) (s : State S)
      → Reachable s.clusters
      → Reachable (with_status client cluster synced s).1.clusters
  with_status-Reachable cluster synced s h = rw (with_status-clusters cluster synced s) h

  with_cluster-Reachable :
      (request : String) (found : Result Cluster) (s : State S)
      → Reachable s.clusters
      → Reachable (with_cluster client request found s).1.clusters
  unfolding sync_found slurm_client_delete
  with_cluster-Reachable request panic s h = h
  with_cluster-Reachable request (err not_found) s h = removing request s.clusters h
  with_cluster-Reachable request (err e) s h = h
  with_cluster-Reachable request (ok cluster) s h =
      with_status-Reachable cluster (sync_cluster client cluster s).0
        (sync_cluster client cluster s).1 (sync_cluster-Reachable cluster s h)

  -- A reconcile, whatever the servers answer, takes a registry that adds and removes reach to one that
  -- they reach, and behind it each client was started as often as it was stopped and names have it.
  pub reconcile-Reachable :
      (namespace name : String) (s : State S) (x : ℕ)
      → Reachable s.clusters
      → let c = (reconcile client namespace name s).2.clusters in
        Reachable c × (starts x c.calls ≡ stops x c.calls + names_of x c.clients)
  unfolding reconcile sync_request
  reconcile-Reachable namespace name s x h =
      let reached =
        with_cluster-Reachable (key_func namespace name)
          (client.get_cluster (key_func namespace name) s.servers).0
          (record s { servers = (client.get_cluster (key_func namespace name) s.servers).1 }) h in
      (reached, starts-stops _ reached x)

  -- a client for the Cluster with its server and the token, and each other name as before
  abbrev pub Registers : Cluster → String → String → State S → Result (Unit {0}) × State S → Type 0
  Registers cluster token asked s p =
      (p.0 ≡ ok tt)
      × ((d : ℕ) × (client.get_server d ≡ cluster.server)
          × (client.get_token d ≡ token)
          × (Clusters.get asked p.1.clusters ≡ (
              if str_eq (cluster_key cluster) asked
              then some d
              else Clusters.get asked s.clusters)))

  replace_client-Registers :
      (cluster : Cluster) (tok asked : String) (c : ℕ) (s : State S) (w : S)
      → client.new_client cluster.server tok s.servers ≡ (ok c, w)
      → client.get_server c ≡ cluster.server
      → client.get_token c ≡ tok
      → Registers cluster tok asked s (replace_client client cluster tok s)
  unfolding replace_client
  replace_client-Registers cluster tok asked c s w new server token =
      rw new (refl, (c, server, token, get-add_client (cluster_key cluster) asked c s.clusters))

  kept-Registers :
      (cluster : Cluster) (tok asked : String) (d : ℕ) (s : State S)
      → Clusters.get (cluster_key cluster) s.clusters ≡ some d
      → (str_eq (client.get_server d) cluster.server && str_eq (client.get_token d) tok) ≡ true
      → Registers cluster tok asked s (ok tt, s)
  kept-Registers cluster tok asked d s there keep =
      let key = cluster_key cluster in
      (
        refl,
        (
          d,
          ground (arith, keep, eq_iff (client.get_server d) cluster.server),
          ground (arith, keep, eq_iff (client.get_token d) tok),
          ground (
            arith,
            there,
            eq_iff key asked,
            ap (λ (k : String). Clusters.get k s.clusters) {x = key} {y = asked},
          ),
        ),
      )

  -- For a Cluster whose secret is read, and a client that is created with the server and the token it
  -- is given: an update succeeds, the registry then has a client for the Cluster with the Cluster's
  -- server and the secret's token, and each other name has what it had.
  pub slurm_client_update-Registers :
      (cluster : Cluster) (secret : Dict String) (c : ℕ) (asked : String) (s : State S) (w1 w2 : S)
      → client.get_secret (key_func cluster.namespace cluster.secret_ref) s.servers
        ≡ (ok secret, w1)
      → client.new_client cluster.server (token_of secret) w1 ≡ (ok c, w2)
      → client.get_server c ≡ cluster.server
      → client.get_token c ≡ token_of secret
      → Registers cluster (token_of secret) asked s (slurm_client_update client cluster s)
  unfolding slurm_client_update
  slurm_client_update-Registers cluster secret c asked s w1 w2 read new server token =
      let key = cluster_key cluster in
      let s1 : State S = record s { servers = w1 } in
      let added : Registers cluster (token_of secret) asked s
          (replace_client client cluster (token_of secret) s1) =
        replace_client-Registers cluster (token_of secret) asked c s1 w2 new server token in
      elim (Option-cases (Clusters.get key s.clusters)) [
        | inl free ↦ rw (read, slurm_client_update, free) added
        | inr (d, there) ↦
            elim (Bool-cases (is_unchanged client (some d) cluster.server (token_of secret))) [
              | inl keep ↦
                  rw (read, slurm_client_update, there, keep)
                    (kept-Registers cluster (token_of secret) asked d s1 there keep)
              | inr other ↦ rw (read, slurm_client_update, there, other) added
            ]
      ]

  -- what makes a Cluster lose its client: it is gone, it is terminating, or its secret is missing
  abbrev pub Lost : String → S → Type 0
  Lost request w =
      ((client.get_cluster request w).0 ≡ err not_found)
      ⊎ ((cluster : Cluster) × (w1 : S) × (client.get_cluster request w ≡ (ok cluster, w1))
          × (cluster_key cluster ≡ request)
          × ((is_terminating cluster ≡ true)
              ⊎ ((is_terminating cluster ≡ false)
                  × ((client.get_secret (key_func cluster.namespace cluster.secret_ref) w1).0
                      ≡ err not_found))))

  -- The sync of a Cluster that is gone or terminating, or whose secret is missing, takes its client
  -- from the registry, and each other name has what it had.
  pub sync_request-unregisters :
      (request asked : String) (s : State S)
      → Lost request s.servers
      → Clusters.get asked (sync_request client request s).1.clusters
        ≡ (if str_eq request asked then none else Clusters.get asked s.clusters)
  unfolding sync_request sync_found sync_cluster slurm_client_update slurm_client_delete
      push_duration
  sync_request-unregisters request asked s (inl gone) =
      rw gone (get-remove request asked s.clusters)
  sync_request-unregisters request asked s (inr (cluster, w1, found, same, inl terminating)) =
      rw (found, with_status-clusters cluster _ _, terminating, same)
        (get-remove request asked s.clusters)
  sync_request-unregisters request asked s (inr (cluster, w1, found, same, inr (alive, missing))) =
      rw (found, with_status-clusters cluster _ _, alive, missing, same)
        (get-remove request asked s.clusters)
