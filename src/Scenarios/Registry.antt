-- ===== src/Scenarios/Registry.antt =====
-- The theorems on the reconciler of Clusters, at a Cluster `ns/slurm` whose client is number 7.
use slinky_on_openshift.Prelude.{
  ◌+◌, ◌≡◌, refl, inr, true, none, some, [], ◌∷◌, String, str_eq, if◌then◌else◌,
}
use slinky_on_openshift.Prelude.Dict.{Dict, lookup}
use slinky_on_openshift.Exec.{not_found, Result, ok, err}
use slinky_on_openshift.Kube.{Cluster}
use slinky_on_openshift.Utils.Pods.{key_func}
use slinky_on_openshift.Utils.KeyedStore.{new_store, greater}
use slinky_on_openshift.Clusters
use slinky_on_openshift.Clusters.{new_clusters}
use slinky_on_openshift.Clusters.Running.{Reachable, new, starts, stops, names_of}
use slinky_on_openshift.ClusterSync.{
  State, ClusterClient, requeue_ready_time, slurm_client_update, sync_request, update_status,
  reconcile,
}
use slinky_on_openshift.ClusterSync.Registered.{
  Registers, reconcile-Reachable, slurm_client_update-Registers, sync_request-unregisters,
}
use slinky_on_openshift.ClusterSync.Requeued.{reconcile-late}

abbrev pub a_cluster : Cluster
a_cluster = record {
  name = "slurm";
  namespace = "ns";
  deletion_timestamp = none;
  server = "https://slurm";
  secret_ref = "token";
  status = record { is_ready = true; conditions = [] };
}

abbrev pub a_secret : Dict String
a_secret = ("auth-token", "jwt") ∷ []

-- servers without a state, with the secret as given
abbrev pub servers : Result (Dict String) → ClusterClient (Unit {0})
servers secret = record {
  get_cluster = λ key w. (ok a_cluster, w);
  list_clusters = λ w. (ok (a_cluster ∷ []), w);
  get_secret = λ key w. (secret, w);
  update_status = λ cluster w. (ok tt, w);
  retry_on_conflict = λ m. m;
  new_client = λ server token w. (ok 7, w);
  get_server = λ c. "https://slurm";
  get_token = λ c. "jwt";
  list_pings = λ c w. (ok (some "UP" ∷ []), w);
  set_event_handler = λ c w. w;
}

abbrev pub at_first : State (Unit {0})
at_first = record { clusters = new_clusters; durations = new_store greater; servers = tt }

reconcile-Reachable_example :
    let c = (reconcile (servers (ok a_secret)) "ns" "slurm" at_first).2.clusters in
    Reachable c × (starts 7 c.calls ≡ stops 7 c.calls + names_of 7 c.clients)
reconcile-Reachable_example =
    reconcile-Reachable (servers (ok a_secret)) "ns" "slurm" at_first 7 new

slurm_client_update-Registers_example :
    Registers
      (servers (ok a_secret))
      a_cluster
      "jwt"
      "ns/slurm"
      at_first
      (slurm_client_update (servers (ok a_secret)) a_cluster at_first)
unfolding lookup
slurm_client_update-Registers_example =
    slurm_client_update-Registers (servers (ok a_secret)) a_cluster a_secret 7 "ns/slurm" at_first
      tt tt refl refl refl refl

-- the secret is missing
sync_request-unregisters_example :
    let client = servers (err not_found) in
    Clusters.get "ns/slurm" (sync_request client "ns/slurm" at_first).1.clusters
    ≡ (if str_eq "ns/slurm" "ns/slurm" then none else Clusters.get "ns/slurm" at_first.clusters)
unfolding key_func
sync_request-unregisters_example =
    sync_request-unregisters (servers (err not_found)) "ns/slurm" "ns/slurm" at_first
      (inr (a_cluster, tt, refl, refl, inr (refl, refl)))

reconcile-late_example :
    (reconcile (servers (err not_found)) "ns" "slurm" at_first).1 ≡ requeue_ready_time
unfolding update_status lookup
reconcile-late_example =
    reconcile-late (servers (err not_found)) "ns" "slurm" a_cluster at_first tt tt tt refl refl refl
      refl refl refl refl
