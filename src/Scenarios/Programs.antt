-- ===== src/Scenarios/Programs.antt =====
-- The two programs, and the manager's controllers over one state.
use slinky_on_openshift.Prelude.{◌≡◌, refl, inr, ℕ, true, false, none, [], ◌∷◌, Bool}
use slinky_on_openshift.Prelude.Dict.{lookup}
use slinky_on_openshift.Exec.{not_found, ok, err}
use slinky_on_openshift.Utils.Pods.{key_func, is_terminating}
use slinky_on_openshift.SlurmControl.Status.{Json}
use slinky_on_openshift.SlurmControl.Drain.{is_node_drained}
use slinky_on_openshift.PodControl.Operations.{delete_nodeset_pod}
use slinky_on_openshift.NodeSetSync.ScaleIn.{ignoring_not_found, process_condemned}
use slinky_on_openshift.ClusterSync.{State, slurm_client_update, sync_request}
use slinky_on_openshift.Operator.Runtime.{CommandLine}
use slinky_on_openshift.Operator.Manager
use slinky_on_openshift.Operator.Webhook
use slinky_on_openshift.Operator.Runs.{Call, readyz}
use slinky_on_openshift.Operator.Shared.{Parts, set_up}
use slinky_on_openshift.Operator.Shared.Asked.{
  asked, is_node_drained-registered, process_condemned-unregistered,
}
use slinky_on_openshift.Scenarios.World.{a_nodeset, ready_pod, drained_node}
use slinky_on_openshift.Scenarios.Still.{
  a_still_reconciler, still_expectations, still_pods, still_revisions, still_slurm,
}
use slinky_on_openshift.Scenarios.Registry.{a_cluster, a_secret, servers, at_first}

abbrev no_flags : CommandLine
no_flags = record { text = λ name. none; bool = λ name. none; int = λ name. none }

-- the check of readiness cannot be added
abbrev fails_ready : Call → Bool
fails_ready (readyz name) = true
fails_ready _ = false

abbrev a_json : Json
a_json = record {
  to_string = λ info. "{}";
  parse = λ text. record { namespace = "ns"; pod_name = "a-0" };
}

abbrev the_parts : Parts (State (Unit {0}))
the_parts = record {
  pods = still_pods;
  revisions = still_revisions;
  fuel = 2;
  expectations = still_expectations;
  registry = λ s. s.clusters;
  connect = λ c. still_slurm drained_node;
  expand = λ text. none;
  json = a_json;
}

is_node_drained-registered_example :
    let client = servers (ok a_secret) in
    let s' = (slurm_client_update client a_cluster at_first).1 in
    (d : ℕ) × (client.get_server d ≡ "https://slurm")
    × (client.get_token d ≡ "jwt")
    × (asked client the_parts (λ s. refl) a_still_reconciler a_nodeset ready_pod s'
        ≡ is_node_drained (("ns/slurm", the_parts.connect d) ∷ []) a_nodeset ready_pod s')
unfolding key_func lookup
is_node_drained-registered_example =
    is_node_drained-registered (servers (ok a_secret)) the_parts (λ s. refl) a_still_reconciler
      a_nodeset ready_pod a_cluster a_secret 7 at_first tt tt refl refl refl refl refl

-- the secret is missing, and the pod is running and ready
process_condemned-unregistered_example :
    let s' = (sync_request (servers (err not_found)) "ns/slurm" at_first).1 in
    let deleted = delete_nodeset_pod still_pods a_nodeset ready_pod s' in
    process_condemned (set_up the_parts a_still_reconciler) a_nodeset ready_pod s'
    ≡ (ignoring_not_found deleted.0, deleted.1)
unfolding key_func is_terminating
process_condemned-unregistered_example =
    process_condemned-unregistered (servers (err not_found)) the_parts (λ s. refl)
      a_still_reconciler a_nodeset ready_pod at_first
      (inr (a_cluster, tt, refl, refl, inr (refl, refl))) refl
