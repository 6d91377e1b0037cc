-- ===== src/Scenarios/Settled.antt =====
-- A NodeSet of one pod that runs on a Slurm node in service.
use slinky_on_openshift.Prelude.{none, some, List, String, [], ◌∷◌}
use slinky_on_openshift.Prelude.Int.{pos}
use slinky_on_openshift.Prelude.Dict.{Dict}
use slinky_on_openshift.Exec.{ok}
use slinky_on_openshift.Kube.{Pod, NodeSet, int_value}
use slinky_on_openshift.Naming.{update_identity, update_storage}
use slinky_on_openshift.SlurmControl.Nodes.{Node, idle, SlurmClient}
use slinky_on_openshift.SlurmControl.Status.{Json}
use slinky_on_openshift.NodeSetSync.ScaleIn.Busy.{composed}
use slinky_on_openshift.NodeSetSync.Reconciler.{Reconciler}
use slinky_on_openshift.PodControl.Operations.{PodClient}
use slinky_on_openshift.NodeSetSync.Process.Settled.{Settled}
use slinky_on_openshift.Scenarios.World.{a_nodeset, ready_pod, drained_node}
use slinky_on_openshift.Scenarios.Still.{
  a_still_reconciler, still_expectations, still_pods, still_slurm,
}

abbrev one_replica : NodeSet
one_replica = record a_nodeset {
  replicas = some (pos 1);
  rolling_update_max_unavailable = some (some (int_value (pos 1)));
}

abbrev idle_node : Node
idle_node = record drained_node { state = idle ∷ []; reason = none }

abbrev settled_pod : Pod
settled_pod = update_storage one_replica (update_identity one_replica ready_pod)

abbrev no_json : Json
no_json = record {
  to_string = λ info. "";
  parse = λ text. record { namespace = ""; pod_name = "" };
}

-- a server keeps the calls that write, the latest first
abbrev logging_reconciler : Reconciler (List String)
logging_reconciler = record a_still_reconciler {
  kube = record a_still_reconciler.kube { patch_pod = λ pod from calls. (ok tt, "patch" ∷ calls) };
  expectations = record still_expectations {
    set_expectations = λ key calls. (ok tt, "set" ∷ calls);
  };
}

abbrev logging_pods : PodClient (List String)
logging_pods = record still_pods {
  create_pod = λ pod calls. (ok tt, "create" ∷ calls);
  delete_pod = λ namespace name calls. (ok tt, "delete" ∷ calls);
  update_pod = λ pod calls. (ok tt, "update" ∷ calls);
}

abbrev clusters : Dict (SlurmClient (List String))
clusters = ("ns/slurm", still_slurm idle_node) ∷ []

abbrev own : Reconciler (List String)
own = composed logging_reconciler (λ text. none) no_json clusters logging_pods
