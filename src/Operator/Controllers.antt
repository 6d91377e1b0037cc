-- ===== src/Operator/Controllers.antt =====
-- `SetupWithManager` of the two controllers
-- (upstream/slurm-operator/internal/controller/cluster/cluster_controller.go and
-- upstream/slurm-operator/internal/controller/nodeset/nodeset_controller.go).
use slinky_on_openshift.Prelude.{Bool, [], ◌∷◌, if◌then◌else◌}
use slinky_on_openshift.Prelude.Int.{ℤ, pos}
use slinky_on_openshift.Exec.{message, M, raise}
use slinky_on_openshift.Operator.Runtime.{
  CommandLine, or_default, Controller, Runtime, for_clusters, for_nodesets, owned_pods,
  watched_pods, watched_secrets, event_channel,
}

-- the flags of `init`, with 1 for their defaults
abbrev pub cluster_workers : CommandLine → ℤ
cluster_workers line = or_default (line.int "cluster-workers") (pos 1)

abbrev pub nodeset_workers : CommandLine → ℤ
nodeset_workers line = or_default (line.int "nodeset-workers") (pos 1)

abbrev pub cluster_controller : CommandLine → Controller
cluster_controller line = record {
  name = "cluster-controller";
  sources = for_clusters ∷ watched_secrets ∷ [];
  max_concurrent_reconciles = cluster_workers line;
}

abbrev pub nodeset_controller : CommandLine → Controller
nodeset_controller line = record {
  name = "nodeset-controller";
  sources = for_nodesets ∷ owned_pods ∷ watched_pods ∷ event_channel ∷ [];
  max_concurrent_reconciles = nodeset_workers line;
}

module _ {S : Type 0} (runtime : Runtime S) (line : CommandLine) where
  -- for a channel that is nil or not
  unfoldable pub set_up_cluster : (has_event_ch : Bool) → M S (Unit {0})
  set_up_cluster has_event_ch =
      if has_event_ch
      then runtime.complete (cluster_controller line)
      else raise (message "EventCh cannot be nil")

  abbrev pub set_up_nodeset : M S (Unit {0})
  set_up_nodeset = runtime.complete (nodeset_controller line)
