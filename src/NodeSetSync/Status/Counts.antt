-- ===== src/NodeSetSync/Status/Counts.antt =====
-- The replica counts of a NodeSet's status agree
-- (upstream/slurm-operator/internal/controller/nodeset/nodeset_sync_status.go).
use slinky_on_openshift.Prelude.{ℕ, ◌≤◌}
use slinky_on_openshift.NodeSetSync.Status.{ReplicaStatus}

-- What holds of the counts over a number of pods.
pub record Agree (n : ℕ) (status : ReplicaStatus) : Type 0 where
  pub available-le : status.available ≤ status.ready
  pub ready-le : status.ready ≤ status.replicas
  pub current-le : status.current ≤ status.replicas
  pub updated-le : status.updated ≤ status.replicas
  pub replicas-le : status.replicas ≤ n
