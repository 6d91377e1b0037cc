-- ===== src/PodControl/Interface.antt =====
-- `PodControlInterface` and what fills it
-- (upstream/slurm-operator/internal/controller/nodeset/podcontrol/podcontrol.go).
use slinky_on_openshift.Prelude.{Bool}
use slinky_on_openshift.Exec.{M}
use slinky_on_openshift.Kube.{NodeSet, Pod}
use slinky_on_openshift.PodControl.Claims.{
  pod_pvcs_match_retention_policy, update_pod_pvcs_for_retention_policy, is_pod_pvcs_stale,
}
use slinky_on_openshift.PodControl.Operations.{
  PodClient, create_nodeset_pod, update_nodeset_pod, delete_nodeset_pod,
}

pub record PodControlInterface (S : Type 0) : Type 0 where
  pub create_nodeset_pod : NodeSet → Pod → M S (Unit {0})
  pub update_nodeset_pod : NodeSet → Pod → M S (Unit {0})
  pub delete_nodeset_pod : NodeSet → Pod → M S (Unit {0})
  pub pod_pvcs_match_retention_policy : NodeSet → Pod → M S Bool
  pub update_pod_pvcs_for_retention_policy : NodeSet → Pod → M S (Unit {0})
  pub is_pod_pvcs_stale : NodeSet → Pod → M S Bool

-- `NewPodControl`
abbrev pub new_pod_control : {S : Type 0} → PodClient S → PodControlInterface S
new_pod_control client = record {
  create_nodeset_pod = create_nodeset_pod client;
  update_nodeset_pod = update_nodeset_pod client;
  delete_nodeset_pod = delete_nodeset_pod client;
  pod_pvcs_match_retention_policy = pod_pvcs_match_retention_policy client.claims;
  update_pod_pvcs_for_retention_policy =
      update_pod_pvcs_for_retention_policy client.claims client.new_controller_ref;
  is_pod_pvcs_stale = is_pod_pvcs_stale client.claims client.order;
}
