-- ===== src/SlurmControl/Interface.antt =====
-- `SlurmControlInterface` and what fills it
-- (upstream/slurm-operator/internal/controller/nodeset/slurmcontrol/slurmcontrol.go).
use slinky_on_openshift.Prelude.{Bool, Option, List, String}
use slinky_on_openshift.Prelude.Dict.{Dict}
use slinky_on_openshift.Exec.{M}
use slinky_on_openshift.Kube.{NodeSet, Pod}
use slinky_on_openshift.Utils.TimeStore.{TimeStore}
use slinky_on_openshift.SlurmControl.Nodes.{SlurmClient}
use slinky_on_openshift.SlurmControl.Drain.{
  make_node_drain, make_node_undrain, is_node_drain, is_node_drained,
}
use slinky_on_openshift.SlurmControl.Status.{
  SlurmNodeStatus, Json, get_node_names, calculate_node_status, update_node_with_pod_info,
}
use slinky_on_openshift.SlurmControl.Deadlines.{get_node_deadlines}

pub record SlurmControlInterface (S : Type 0) : Type 0 where
  pub get_node_names : NodeSet → List Pod → M S (List String)
  pub calculate_node_status : NodeSet → List Pod → M S SlurmNodeStatus
  pub update_node_with_pod_info : NodeSet → Pod → M S (Unit {0})
  pub make_node_drain : NodeSet → Pod → String → M S (Unit {0})
  pub make_node_undrain : NodeSet → Pod → String → M S (Unit {0})
  pub is_node_drain : NodeSet → Pod → M S Bool
  pub is_node_drained : NodeSet → Pod → M S Bool
  pub get_node_deadlines : NodeSet → List Pod → M S TimeStore

-- `NewSlurmControl`, for the clients of the clusters
abbrev pub new_slurm_control :
    {S : Type 0}
    → (String → Option (List String))
    → Json
    → Dict (SlurmClient S)
    → SlurmControlInterface S
new_slurm_control expand json clusters = record {
  get_node_names = get_node_names clusters;
  calculate_node_status = calculate_node_status clusters;
  update_node_with_pod_info = update_node_with_pod_info clusters json;
  make_node_drain = make_node_drain clusters;
  make_node_undrain = make_node_undrain clusters;
  is_node_drain = is_node_drain clusters;
  is_node_drained = is_node_drained clusters;
  get_node_deadlines = get_node_deadlines expand clusters;
}
