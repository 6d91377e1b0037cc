-- ===== src/SlurmControl/Drain.antt =====
-- Draining a Slurm node and taking it back
-- (upstream/slurm-operator/internal/controller/nodeset/slurmcontrol/slurmcontrol.go).
pub mod Reasons
use slinky_on_openshift.Prelude.{
  Bool, true, false, not, ◌&&◌, ◌||◌, Option, none, some, String, str_eq, if◌then◌else◌,
}
use Prim.Native.String.{◌++◌ as str_append}
use slinky_on_openshift.Prelude.Dict.{Dict}
use slinky_on_openshift.Exec.{M, pure, Result, ok, err, panic}
use slinky_on_openshift.Strconv.{is_empty, contains}
use slinky_on_openshift.Kube.{NodeSet, Pod}
use slinky_on_openshift.SlurmControl.Nodes.{
  Node, drain, undrain, idle, down, has_state, UpdateNodeMsg, SlurmClient,
}
use slinky_on_openshift.SlurmControl.Client.{
  tolerate_error, tolerate, tolerating, lookup_client, with_node,
}

abbrev pub node_reason_prefix : String
node_reason_prefix = "slurm-operator:"

abbrev pub with_prefix : String → String
with_prefix reason = str_append node_reason_prefix (String.◌∷◌ " " reason)

abbrev pub reason_of : Node → String
reason_of node = elim node.reason [ none ↦ "" | some r ↦ r ]

-- The operator may take the node back: it is in DRAIN and not already in UNDRAIN, and the reason
-- is empty or the operator's own.
unfoldable pub may_undrain : Node → Bool
may_undrain node =
    if not (has_state node drain) || has_state node undrain
    then false
    else if not (is_empty (reason_of node)) && not (contains (reason_of node) node_reason_prefix)
    then false
    else true

module _ {S : Type 0} (clusters : Dict (SlurmClient S)) where
  unfoldable pub make_node_drain : NodeSet → Pod → String → M S (Unit {0})
  unfolding lookup_client tolerate_error
  make_node_drain nodeset pod reason = with_node clusters tt nodeset pod λ client node.
      tolerating tt (
        client.update_node node
          (record { comment = none; state = some drain; reason = some (with_prefix reason) }))

  unfoldable pub make_node_undrain : NodeSet → Pod → String → M S (Unit {0})
  unfolding lookup_client tolerate_error may_undrain
  make_node_undrain nodeset pod reason = with_node clusters tt nodeset pod λ client node.
      if may_undrain node
      then tolerating tt (
          client.update_node node
            (record { comment = none; state = some undrain; reason = some (with_prefix reason) }))
      else pure tt

  unfoldable pub is_node_drain : NodeSet → Pod → M S Bool
  unfolding lookup_client tolerate_error
  is_node_drain nodeset pod =
      with_node clusters true nodeset pod λ client node. pure (has_state node drain)

  unfoldable pub is_node_drained : NodeSet → Pod → M S Bool
  unfolding lookup_client tolerate_error
  is_node_drained nodeset pod =
      with_node clusters true nodeset pod
        λ client node. pure ((has_state node idle || has_state node down) && has_state node drain)
