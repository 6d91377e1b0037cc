-- ===== src/Admission.antt =====
-- upstream/slurm-operator/api/v1alpha1/nodeset_webhook.go: what admission fills in and what it
-- refuses. It never warns.
pub mod Accepted
pub mod Cluster
use slinky_on_openshift.Prelude.{
  Bool, true, false, not, Option, none, some, List, [], ◌∷◌, ◌++◌, String, str_eq, if◌then◌else◌,
}
use slinky_on_openshift.Prelude.Int.{pos}
use slinky_on_openshift.Exec.{Error, message, new_aggregate}
use slinky_on_openshift.Strconv.{is_empty}
use slinky_on_openshift.Kube.{
  NodeSet, UpdateStrategyType, rolling_update, on_delete, no_strategy, RetentionPolicyType, retain,
  delete_claims,
}

abbrev strategy_or_default : UpdateStrategyType → UpdateStrategyType
strategy_or_default no_strategy = rolling_update
strategy_or_default t = t

unfoldable pub default_nodeset : NodeSet → NodeSet
default_nodeset nodeset = record nodeset {
  revision_history_limit = elim nodeset.revision_history_limit [
    | none ↦ some (pos 0)
    | some n ↦ some n
  ];
  update_strategy = strategy_or_default nodeset.update_strategy;
}

abbrev strategy_errors : UpdateStrategyType → List Error
strategy_errors rolling_update = []
strategy_errors on_delete = []
strategy_errors _ = message "`NodeSet.Spec.UpdateStrategy.Type` is not valid" ∷ []

abbrev policy_errors : (text : String) → RetentionPolicyType → List Error
policy_errors text retain = []
policy_errors text delete_claims = []
policy_errors text _ = message text ∷ []

unfoldable pub validate_nodeset : NodeSet → List Error
validate_nodeset nodeset =
    (if is_empty nodeset.service_name
      then message "`NodeSet.Spec.ServiceName` cannot be empty" ∷ []
      else [])
    ++ strategy_errors nodeset.update_strategy
    ++ elim nodeset.retention_policy [
      | none ↦ []
      | some policy ↦
          policy_errors
            "`NodeSet.Spec.PersistentVolumeClaimRetentionPolicy.WhenDeleted` is not valid"
            policy.when_deleted
          ++ policy_errors
              "`NodeSet.Spec.PersistentVolumeClaimRetentionPolicy.WhenScaled` is not valid"
              policy.when_scaled
    ]

unfoldable pub validate_create : NodeSet → Option Error
unfolding validate_nodeset
validate_create nodeset = new_aggregate (validate_nodeset nodeset)

unfoldable pub validate_update : (new_nodeset old_nodeset : NodeSet) → Option Error
unfolding validate_nodeset
validate_update new_nodeset old_nodeset = new_aggregate (
    validate_nodeset new_nodeset
    ++ (if not (str_eq new_nodeset.cluster_name old_nodeset.cluster_name)
        then message "updates to `NodeSet.Spec.ClusterName` is forbidden" ∷ []
        else [])
    ++ (if not (str_eq new_nodeset.service_name old_nodeset.service_name)
        then message "updates to `NodeSet.Spec.ServiceName` is forbidden" ∷ []
        else []))
