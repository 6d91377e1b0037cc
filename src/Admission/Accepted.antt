-- ===== src/Admission/Accepted.antt =====
-- What admission accepts (upstream/slurm-operator/api/v1alpha1/nodeset_webhook.go).
use slinky_on_openshift.Prelude.{
  ◌≡◌, ◌↔◌, Bool, true, false, not, ◌&&◌, Option, none, some, List, String, arith, eq_iff,
}
use slinky_on_openshift.Prelude.Int.{ℤ}
use slinky_on_openshift.Strconv.{is_empty}
use slinky_on_openshift.Kube.{
  Pod, NodeSet, Library, UpdateStrategyType, rolling_update, on_delete, no_strategy,
  RetentionPolicyType, RetentionPolicy, retain, delete_claims,
}
use slinky_on_openshift.Admission.{
  default_nodeset, validate_nodeset, validate_create, validate_update,
}
use slinky_on_openshift.NodeSetSync.Update.{split_update_pods}

abbrev is_known_strategy : UpdateStrategyType → Bool
is_known_strategy rolling_update = true
is_known_strategy on_delete = true
is_known_strategy _ = false

abbrev is_known_policy : RetentionPolicyType → Bool
is_known_policy retain = true
is_known_policy delete_claims = true
is_known_policy _ = false

abbrev are_known : Option RetentionPolicy → Bool
are_known none = true
are_known (some policy) = is_known_policy policy.when_deleted && is_known_policy policy.when_scaled

-- what a NodeSet is accepted for: a service, and a strategy and policies that the operator knows
pub is_valid : NodeSet → Bool
is_valid nodeset =
    not (is_empty nodeset.service_name)
    && is_known_strategy nodeset.update_strategy
    && are_known nodeset.retention_policy

-- A new NodeSet is accepted exactly if it is valid, and an update exactly if the new NodeSet is
-- valid and has the cluster and the service of the old one.
pub validate-is_valid :
    (new_nodeset old_nodeset : NodeSet)
    → ((validate_create new_nodeset ≡ none) ↔ (is_valid new_nodeset ≡ true))
      × ((validate_update new_nodeset old_nodeset ≡ none) ↔ (
          (is_valid new_nodeset ≡ true)
          × (new_nodeset.cluster_name ≡ old_nodeset.cluster_name)
          × (new_nodeset.service_name ≡ old_nodeset.service_name)))
unfolding validate_create validate_update is_valid validate_nodeset
validate-is_valid new_nodeset old_nodeset = (
  (ground (arith), ground (arith)),
  (
    ground (
      arith,
      eq_iff new_nodeset.cluster_name old_nodeset.cluster_name,
      eq_iff new_nodeset.service_name old_nodeset.service_name,
    ),
    ground (
      arith,
      eq_iff new_nodeset.cluster_name old_nodeset.cluster_name,
      eq_iff new_nodeset.service_name old_nodeset.service_name,
    ),
  ),
)

-- For a NodeSet with a service, without an update strategy and with no or known policies: admission
-- makes the strategy a rolling update and accepts it, and the reconciler then panics at the limit of
-- the rolling update that is not there, on any pods.
pub split_update_pods-of_default :
    (nodeset : NodeSet) (k : Library) (sort : (Pod → Pod → Bool) → List Pod → List Pod) (now : ℤ)
    (pods : List Pod) (hash : String)
    → is_empty nodeset.service_name ≡ false
    → nodeset.update_strategy ≡ no_strategy
    → nodeset.rolling_update_max_unavailable ≡ none
    → are_known nodeset.retention_policy ≡ true
    → (validate_create (default_nodeset nodeset) ≡ none)
      × (split_update_pods k sort (default_nodeset nodeset) now pods hash ≡ none)
unfolding validate_create default_nodeset split_update_pods validate_nodeset
split_update_pods-of_default nodeset k sort now pods hash service strategy limit known = (
  ground (arith, service, strategy, limit, known),
  ground (arith, service, strategy, limit, known),
)
