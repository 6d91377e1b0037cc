-- ===== src/Admission/Cluster.antt =====
-- What admission refuses of a Cluster
-- (upstream/slurm-operator/api/v1alpha1/cluster_webhook.go). It fills in nothing and never warns.
use slinky_on_openshift.Prelude.{
  ◌≡◌, ◌↔◌, not, ◌&&◌, true, Option, none, List, [], ◌∷◌, ◌++◌, arith, if◌then◌else◌,
}
use slinky_on_openshift.Exec.{Error, message, new_aggregate}
use slinky_on_openshift.Strconv.{is_empty}
use slinky_on_openshift.Kube.{Cluster}

unfoldable pub validate_cluster : Cluster → List Error
validate_cluster cluster =
    (if is_empty cluster.server then message "`Cluster.Spec.Server` cannot be empty" ∷ [] else [])
    ++ (if is_empty cluster.secret_ref
        then message "`Cluster.Spec.Token.SecretRef` cannot be empty" ∷ []
        else [])

unfoldable pub validate_create : Cluster → Option Error
unfolding validate_cluster
validate_create cluster = new_aggregate (validate_cluster cluster)

unfoldable pub validate_update : (new_cluster old_cluster : Cluster) → Option Error
unfolding validate_cluster
validate_update new_cluster old_cluster = new_aggregate (validate_cluster new_cluster)

-- A new Cluster, and an update whatever it changes, is accepted exactly if it has a server and a
-- secret.
pub validate-accepts :
    (new_cluster old_cluster : Cluster)
    → ((validate_create new_cluster ≡ none)
        ↔ ((not (is_empty new_cluster.server) && not (is_empty new_cluster.secret_ref)) ≡ true))
      × ((validate_update new_cluster old_cluster ≡ none)
          ↔ ((not (is_empty new_cluster.server) && not (is_empty new_cluster.secret_ref)) ≡ true))
unfolding validate_create validate_update
validate-accepts new_cluster old_cluster =
    ((ground (arith), ground (arith)), (ground (arith), ground (arith)))
