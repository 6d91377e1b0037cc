-- ===== src/PodControl/Operations.antt =====
-- Create, delete and update a pod of a NodeSet
-- (upstream/slurm-operator/internal/controller/nodeset/podcontrol/podcontrol.go, with `CreateThisPod`
-- and `DeletePod` of upstream/slurm-operator/internal/utils/podcontrol/podcontrol.go).
pub mod Written
pub mod Counted
use slinky_on_openshift.Prelude.{
  Bool, true, false, not, ◌&&◌, Option, none, some, List, [], ◌∷◌, String, if◌then◌else◌,
}
use slinky_on_openshift.Prelude.Dict.{Dict}
use slinky_on_openshift.Exec.{
  Error, not_found, already_exists, is_namespace_terminating, message, Result, ok, err, panic, M,
}
use slinky_on_openshift.Kube.{OwnerReference, Pod, Claim, NodeSet}
use slinky_on_openshift.Naming.{
  is_identity_match, update_identity, is_storage_match, update_storage,
}
use slinky_on_openshift.PodControl.Owners.{Owner}
use slinky_on_openshift.PodControl.Claims.{
  ClaimClient, create_persistent_volume_claims, pod_pvcs_match_retention_policy,
  update_pod_pvcs_for_retention_policy,
}

-- What an event on a pod is about: `eventCreate`, `eventDelete` and `eventUpdate`.
pub data Verb : Type 0 where
  creating deleting updating : Verb

-- The API server's pods and claims, the events on them, `metav1.NewControllerRef`, the order in
-- which a map of claims is walked through, and `retry.RetryOnConflict(retry.DefaultBackoff, _)` on a
-- function that has a pod and a flag of its own.
pub record PodClient (S : Type 0) : Type 0 where
  pub claims : ClaimClient S
  pub create_pod : Pod → M S (Unit {0})
  pub delete_pod : String → String → M S (Unit {0})
  pub update_pod : Pod → M S (Unit {0})
  pub get_pod : String → String → M S Pod
  pub record_pod_event : Verb → NodeSet → Pod → Result (Unit {0}) → S → S
  pub record_failed_create : NodeSet → Error → S → S
  pub record_created : NodeSet → Pod → S → S
  pub record_failed_delete : NodeSet → Error → S → S
  pub record_deleted : NodeSet → String → S → S
  pub new_controller_ref : Owner → OwnerReference
  pub order : Dict Claim → Dict Claim
  pub retry_on_conflict : M (Pod × Bool × S) (Unit {0}) → M (Pod × Bool × S) (Unit {0})

abbrev pub no_labels : Option (Dict String) → Bool
no_labels none = true
no_labels (some []) = true
no_labels (some (l ∷ ls)) = false

unfoldable pub with_storage : NodeSet → Pod → Pod
unfolding is_storage_match update_storage
with_storage nodeset pod = if is_storage_match nodeset pod then pod else update_storage nodeset pod

unfoldable pub with_identity : NodeSet → Pod → Pod
unfolding is_identity_match update_identity
with_identity nodeset pod =
    if is_identity_match nodeset pod then pod else update_identity nodeset pod

module _ {S : Type 0} (client : PodClient S) where
  unfoldable pub create_this_pod : Pod → NodeSet → M S (Unit {0})
  create_this_pod pod nodeset s =
      if no_labels pod.labels
      then (err (message "unable to create pods, no labels"), s)
      else let (res, s1) = client.create_pod pod s in
        elim res [
          | panic ↦ (panic, s1)
          | ok _ ↦ (ok tt, client.record_created nodeset pod s1)
          | err e ↦ (
            err e,
            (if is_namespace_terminating e then s1 else client.record_failed_create nodeset e s1),
          )
        ]

  unfoldable pub delete_this_pod : String → String → NodeSet → M S (Unit {0})
  delete_this_pod namespace name nodeset s =
      let (res, s1) = client.delete_pod namespace name s in
      elim res [
        | panic ↦ (panic, s1)
        | ok _ ↦ (ok tt, client.record_deleted nodeset name s1)
        | err not_found ↦ (err not_found, s1)
        | err e ↦ (err (message "unable to delete pods"), client.record_failed_delete nodeset e s1)
      ]

  unfoldable pub delete_nodeset_pod : NodeSet → Pod → M S (Unit {0})
  unfolding delete_this_pod
  delete_nodeset_pod nodeset pod s =
      let (res, s1) = delete_this_pod pod.namespace pod.name nodeset s in
      (res, client.record_pod_event deleting nodeset pod res s1)

  -- behind the creation of the pod: the policy of its claims, also if the creation failed
  abbrev pub set_policy : NodeSet → Pod → Result (Unit {0}) → M S (Unit {0})
  set_policy nodeset pod created s =
      let (res, s1) =
        update_pod_pvcs_for_retention_policy client.claims client.new_controller_ref nodeset pod
          s in
      elim res [
        | panic ↦ (panic, s1)
        | err e ↦ (err e, client.record_pod_event updating nodeset pod (err e) s1)
        | ok _ ↦ (created, client.record_pod_event creating nodeset pod created s1)
      ]

  unfoldable pub create_nodeset_pod : NodeSet → Pod → M S (Unit {0})
  unfolding create_this_pod create_persistent_volume_claims update_pod_pvcs_for_retention_policy
  create_nodeset_pod nodeset pod s =
      let (res, s1) = create_persistent_volume_claims client.claims client.order nodeset pod s in
      elim res [
        | panic ↦ (panic, s1)
        | err e ↦ (err e, client.record_pod_event creating nodeset pod (err e) s1)
        | ok _ ↦
            let (created, s2) = create_this_pod pod nodeset s1 in
            elim created [
              | panic ↦ (panic, s2)
              | err already_exists ↦ (err already_exists, s2)
              | err e ↦ set_policy nodeset pod (err e) s2
              | ok _ ↦ set_policy nodeset pod (ok tt) s2
            ]
      ]

  -- `r.Update(ctx, pod)`; behind an error, the next attempt starts from the pod on the server
  unfoldable pub commit : NodeSet → Pod → S → Result (Unit {0}) × (Pod × Bool × S)
  commit nodeset pod s =
      let (updated, s1) = client.update_pod pod s in
      elim updated [
        | panic ↦ (panic, (pod, true, s1))
        | ok _ ↦ (ok tt, (pod, true, s1))
        | err e ↦
            let (res, s2) = client.get_pod nodeset.namespace pod.name s1 in
            elim res [
              | panic ↦ (panic, (pod, true, s2))
              | err _ ↦ (err e, (pod, true, s2))
              | ok fresh ↦ (err e, (fresh, true, s2))
            ]
      ]

  -- from the claims on, for a pod that has its identity and its storage; `write` commits it
  unfoldable pub keep_claims :
      (S → Result (Unit {0}) × (Pod × Bool × S))
      → NodeSet
      → (consistent : Bool) → M (Pod × Bool × S) (Unit {0})
  unfolding pod_pvcs_match_retention_policy update_pod_pvcs_for_retention_policy
  keep_claims write nodeset consistent (pod, attempted, s) =
      let (matched, s1) = pod_pvcs_match_retention_policy client.claims nodeset pod s in
      elim matched [
        | panic ↦ (panic, (pod, attempted, s1))
        | err e ↦ (err e, (pod, attempted, client.record_pod_event updating nodeset pod (err e) s1))
        | ok true ↦ if consistent then (ok tt, (pod, attempted, s1)) else write s1
        | ok false ↦
            let (updated, s2) =
              update_pod_pvcs_for_retention_policy client.claims client.new_controller_ref nodeset
                pod s1 in
            elim updated [
              | panic ↦ (panic, (pod, attempted, s2))
              | err e ↦
                  (err e, (pod, attempted, client.record_pod_event updating nodeset pod (err e) s2))
              | ok _ ↦ write s2
            ]
      ]

  -- the function that is retried; `write` commits the pod that it comes to
  unfoldable pub attempt_with :
      (S → Result (Unit {0}) × (Pod × Bool × S)) → NodeSet → M (Pod × Bool × S) (Unit {0})
  unfolding keep_claims with_storage with_identity create_persistent_volume_claims
  attempt_with write nodeset (given, attempted, s) =
      let identified = with_identity nodeset given in
      let pod = with_storage nodeset identified in
      if is_storage_match nodeset identified
      then keep_claims write nodeset (is_identity_match nodeset given) (pod, attempted, s)
      else let (created, s1) =
          create_persistent_volume_claims client.claims client.order nodeset pod s in
        elim created [
          | panic ↦ (panic, (pod, attempted, s1))
          | err e ↦
              (err e, (pod, attempted, client.record_pod_event updating nodeset pod (err e) s1))
          | ok _ ↦ keep_claims write nodeset false (pod, attempted, s1)
        ]

  unfoldable pub attempt : NodeSet → M (Pod × Bool × S) (Unit {0})
  unfolding commit attempt_with with_storage with_identity
  attempt nodeset (given, attempted, s) =
      attempt_with (commit nodeset (with_storage nodeset (with_identity nodeset given))) nodeset
        (given, attempted, s)

  unfoldable pub update_nodeset_pod : NodeSet → Pod → M S (Unit {0})
  unfolding attempt
  update_nodeset_pod nodeset pod s =
      let (res, last) = client.retry_on_conflict (attempt nodeset) (pod, false, s) in
      let (written, attempted, s1) = last in
      (res, (if attempted then client.record_pod_event updating nodeset written res s1 else s1))
