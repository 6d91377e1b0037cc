-- ===== src/PodControl/Claims.antt =====
-- The claims of a pod: created with it, and kept to the retention policy
-- (upstream/slurm-operator/internal/controller/nodeset/podcontrol/podcontrol.go).
pub mod Match
pub mod Calm
use slinky_on_openshift.Prelude.{
  Bool, true, false, not, Option, none, some, List, [], ◌∷◌, ◌++◌, String, if◌then◌else◌,
}
use slinky_on_openshift.Prelude.Dict.{Dict}
use slinky_on_openshift.Prelude.Int.{ℤ}
use slinky_on_openshift.Exec.{
  Error, not_found, message, Result, ok, err, panic, M, pure, ◌>>=◌, ◌>>◌, new_aggregate,
}
use slinky_on_openshift.Kube.{OwnerReference, Pod, Claim, NodeSet}
use slinky_on_openshift.Naming.{
  get_ordinal, get_persistent_volume_claim_name, get_persistent_volume_claims,
}
use slinky_on_openshift.PodControl.Owners.{
  Owner, pod_owner, has_stale_owner_ref, is_retain, get_retention_policy, has_unexpected_controller,
  is_claim_owner_up_to_date, update_claim_owner_ref,
}

-- The API server's claims, by namespace and name, and the events on them.
pub record ClaimClient (S : Type 0) : Type 0 where
  pub get_claim : String → String → M S Claim
  pub create_claim : Claim → M S (Unit {0})
  pub update_claim : Claim → M S (Unit {0})
  pub record_claim_event : NodeSet → Pod → Claim → Error → S → S
  pub record_conflicting_controller : NodeSet → String → S → S

module _ {S : Type 0} (client : ClaimClient S) where
  -- The errors of the loop so far. The order of the claims is that of a Go map, which `order` gives.
  pub create_claims : NodeSet → Pod → Dict Claim → List Error → S → Result (List Error) × S
  create_claims nodeset pod [] errs s = (ok errs, s)
  create_claims nodeset pod ((key, claim) ∷ claims) errs s =
      let (res, s1) = client.get_claim nodeset.namespace claim.name s in
      elim res [
        | panic ↦ (panic, s1)
        | err not_found ↦
            let (created, s2) = client.create_claim claim s1 in
            let s3 = client.record_claim_event nodeset pod claim not_found s2 in
            elim created [
              | panic ↦ (panic, s2)
              | ok _ ↦ create_claims nodeset pod claims errs s3
              | err e ↦
                  create_claims nodeset pod claims (errs ++ message "failed to create PVC" ∷ []) s3
            ]
        | err e ↦
            create_claims nodeset pod claims (errs ++ message "failed to retrieve PVC" ∷ [])
              (client.record_claim_event nodeset pod claim e s1)
        | ok pvc ↦ elim pvc.deletion_timestamp [
          | none ↦ create_claims nodeset pod claims errs s1
          | some t ↦
              create_claims nodeset pod claims (errs ++ message "pvc is being deleted" ∷ []) s1
        ]
      ]

  abbrev pub aggregated : Option Error → Result (Unit {0})
  aggregated none = ok tt
  aggregated (some e) = err e

  unfoldable pub create_persistent_volume_claims :
      (Dict Claim → Dict Claim) → NodeSet → Pod → M S (Unit {0})
  unfolding create_claims
  create_persistent_volume_claims order nodeset pod =
      create_claims nodeset pod (order (get_persistent_volume_claims nodeset pod)) [] >>= λ errs s.
      (aggregated (new_aggregate errs), s)

  -- the loops over the claim templates
  unfoldable pub claims_match : NodeSet → Pod → List Claim → M S Bool
  unfolding is_claim_owner_up_to_date
  claims_match nodeset pod [] s = (ok true, s)
  claims_match nodeset pod (template ∷ templates) s =
      let name = get_persistent_volume_claim_name nodeset template (get_ordinal pod) in
      let (res, s1) = client.get_claim nodeset.namespace name s in
      elim res [
        | panic ↦ (panic, s1)
        | err not_found ↦ claims_match nodeset pod templates s1
        | err e ↦ (err (message "could not retrieve claim"), s1)
        | ok claim ↦ elim (is_claim_owner_up_to_date claim nodeset pod) [
          | false ↦ (ok false, s1)
          | true ↦ claims_match nodeset pod templates s1
        ]
      ]

  unfoldable pub pod_pvcs_match_retention_policy : NodeSet → Pod → M S Bool
  unfolding claims_match
  pod_pvcs_match_retention_policy nodeset pod =
      claims_match nodeset pod nodeset.volume_claim_templates

  module _ (new_controller_ref : Owner → OwnerReference) where
    -- a claim that the server has
    unfoldable pub update_claim : NodeSet → Pod → Claim → M S (Unit {0})
    unfolding has_unexpected_controller is_claim_owner_up_to_date update_claim_owner_ref
    update_claim nodeset pod claim s =
        let s1 =
          if has_unexpected_controller claim nodeset pod
          then client.record_conflicting_controller nodeset claim.name s
          else s in
        if is_claim_owner_up_to_date claim nodeset pod
        then (ok tt, s1)
        else client.update_claim (update_claim_owner_ref new_controller_ref claim nodeset pod) s1

    -- an error of the server is wrapped, so its kind is kept
    unfoldable pub update_claims : NodeSet → Pod → List Claim → M S (Unit {0})
    unfolding update_claim
    update_claims nodeset pod [] s = (ok tt, s)
    update_claims nodeset pod (template ∷ templates) s =
        let name = get_persistent_volume_claim_name nodeset template (get_ordinal pod) in
        let (res, s1) = client.get_claim nodeset.namespace name s in
        elim res [
          | panic ↦ (panic, s1)
          | err not_found ↦ update_claims nodeset pod templates s1
          | err e ↦ (err e, s1)
          | ok claim ↦
              let (updated, s2) = update_claim nodeset pod claim s1 in
              elim updated [
                | panic ↦ (panic, s2)
                | err e ↦ (err e, s2)
                | ok _ ↦ update_claims nodeset pod templates s2
              ]
        ]

    unfoldable pub update_pod_pvcs_for_retention_policy : NodeSet → Pod → M S (Unit {0})
    unfolding update_claims
    update_pod_pvcs_for_retention_policy nodeset pod =
        update_claims nodeset pod nodeset.volume_claim_templates

  pub any_stale : Pod → Dict Claim → M S Bool
  any_stale pod [] s = (ok false, s)
  any_stale pod ((key, claim) ∷ claims) s =
      let (res, s1) = client.get_claim claim.namespace claim.name s in
      elim res [
        | panic ↦ (panic, s1)
        | err not_found ↦ any_stale pod claims s1
        | err e ↦ (err e, s1)
        | ok pvc ↦ elim (has_stale_owner_ref pvc.owner_references (pod_owner pod)) [
          | true ↦ (ok true, s1)
          | false ↦ any_stale pod claims s1
        ]
      ]

  unfoldable pub is_pod_pvcs_stale : (Dict Claim → Dict Claim) → NodeSet → Pod → M S Bool
  unfolding any_stale
  is_pod_pvcs_stale order nodeset pod s =
      if is_retain (get_retention_policy nodeset).when_scaled
      then (ok false, s)
      else any_stale pod (order (get_persistent_volume_claims nodeset pod)) s
