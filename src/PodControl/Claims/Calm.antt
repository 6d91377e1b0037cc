-- ===== src/PodControl/Claims/Calm.antt =====
-- What the claims of a pod leave of the rest of the server
-- (upstream/slurm-operator/internal/controller/nodeset/podcontrol/podcontrol.go).
use slinky_on_openshift.Prelude.{
  ◌≡◌, refl, ◌∙◌, ◌⊎◌, inl, inr, true, List, [], ◌∷◌, ◌++◌, String, arith, Option-cases,
}
use slinky_on_openshift.Prelude.Dict.{Dict}
use slinky_on_openshift.Exec.{
  Error, not_found, message, is_calm, is_calm-cases, Result, ok, err, new_aggregate,
}
use slinky_on_openshift.Kube.{OwnerReference, Pod, Claim, NodeSet}
use slinky_on_openshift.Naming.{
  get_ordinal, get_persistent_volume_claim_name, get_persistent_volume_claims,
}
use slinky_on_openshift.PodControl.Owners.{Owner, update_claim_owner_ref}
use slinky_on_openshift.PodControl.Claims.{
  ClaimClient, aggregated, create_claims, create_persistent_volume_claims, update_claim,
  update_claims, update_pod_pvcs_for_retention_policy,
}

-- the errors that a loop returned
abbrev errors_of : Result (List Error) → List Error
errors_of (ok errs) = errs
errors_of _ = []

module _ {S V : Type 0} (view : S → V) where
  -- A server whose claims are apart from what `view` sees of its state. Its calls return, and a read
  -- or an update does not complain about a terminating namespace.
  pub record IsApart (client : ClaimClient S) : Type 0 where
    pub got :
        (namespace name : String) (s : S)
        → (is_calm (client.get_claim namespace name s).0 ≡ true)
          × (view (client.get_claim namespace name s).1 ≡ view s)
    pub created :
        (claim : Claim) (s : S)
        → (((client.create_claim claim s).0 ≡ ok tt)
            ⊎ ((e : Error) × ((client.create_claim claim s).0 ≡ err e)))
          × (view (client.create_claim claim s).1 ≡ view s)
    pub updated :
        (claim : Claim) (s : S)
        → (is_calm (client.update_claim claim s).0 ≡ true)
          × (view (client.update_claim claim s).1 ≡ view s)
    pub told :
        (nodeset : NodeSet) (pod : Pod) (claim : Claim) (e : Error) (s : S)
        → view (client.record_claim_event nodeset pod claim e s) ≡ view s
    pub warned :
        (nodeset : NodeSet) (name : String) (s : S)
        → view (client.record_conflicting_controller nodeset name s) ≡ view s

  module _ (client : ClaimClient S) (apart : IsApart client) where
    create_claims-calm :
        (nodeset : NodeSet) (pod : Pod) (claims : Dict Claim) (errs : List Error) (s : S)
        → let p = create_claims client nodeset pod claims errs s in
          (p.0 ≡ ok (errors_of p.0)) × (view p.1 ≡ view s)
    unfolding create_claims
    create_claims-calm nodeset pod [] errs s = (refl, refl)
    create_claims-calm nodeset pod ((key, claim) ∷ claims) errs s =
        let (calm, same) = apart.got nodeset.namespace claim.name s in
        let s1 = (client.get_claim nodeset.namespace claim.name s).1 in
        let rest = create_claims-calm nodeset pod claims in
        elim (is_calm-cases _ calm) [
          | inl (pvc, e) ↦ elim (Option-cases pvc.deletion_timestamp) [
            | inl alive ↦ rw (e, alive, create_claims) ((rest errs s1).0, (rest errs s1).1 ∙ same)
            | inr (t, gone) ↦
                let more = rest (errs ++ message "pvc is being deleted" ∷ []) s1 in
                rw (e, gone, create_claims) (more.0, more.1 ∙ same)
          ]
          | inr (x, e, other) ↦
              let s3 = client.record_claim_event nodeset pod claim x s1 in
              let more = rest (errs ++ message "failed to retrieve PVC" ∷ []) s3 in
              let told = apart.told nodeset pod claim x s1 in
              let (returns, kept) = apart.created claim s1 in
              let s2 = (client.create_claim claim s1).1 in
              let s4 = client.record_claim_event nodeset pod claim not_found s2 in
              let made = apart.told nodeset pod claim not_found s2 in
              let again = rest errs s4 in
              let failed = rest (errs ++ message "failed to create PVC" ∷ []) s4 in
              elim returns [
                | inl fine ↦ ground (arith, e, same, told, more, fine, kept, made, again)
                | inr (y, wrong) ↦ ground (arith, e, same, told, more, wrong, kept, made, failed)
              ]
        ]

    new_aggregate-calm :
        (errs : List Error) → is_calm (aggregated client (new_aggregate errs)) ≡ true
    new_aggregate-calm [] = refl
    new_aggregate-calm (e ∷ errs) = elim (Option-cases (new_aggregate errs)) [
      | inl none_left ↦ rw (none_left, new_aggregate) refl
      | inr (f, some_left) ↦ rw (some_left, new_aggregate) refl
    ]

    update_claim-calm :
        (new_controller_ref : Owner → OwnerReference) (nodeset : NodeSet) (pod : Pod)
        (claim : Claim) (s : S)
        → (is_calm (update_claim client new_controller_ref nodeset pod claim s).0 ≡ true)
          × (view (update_claim client new_controller_ref nodeset pod claim s).1 ≡ view s)
    unfolding update_claim
    update_claim-calm new_controller_ref nodeset pod claim s =
        let s1 = client.record_conflicting_controller nodeset claim.name s in
        let new = update_claim_owner_ref new_controller_ref claim nodeset pod in
        ground (arith, apart.warned nodeset claim.name s, apart.updated new s, apart.updated new s1)

    update_claims-calm :
        (new_controller_ref : Owner → OwnerReference) (nodeset : NodeSet) (pod : Pod)
        (templates : List Claim) (s : S)
        → (is_calm (update_claims client new_controller_ref nodeset pod templates s).0 ≡ true)
          × (view (update_claims client new_controller_ref nodeset pod templates s).1 ≡ view s)
    unfolding update_claims
    update_claims-calm new_controller_ref nodeset pod [] s = (refl, refl)
    update_claims-calm new_controller_ref nodeset pod (template ∷ templates) s =
        let name = get_persistent_volume_claim_name nodeset template (get_ordinal pod) in
        let s1 = (client.get_claim nodeset.namespace name s).1 in
        elim (is_calm-cases _ (apart.got nodeset.namespace name s).0) [
          | inl (claim, e) ↦
              let s2 = (update_claim client new_controller_ref nodeset pod claim s1).1 in
              ground (
                arith,
                e,
                apart.got nodeset.namespace name s,
                update_claim-calm new_controller_ref nodeset pod claim s1,
                update_claims-calm new_controller_ref nodeset pod templates s2,
              )
          | inr (x, e, other) ↦ ground (
            arith,
            e,
            other,
            apart.got nodeset.namespace name s,
            update_claims-calm new_controller_ref nodeset pod templates s1,
          )
        ]

    pub create_persistent_volume_claims-calm :
        (order : Dict Claim → Dict Claim) (nodeset : NodeSet) (pod : Pod) (s : S)
        → let p = create_persistent_volume_claims client order nodeset pod s in
          (is_calm p.0 ≡ true) × (view p.1 ≡ view s)
    unfolding create_persistent_volume_claims
    create_persistent_volume_claims-calm order nodeset pod s =
        let claims = order (get_persistent_volume_claims nodeset pod) in
        let (ran, same) = create_claims-calm nodeset pod claims [] s in
        rw ran
          (new_aggregate-calm (errors_of (create_claims client nodeset pod claims [] s).0), same)

    pub update_pod_pvcs-calm :
        (new_controller_ref : Owner → OwnerReference) (nodeset : NodeSet) (pod : Pod) (s : S)
        → let p = update_pod_pvcs_for_retention_policy client new_controller_ref nodeset pod s in
          (is_calm p.0 ≡ true) × (view p.1 ≡ view s)
    unfolding update_pod_pvcs_for_retention_policy
    update_pod_pvcs-calm new_controller_ref nodeset pod s =
        update_claims-calm new_controller_ref nodeset pod nodeset.volume_claim_templates s
