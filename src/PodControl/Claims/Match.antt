-- ===== src/PodControl/Claims/Match.antt =====
-- After an update, a pod's claims match the retention policy, over a server that is a map of claims
-- (upstream/slurm-operator/internal/controller/nodeset/podcontrol/podcontrol.go).
use mathlib.Core.Path.{subst}
use mathlib.Core.Option.{some_inj}
use text.Mathlib.TextPositions.{eq_refl}
use slinky_on_openshift.Prelude.{
  ◌≡◌, refl, sym, ap, ◌∙◌, ◌⊎◌, inl, inr, true, false, Option, none, some, List, [], ◌∷◌, String,
  All, arith, str_eq, eq_iff, Bool-cases, Option-cases,
}
use slinky_on_openshift.Prelude.Dict.{Dict, lookup, insert, lookup-insert}
use slinky_on_openshift.Exec.{not_found, Result, ok, err}
use slinky_on_openshift.Kube.{OwnerReference, Pod, Claim, NodeSet}
use slinky_on_openshift.Utils.Pods.{key_func}
use slinky_on_openshift.Naming.{get_ordinal, get_persistent_volume_claim_name}
use slinky_on_openshift.PodControl.Owners.{
  Owner, nodeset_owner, pod_owner, is_claim_owner_up_to_date, update_claim_owner_ref,
}
use slinky_on_openshift.PodControl.Owners.Scrub.{Agrees}
use slinky_on_openshift.PodControl.Owners.Converge.{
  IsControllerRef, is_claim_owner_up_to_date-update,
}
use slinky_on_openshift.PodControl.Claims.{
  ClaimClient, claims_match, pod_pvcs_match_retention_policy, update_claim, update_claims,
  update_pod_pvcs_for_retention_policy,
}

-- A server that keeps claims by their namespace and name, and no events.
abbrev pub key_of : Claim → String
key_of claim = key_func claim.namespace claim.name

abbrev found : Option Claim → Result Claim
found none = err not_found
found (some claim) = ok claim

abbrev pub claim_store : ClaimClient (Dict Claim)
claim_store = record {
  get_claim = λ namespace name claims. (found (lookup (key_func namespace name) claims), claims);
  create_claim = λ claim claims. (ok tt, insert (key_of claim) claim claims);
  update_claim = λ claim claims. (ok tt, insert (key_of claim) claim claims);
  record_claim_event = λ nodeset pod claim e claims. claims;
  record_conflicting_controller = λ nodeset name claims. claims;
}

lookup-inserted :
    (key j : String) (claim c : Claim) (claims : Dict Claim)
    → lookup j (insert key claim claims) ≡ some c
    → ((key ≡ j) × (claim ≡ c)) ⊎ ((str_eq key j ≡ false) × (lookup j claims ≡ some c))
lookup-inserted key j claim c claims h = elim (Bool-cases (str_eq key j)) [
  | inl same ↦ inl (
    (eq_iff key j).0 same,
    some_inj.0 (sym (lookup-insert key j claim claims ∙ rw same refl) ∙ h),
  )
  | inr other ↦ inr (other, sym (lookup-insert key j claim claims ∙ rw other refl) ∙ h)
]

module _ (new_controller_ref : Owner → OwnerReference)
    (new_ref-IsControllerRef : (o : Owner) → IsControllerRef o (new_controller_ref o))
    (nodeset : NodeSet) (pod : Pod) (distinct : str_eq nodeset.uid pod.uid ≡ false) where
  -- A claim whose owners are up to date, or whose references name the NodeSet and the pod exactly
  -- where they have their UIDs.
  abbrev pub IsSound : Claim → Type 0
  IsSound claim =
      (is_claim_owner_up_to_date claim nodeset pod ≡ true)
      ⊎ (All (Agrees (nodeset_owner nodeset)) claim.owner_references
          × All (Agrees (pod_owner pod)) claim.owner_references)

  -- Each claim is kept under its own key, and is sound.
  abbrev pub AreSound : Dict Claim → Type 0
  AreSound claims =
      (key : String) (claim : Claim)
      → lookup key claims ≡ some claim
      → (key_of claim ≡ key) × IsSound claim

  abbrev IsUpToDate : String → Dict Claim → Type 0
  IsUpToDate key claims =
      (claim : Claim)
      → lookup key claims ≡ some claim
      → is_claim_owner_up_to_date claim nodeset pod ≡ true

  abbrev key_for : Claim → String
  key_for template =
      key_func nodeset.namespace
        (get_persistent_volume_claim_name nodeset template (get_ordinal pod))

  -- what the update of one claim, or of several, leaves
  record Updated (claims claims' : Dict Claim) : Type 0 where
    sound : AreSound claims'
    kept : (key : String) → IsUpToDate key claims → IsUpToDate key claims'

  key-update :
      (claim : Claim)
      → key_of (update_claim_owner_ref new_controller_ref claim nodeset pod) ≡ key_of claim
  unfolding update_claim_owner_ref
  key-update claim = ground arith

  updated_claim :
      (claim : Claim)
      → IsSound claim
      → is_claim_owner_up_to_date claim nodeset pod ≡ false
      → is_claim_owner_up_to_date
          (update_claim_owner_ref new_controller_ref claim nodeset pod)
          nodeset
          pod
        ≡ true
  updated_claim claim (inl h) stale = cc
  updated_claim claim (inr (n, p)) stale =
      is_claim_owner_up_to_date-update new_controller_ref new_ref-IsControllerRef claim nodeset pod
        distinct n p

  Updated-insert :
      (key : String) (claim : Claim) (claims : Dict Claim)
      → AreSound claims
      → key_of claim ≡ key
      → is_claim_owner_up_to_date claim nodeset pod ≡ true
      → Updated claims (insert key claim claims) × IsUpToDate key (insert key claim claims)
  Updated-insert key claim claims sound named good = (
    record {
      sound = λ j c h. elim (lookup-inserted key j claim c claims h) [
        | inl (same, is) ↦ (
          subst (λ x. key_of x ≡ j) is (named ∙ same),
          inl (subst (λ x. is_claim_owner_up_to_date x nodeset pod ≡ true) is good),
        )
        | inr (_, old) ↦ sound j c old
      ];
      kept = λ j h c e. elim (lookup-inserted key j claim c claims e) [
        | inl (same, is) ↦ subst (λ x. is_claim_owner_up_to_date x nodeset pod ≡ true) is good
        | inr (_, old) ↦ h c old
      ];
    },
    λ c e. elim (lookup-inserted key key claim c claims e) [
      | inl (same, is) ↦ subst (λ x. is_claim_owner_up_to_date x nodeset pod ≡ true) is good
      | inr (other, old) ↦ absurd (ground (arith, other, eq_refl key))
    ],
  )

  update_claim-Updated :
      (key : String) (claim : Claim) (claims : Dict Claim)
      → AreSound claims
      → lookup key claims ≡ some claim
      → (claims' : Dict Claim) × (update_claim claim_store new_controller_ref nodeset pod claim
            claims
          ≡ (ok tt, claims'))
        × Updated claims claims'
        × IsUpToDate key claims'
  unfolding update_claim
  update_claim-Updated key claim claims sound held =
      let (named, fine) = sound key claim held in
      elim (Bool-cases (is_claim_owner_up_to_date claim nodeset pod)) [
        | inl good ↦ (
          claims,
          ground (arith, good),
          record { sound = sound; kept = λ j h. h },
          λ c e.
              subst (λ x. is_claim_owner_up_to_date x nodeset pod ≡ true)
                (some_inj.0 (sym held ∙ e)) good,
        )
        | inr stale ↦
            let claim' = update_claim_owner_ref new_controller_ref claim nodeset pod in
            let (left, good) =
              Updated-insert key claim' claims sound (key-update claim ∙ named)
                (updated_claim claim fine stale) in
            (
              insert key claim' claims,
              ground (arith, stale, ap (λ k. insert k claim' claims) (key-update claim ∙ named)),
              left,
              good,
            )
      ]

  update_claims-Updated :
      (templates : List Claim) (claims : Dict Claim)
      → AreSound claims
      → (claims' : Dict Claim) × (update_claims claim_store new_controller_ref nodeset pod templates
            claims
          ≡ (ok tt, claims'))
        × Updated claims claims'
        × All (λ template. IsUpToDate (key_for template) claims') templates
  unfolding update_claims
  update_claims-Updated [] claims sound =
      (claims, refl, record { sound = sound; kept = λ j h. h }, tt)
  update_claims-Updated (template ∷ templates) claims sound =
      elim (Option-cases (lookup (key_for template) claims)) [
        | inl missing ↦
            let (claims', ran, left, all) = update_claims-Updated templates claims sound in
            (
              claims',
              ground (arith, missing, ran),
              left,
              (left.kept (key_for template) (λ c e. absurd (ground (arith, missing, e))), all),
            )
        | inr (claim, held) ↦
            let (claims1, one, left1, good) =
              update_claim-Updated (key_for template) claim claims sound held in
            let (claims2, ran, left2, all) = update_claims-Updated templates claims1 left1.sound in
            (
              claims2,
              ground (arith, held, one, ran),
              record { sound = left2.sound; kept = λ j h. left2.kept j (left1.kept j h) },
              (left2.kept (key_for template) good, all),
            )
      ]

  claims_match-IsUpToDate :
      (templates : List Claim) (claims : Dict Claim)
      → All (λ template. IsUpToDate (key_for template) claims) templates
      → claims_match claim_store nodeset pod templates claims ≡ (ok true, claims)
  unfolding claims_match
  claims_match-IsUpToDate [] claims h = refl
  claims_match-IsUpToDate (template ∷ templates) claims h =
      let rest = claims_match-IsUpToDate templates claims h.1 in
      elim (Option-cases (lookup (key_for template) claims)) [
        | inl missing ↦ ground (arith, missing, rest)
        | inr (claim, held) ↦ ground (arith, held, h.0 claim held, rest)
      ]

  -- Over a server that keeps each claim under its own key, where each claim's owners are up to date
  -- or its references name the NodeSet and the pod exactly where they have their UIDs, which differ:
  -- the update of a pod's claims succeeds, and then they match the retention policy, for any claim
  -- templates, claims that are missing included.
  pub pod_pvcs_match-update :
      (claims : Dict Claim)
      → AreSound claims
      → (claims' : Dict Claim) × (update_pod_pvcs_for_retention_policy claim_store
            new_controller_ref nodeset pod claims
          ≡ (ok tt, claims'))
        × (pod_pvcs_match_retention_policy claim_store nodeset pod claims' ≡ (ok true, claims'))
  unfolding update_pod_pvcs_for_retention_policy pod_pvcs_match_retention_policy
  pod_pvcs_match-update claims sound =
      let (claims', ran, left, all) =
        update_claims-Updated nodeset.volume_claim_templates claims sound in
      (claims', ran, claims_match-IsUpToDate nodeset.volume_claim_templates claims' all)
