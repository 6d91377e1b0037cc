-- ===== src/PodControl/Owners.antt =====
-- The owner references of a pod's PersistentVolumeClaims under the retention policy
-- (upstream/slurm-operator/internal/controller/nodeset/podcontrol/podcontrol.go).
-- `new_controller_ref` is `metav1.NewControllerRef`.
pub mod Scrub
pub mod Converge
use slinky_on_openshift.Prelude.{
  Bool, true, false, not, ◌&&◌, ◌||◌, Option, none, some, List, [], ◌∷◌, ◌++◌, String, any, str_eq,
  if◌then◌else◌,
}
use slinky_on_openshift.Kube.{
  OwnerReference, Pod, Claim, NodeSet, RetentionPolicyType, RetentionPolicy, retain, delete_claims,
}
use slinky_on_openshift.Utils.Pods.{is_pod_cordon}

-- An object that can own a claim, with its kind: `metav1.Object` and `schema.GroupVersionKind`.
pub record Owner : Type 0 where
  pub api_version : String
  pub kind : String
  pub name : String
  pub uid : String

abbrev pub nodeset_owner : NodeSet → Owner
nodeset_owner nodeset = record {
  api_version = "slinky.slurm.net/v1alpha1";
  kind = "NodeSet";
  name = nodeset.name;
  uid = nodeset.uid;
}

abbrev pub pod_owner : Pod → Owner
pod_owner pod = record { api_version = "v1"; kind = "Pod"; name = pod.name; uid = pod.uid }

unfoldable pub matches_ref : OwnerReference → Owner → Bool
matches_ref ref obj =
    str_eq obj.api_version ref.api_version && str_eq obj.kind ref.kind && str_eq ref.name obj.name

-- `ref.Controller != nil && *ref.Controller`
abbrev pub is_controller : OwnerReference → Bool
is_controller ref = elim ref.controller [ none ↦ false | some b ↦ b ]

unfoldable pub has_owner_ref : List OwnerReference → Owner → Bool
has_owner_ref refs owner = any (λ r. str_eq r.uid owner.uid) refs

-- the first reference that matches decides
unfoldable pub has_stale_owner_ref : List OwnerReference → Owner → Bool
has_stale_owner_ref [] obj = false
has_stale_owner_ref (r ∷ refs) obj =
    if matches_ref r obj then not (str_eq r.uid obj.uid) else has_stale_owner_ref refs obj

abbrev pub is_retain : RetentionPolicyType → Bool
is_retain retain = true
is_retain _ = false

abbrev pub is_delete : RetentionPolicyType → Bool
is_delete delete_claims = true
is_delete _ = false

unfoldable pub get_retention_policy : NodeSet → RetentionPolicy
get_retention_policy nodeset = elim nodeset.retention_policy [
  | none ↦ record { when_deleted = retain; when_scaled = retain }
  | some policy ↦ policy
]

-- the loop of `hasUnexpectedController`
unfoldable pub other_controls : List OwnerReference → Owner → Owner → Bool
other_controls [] nodeset pod = false
other_controls (r ∷ refs) nodeset pod =
    let rest = other_controls refs nodeset pod in
    if matches_ref r nodeset
    then (if not (str_eq r.uid nodeset.uid) then true else rest)
    else if matches_ref r pod
    then (if not (str_eq r.uid pod.uid) then true else rest)
    else if is_controller r
    then true
    else rest

unfoldable pub has_unexpected_controller : Claim → NodeSet → Pod → Bool
has_unexpected_controller claim nodeset pod =
    let policy = get_retention_policy nodeset in
    if is_retain policy.when_scaled && is_retain policy.when_deleted
    then false
    else other_controls claim.owner_references (nodeset_owner nodeset) (pod_owner pod)

unfoldable pub has_non_controller_owner : List OwnerReference → Owner → Owner → Bool
has_non_controller_owner refs nodeset pod =
    any (λ r. (str_eq r.uid nodeset.uid || str_eq r.uid pod.uid) && not (is_controller r)) refs

unfoldable pub remove_refs : List OwnerReference → (OwnerReference → Bool) → List OwnerReference
remove_refs [] predicate = []
remove_refs (r ∷ refs) predicate =
    let rest = remove_refs refs predicate in if not (predicate r) then r ∷ rest else rest

abbrev same : Bool → Bool → Bool
same true b = b
same false b = not b

-- The `switch` of `isClaimOwnerUpToDate`; its `default` falls through to the first case. The
-- arguments behind the policy: whether the NodeSet and the pod are owners, and `podScaledDown`.
unfoldable pub owners_match : RetentionPolicy → Bool → Bool → Bool → Bool
owners_match policy nodeset_owns pod_owns pod_scaled_down =
    if is_delete policy.when_deleted && is_retain policy.when_scaled
    then not (not nodeset_owns || pod_owns)
    else if is_retain policy.when_deleted && is_delete policy.when_scaled
    then not nodeset_owns && same pod_scaled_down pod_owns
    else if is_delete policy.when_deleted && is_delete policy.when_scaled
    then not (same pod_scaled_down nodeset_owns) && same pod_scaled_down pod_owns
    else not (nodeset_owns || pod_owns)

unfoldable pub is_claim_owner_up_to_date : Claim → NodeSet → Pod → Bool
unfolding owners_match
is_claim_owner_up_to_date claim nodeset pod =
    let refs = claim.owner_references in
    let n = nodeset_owner nodeset in
    let p = pod_owner pod in
    if has_stale_owner_ref refs n || has_stale_owner_ref refs p
    then true
    else if has_unexpected_controller claim nodeset pod
    then not (has_owner_ref refs n || has_owner_ref refs p)
    else if has_non_controller_owner refs n p
    then false
    else owners_match (get_retention_policy nodeset) (has_owner_ref refs n) (has_owner_ref refs p)
        (is_pod_cordon pod)

module _ (new_controller_ref : Owner → OwnerReference) where
  unfoldable pub add_controller_ref : List OwnerReference → Owner → List OwnerReference
  add_controller_ref refs owner =
      if any (λ r. str_eq r.uid owner.uid) refs then refs else refs ++ new_controller_ref owner ∷ []

  -- the `switch` of `updateClaimOwnerRefForSetAndPod`
  unfoldable pub add_owners :
      RetentionPolicy → Bool → List OwnerReference → Owner → Owner → List OwnerReference
  unfolding add_controller_ref
  add_owners policy pod_scaled_down refs nodeset pod =
      if is_retain policy.when_scaled && is_delete policy.when_deleted
      then add_controller_ref refs nodeset
      else if is_delete policy.when_scaled && is_retain policy.when_deleted
      then (if pod_scaled_down then add_controller_ref refs pod else refs)
      else if is_delete policy.when_scaled && is_delete policy.when_deleted
      then (if pod_scaled_down
          then add_controller_ref refs pod
          else add_controller_ref refs nodeset)
      else refs

  unfoldable pub update_claim_owner_ref : Claim → NodeSet → Pod → Claim
  unfolding add_owners
  update_claim_owner_ref claim nodeset pod =
      let n = nodeset_owner nodeset in
      let p = pod_owner pod in
      let unexpected_controller = has_unexpected_controller claim nodeset pod in
      let refs = remove_refs claim.owner_references (λ r. matches_ref r n || matches_ref r p) in
      if unexpected_controller then record claim { owner_references = refs } else record claim {
        owner_references = add_owners (get_retention_policy nodeset) (is_pod_cordon pod) refs n p;
      }
