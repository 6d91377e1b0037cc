-- ===== src/PodControl/Owners/Converge.antt =====
-- The update of a claim's owner references against the test that asks for it
-- (upstream/slurm-operator/internal/controller/nodeset/podcontrol/podcontrol.go).
use text.Mathlib.TextPositions.{eq_refl}
use slinky_on_openshift.Prelude.{
  ◌≡◌, refl, ◌∙◌, Bool, true, false, not, ◌||◌, ◌&&◌, some, List, [], ◌∷◌, ◌++◌, arith, str_eq,
  eq_iff, All, Bool-cases, inl, inr, if◌then◌else◌,
}
use slinky_on_openshift.Kube.{
  OwnerReference, Pod, Claim, NodeSet, RetentionPolicy, RetentionPolicyType,
}
use slinky_on_openshift.Utils.Pods.{is_pod_cordon}
use slinky_on_openshift.PodControl.Owners.{
  Owner, nodeset_owner, pod_owner, matches_ref, is_controller, has_owner_ref, is_retain, is_delete,
  get_retention_policy, other_controls, has_unexpected_controller, remove_refs, owners_match,
  is_claim_owner_up_to_date, add_controller_ref, add_owners, update_claim_owner_ref,
}
use slinky_on_openshift.PodControl.Owners.Scrub.{
  Agrees, ours, scrub-has, scrub-stale, scrub-other, non_controller-of_has, has-append,
  stale-append, other-append, non_controller-append,
}

-- What `metav1.NewControllerRef` documents of the reference that it returns.
pub record IsControllerRef (o : Owner) (r : OwnerReference) : Type 0 where
  pub api_version : r.api_version ≡ o.api_version
  pub kind : r.kind ≡ o.kind
  pub name : r.name ≡ o.name
  pub uid : r.uid ≡ o.uid
  pub controller : r.controller ≡ some true

Agrees-self : (o : Owner) (r : OwnerReference) → IsControllerRef o r → Agrees o r
unfolding matches_ref
Agrees-self o r h = ground (
  arith,
  eq_iff o.api_version r.api_version,
  eq_iff o.kind r.kind,
  eq_iff r.name o.name,
  eq_iff r.uid o.uid,
)

-- a reference to an object of one kind is none to an object of another kind and another UID
Agrees-other :
    (o q : Owner) (r : OwnerReference)
    → IsControllerRef o r
    → str_eq q.kind o.kind ≡ false
    → str_eq o.uid q.uid ≡ false
    → Agrees q r
unfolding matches_ref
Agrees-other o q r h k u = rw (h.kind, h.uid) (rw (k, u) (ground arith))

-- What the policy asks for, known or not, and whether the pod is cordoned.
abbrev pub is_known : RetentionPolicyType → Bool
is_known t = is_retain t || is_delete t

abbrev pub wants_nodeset : RetentionPolicy → Bool → Bool
wants_nodeset policy cordoned =
    is_delete policy.when_deleted
    && is_known policy.when_scaled
    && not (is_delete policy.when_scaled && cordoned)

abbrev pub wants_pod : RetentionPolicy → Bool → Bool
wants_pod policy cordoned = is_delete policy.when_scaled && is_known policy.when_deleted && cordoned

module _ (new_controller_ref : Owner → OwnerReference)
    (new_ref-IsControllerRef : (o : Owner) → IsControllerRef o (new_controller_ref o))
    (claim : Claim) (nodeset : NodeSet) (pod : Pod) (distinct : str_eq nodeset.uid pod.uid ≡ false)
    (nodeset-Agrees : All (Agrees (nodeset_owner nodeset)) claim.owner_references)
    (pod-Agrees : All (Agrees (pod_owner pod)) claim.owner_references) where
  abbrev n : Owner
  n = nodeset_owner nodeset

  abbrev p : Owner
  p = pod_owner pod

  abbrev left : List OwnerReference
  left = remove_refs claim.owner_references (ours n p)

  abbrev with_refs : List OwnerReference → Claim
  with_refs refs = record claim { owner_references = refs }

  distinct_symm : str_eq pod.uid nodeset.uid ≡ false
  distinct_symm = ground (arith, distinct, eq_iff pod.uid nodeset.uid, eq_iff nodeset.uid pod.uid)

  unexpected-same :
      (refs : List OwnerReference)
      → other_controls refs n p ≡ other_controls claim.owner_references n p
      → has_unexpected_controller (with_refs refs) nodeset pod
        ≡ has_unexpected_controller claim nodeset pod
  unfolding has_unexpected_controller
  unexpected-same refs h = rw h

  scrubbed : is_claim_owner_up_to_date (with_refs left) nodeset pod ≡ (
      if has_unexpected_controller claim nodeset pod
      then true
      else owners_match (get_retention_policy nodeset) false false (is_pod_cordon pod))
  unfolding is_claim_owner_up_to_date
  scrubbed =
      let refs = claim.owner_references in
      let has = scrub-has n p refs nodeset-Agrees pod-Agrees in
      let stale = scrub-stale n p refs in
      ground (
        arith,
        has.0,
        has.1,
        stale.0,
        stale.1,
        unexpected-same left (scrub-other n p refs nodeset-Agrees pod-Agrees),
        non_controller-of_has n p left has.0 has.1,
      )

  with_owner :
      (o : Owner) (nodeset_owns pod_owns : Bool)
      → (str_eq o.uid nodeset.uid ≡ nodeset_owns) × (str_eq o.uid pod.uid ≡ pod_owns)
      → Agrees n (new_controller_ref o) × Agrees p (new_controller_ref o)
      → nodeset_owns || pod_owns ≡ true
      → has_unexpected_controller claim nodeset pod ≡ false
      → is_claim_owner_up_to_date (with_refs (left ++ new_controller_ref o ∷ [])) nodeset pod
        ≡ owners_match (get_retention_policy nodeset) nodeset_owns pod_owns (is_pod_cordon pod)
  unfolding is_claim_owner_up_to_date
  with_owner o nodeset_owns pod_owns owns agrees either expected =
      let refs = claim.owner_references in
      let c = new_controller_ref o in
      let is_ref = new_ref-IsControllerRef o in
      let uid : (str_eq c.uid nodeset.uid ≡ nodeset_owns) × (str_eq c.uid pod.uid ≡ pod_owns) =
        (rw is_ref.uid owns.0, rw is_ref.uid owns.1) in
      let has = scrub-has n p refs nodeset-Agrees pod-Agrees in
      let stale = scrub-stale n p refs in
      let other = scrub-other n p refs nodeset-Agrees pod-Agrees in
      let controls : is_controller c ≡ true = rw is_ref.controller in
      ground (
        arith,
        has.0,
        has.1,
        uid,
        has-append c n left,
        has-append c p left,
        stale-append c n left stale.0 agrees.0,
        stale-append c p left stale.1 agrees.1,
        unexpected-same (left ++ c ∷ [])
            (other-append n p c left agrees.0 agrees.1 (ground arith) ∙ other),
        non_controller-append n p c left controls,
        non_controller-of_has n p left has.0 has.1,
        expected,
      )

  with_nodeset :
      has_unexpected_controller claim nodeset pod ≡ false
      → is_claim_owner_up_to_date (with_refs (left ++ new_controller_ref n ∷ [])) nodeset pod
        ≡ owners_match (get_retention_policy nodeset) true false (is_pod_cordon pod)
  with_nodeset =
      with_owner n true false (eq_refl nodeset.uid, distinct)
        (
          Agrees-self n _ (new_ref-IsControllerRef n),
          Agrees-other n p _ (new_ref-IsControllerRef n) refl distinct,
        )
        refl

  with_pod :
      has_unexpected_controller claim nodeset pod ≡ false
      → is_claim_owner_up_to_date (with_refs (left ++ new_controller_ref p ∷ [])) nodeset pod
        ≡ owners_match (get_retention_policy nodeset) false true (is_pod_cordon pod)
  with_pod =
      with_owner p false true (distinct_symm, eq_refl pod.uid)
        (
          Agrees-other p n _ (new_ref-IsControllerRef p) refl distinct_symm,
          Agrees-self p _ (new_ref-IsControllerRef p),
        )
        refl

  -- what the update adds to the references that it has scrubbed
  add-left :
      (add_controller_ref new_controller_ref left n ≡ left ++ new_controller_ref n ∷ [])
      × (add_controller_ref new_controller_ref left p ≡ left ++ new_controller_ref p ∷ [])
  unfolding add_controller_ref has_owner_ref
  add-left =
      let has = scrub-has n p claim.owner_references nodeset-Agrees pod-Agrees in
      (rw has.0, rw has.1)

  added :
      has_unexpected_controller claim nodeset pod ≡ false
      → is_claim_owner_up_to_date
          (with_refs (
            add_owners new_controller_ref
              (get_retention_policy nodeset)
              (is_pod_cordon pod)
              left
              n
              p))
          nodeset
          pod
        ≡ true
  unfolding add_owners owners_match
  added expected = elim (Bool-cases (is_pod_cordon pod)) [
    | inl down ↦
        ground (arith, down, add-left, with_nodeset expected, with_pod expected, scrubbed, expected)
    | inr up ↦
        ground (arith, up, add-left, with_nodeset expected, with_pod expected, scrubbed, expected)
  ]

  -- If each reference of the claim that names the NodeSet or the pod, or has its UID, does both, and
  -- the two have different UIDs: one update makes the claim's owners up to date, under every
  -- retention policy, whether the pod is cordoned or not, also beside a foreign controller.
  pub is_claim_owner_up_to_date-update :
      is_claim_owner_up_to_date
        (update_claim_owner_ref new_controller_ref claim nodeset pod)
        nodeset
        pod
      ≡ true
  unfolding update_claim_owner_ref
  is_claim_owner_up_to_date-update =
      elim (Bool-cases (has_unexpected_controller claim nodeset pod)) [
        | inl foreign ↦ rw foreign (scrubbed ∙ rw foreign)
        | inr expected ↦ rw expected (added expected)
      ]

  -- Under the same conditions, if no other controller holds the claim: after an update the NodeSet
  -- is an owner exactly if the policy deletes claims with the NodeSet, unless it also deletes them
  -- in a scale-in and the pod is cordoned; the pod is one exactly if the policy deletes claims in a
  -- scale-in and the pod is cordoned. They are never owners together.
  pub owners-update :
      has_unexpected_controller claim nodeset pod ≡ false
      → let refs = (update_claim_owner_ref new_controller_ref claim nodeset pod).owner_references in
        (has_owner_ref refs n ≡ wants_nodeset (get_retention_policy nodeset) (is_pod_cordon pod))
        × (has_owner_ref refs p ≡ wants_pod (get_retention_policy nodeset) (is_pod_cordon pod))
  unfolding update_claim_owner_ref add_owners
  owners-update expected =
      let has = scrub-has n p claim.owner_references nodeset-Agrees pod-Agrees in
      let cn = new_controller_ref n in
      let cp = new_controller_ref p in
      let rn = new_ref-IsControllerRef n in
      let rp = new_ref-IsControllerRef p in
      ground (
        arith,
        expected,
        add-left,
        has.0,
        has.1,
        has-append cn n left,
        has-append cn p left,
        has-append cp n left,
        has-append cp p left,
        rn.uid,
        rp.uid,
        eq_refl nodeset.uid,
        eq_refl pod.uid,
        distinct,
        distinct_symm,
      )
