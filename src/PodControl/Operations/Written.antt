-- ===== src/PodControl/Operations/Written.antt =====
-- What `UpdateNodeSetPod` writes
-- (upstream/slurm-operator/internal/controller/nodeset/podcontrol/podcontrol.go).
use slinky_on_openshift.Prelude.{ℕ, ◌≡◌, refl, ap, ◌∙◌, Bool, true, arith, Bool-cases, inl, inr}
use slinky_on_openshift.Prelude.Int.{pos}
use slinky_on_openshift.Exec.{Result, M}
use slinky_on_openshift.Kube.{Pod, NodeSet}
use slinky_on_openshift.Naming.{
  get_ordinal, get_parent_name_and_ordinal, is_identity_match, is_storage_match, update_storage,
}
use slinky_on_openshift.Naming.Identity.{is_identity_match-update_identity}
use slinky_on_openshift.Naming.Storage.{is_storage_match-update_storage}
use slinky_on_openshift.PodControl.Operations.{
  PodClient, commit, with_storage, with_identity, keep_claims, attempt_with, attempt,
}

module _ (nodeset : NodeSet) where
  -- the volumes play no part in the identity
  identity-update_storage :
      (pod : Pod)
      → is_identity_match nodeset (update_storage nodeset pod) ≡ is_identity_match nodeset pod
  unfolding is_identity_match update_storage get_parent_name_and_ordinal
  identity-update_storage pod = refl

  with_identity-match :
      (pod : Pod) (n : ℕ)
      → get_ordinal pod ≡ pos n
      → (is_identity_match nodeset (with_identity nodeset pod) ≡ true)
        × (get_ordinal (with_identity nodeset pod) ≡ pos n)
  unfolding with_identity
  with_identity-match pod n h = elim (Bool-cases (is_identity_match nodeset pod)) [
    | inl same ↦ rw same (same, h)
    | inr other ↦ rw other (is_identity_match-update_identity nodeset pod n h)
  ]

  with_storage-match :
      (pod : Pod) (n : ℕ)
      → get_ordinal pod ≡ pos n
      → is_identity_match nodeset pod ≡ true
      → (is_storage_match nodeset (with_storage nodeset pod) ≡ true)
        × (is_identity_match nodeset (with_storage nodeset pod) ≡ true)
  unfolding with_storage
  with_storage-match pod n h same = elim (Bool-cases (is_storage_match nodeset pod)) [
    | inl kept ↦ rw kept (kept, same)
    | inr other ↦
        rw other
          (is_storage_match-update_storage nodeset pod n h, identity-update_storage pod ∙ same)
  ]

  module _ {S : Type 0} (client : PodClient S) where
    -- the same client, but with another way to update a pod
    abbrev pub with_update : (Pod → M S (Unit {0})) → PodClient S
    with_update update_pod = record client { update_pod = update_pod }

    -- The two updates do the same to each pod whose identity and storage match the NodeSet.
    abbrev pub AgreesOnMatching : (Pod → M S (Unit {0})) → Type 0
    AgreesOnMatching update_pod =
        (pod : Pod) (s : S)
        → is_identity_match nodeset pod ≡ true
        → is_storage_match nodeset pod ≡ true
        → update_pod pod s ≡ client.update_pod pod s

    commit-agrees :
        (update_pod : Pod → M S (Unit {0})) (pod : Pod) (s : S)
        → update_pod pod s ≡ client.update_pod pod s
        → commit (with_update update_pod) nodeset pod s ≡ commit client nodeset pod s
    unfolding commit
    commit-agrees update_pod pod s h = ground (arith, h)

    -- For a pod whose name has an ordinal: an attempt writes the pod only with an identity and a
    -- storage that match the NodeSet, since no way to write other pods makes a difference to it.
    pub attempt-writes_matching :
        (update_pod : Pod → M S (Unit {0})) (pod : Pod) (n : ℕ) (attempted : Bool) (s : S)
        → AgreesOnMatching update_pod
        → get_ordinal pod ≡ pos n
        → attempt (with_update update_pod) nodeset (pod, attempted, s)
          ≡ attempt client nodeset (pod, attempted, s)
    unfolding attempt attempt_with keep_claims
    attempt-writes_matching update_pod pod n attempted s agrees h =
        let identity = with_identity-match pod n h in
        let storage = with_storage-match (with_identity nodeset pod) n identity.1 identity.0 in
        let written = with_storage nodeset (with_identity nodeset pod) in
        let same : commit (with_update update_pod) nodeset written ≡ commit client nodeset written =
          λ i s'. commit-agrees update_pod written s' (agrees written s' storage.1 storage.0) i in
        ap
          (λ (w : S → Result (Unit {0}) × (Pod × Bool × S)).
            attempt_with client w nodeset (pod, attempted, s))
          same
