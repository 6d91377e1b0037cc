-- ===== src/Scenarios/Pods.antt =====
-- The theorems on the names, the storage, the order and the claims of pods.
use mathlib.Core.Option.{some_inj}
use mathlib.Core.Path.{subst}
use slinky_on_openshift.Prelude.{
  inl, inr, false, sym, ◌∙◌, Bool-cases, eq_iff, ◌≡◌, refl, true, List, [], ◌∷◌, String, arith,
  str_eq, if◌then◌else◌,
}
use slinky_on_openshift.Prelude.Int.{ℤ, pos}
use slinky_on_openshift.Kube.{Pod, Claim, NodeSet}
use slinky_on_openshift.Utils.KeyedStore.{new_store, greater, pop, peek}
use slinky_on_openshift.Utils.KeyedStore.Latest.{push_all, latest, or_zero, pop-push_all}
use slinky_on_openshift.Utils.Pods.{key_func, is_pod_cordon, is_healthy}
use slinky_on_openshift.Prelude.Dict.{Dict, lookup}
use slinky_on_openshift.Exec.{ok, M}
use slinky_on_openshift.PodControl.Claims.{
  pod_pvcs_match_retention_policy, update_pod_pvcs_for_retention_policy,
}
use slinky_on_openshift.PodControl.Claims.Match.{
  key_of, IsSound, AreSound, claim_store, pod_pvcs_match-update,
}
use slinky_on_openshift.PodControl.Operations.{attempt}
use slinky_on_openshift.PodControl.Operations.Written.{
  with_update, AgreesOnMatching, attempt-writes_matching,
}
use slinky_on_openshift.Strconv.{parse_digits, itoa, write_digits}
use slinky_on_openshift.Naming.{
  get_parent_name_and_ordinal, get_ordinal, get_pod_name, is_identity_match,
}
use slinky_on_openshift.Naming.Ordinal.{get_parent_name_and_ordinal-get_pod_name}
use slinky_on_openshift.Sort.{insertion_sort, split_unhealthy_pods}
use slinky_on_openshift.Sort.Split.{split_unhealthy_pods-swaps}
use slinky_on_openshift.PodControl.Owners.{
  Owner, matches_ref, other_controls, has_unexpected_controller, nodeset_owner, pod_owner,
  has_owner_ref, get_retention_policy, is_claim_owner_up_to_date, update_claim_owner_ref,
}
use slinky_on_openshift.PodControl.Owners.Converge.{
  IsControllerRef, wants_nodeset, wants_pod, is_claim_owner_up_to_date-update, owners-update,
}
use slinky_on_openshift.Scenarios.World.{
  ready_pod, waiting_pod, a_claim, a_nodeset, a_library, a_ref, a_pod_client, World, fresh, called,
}

get_parent_name_and_ordinal_example : get_parent_name_and_ordinal waiting_pod ≡ ("a", pos 2)
unfolding get_pod_name itoa write_digits
get_parent_name_and_ordinal_example =
    get_parent_name_and_ordinal-get_pod_name a_nodeset waiting_pod 2 (ground arith) refl

abbrev longer : NodeSet
longer = record a_nodeset { name = "a-b" }

abbrev longer_pod : Pod
longer_pod = record ready_pod { name = "a-b-3" }

abbrev pushes : List (String × ℤ)
pushes = ("k", pos 3) ∷ ("j", pos 4) ∷ ("k", pos 2) ∷ []

pop-push_all_example :
    let (v, s) = pop "k" (push_all pushes (new_store greater)) in
    (v ≡ or_zero (latest "k" pushes))
    × (peek "j" s ≡ (if str_eq "k" "j" then pos 0 else or_zero (latest "j" pushes)))
pop-push_all_example = pop-push_all pushes "k" "j"

abbrev late_pod : Pod
late_pod = record waiting_pod { creation_timestamp = pos 8 }

split_unhealthy_pods-swaps_example :
    split_unhealthy_pods insertion_sort a_library (late_pod ∷ ready_pod ∷ [])
    ≡ (ready_pod ∷ [], late_pod ∷ [])
unfolding is_healthy
split_unhealthy_pods-swaps_example =
    split_unhealthy_pods-swaps a_library late_pod ready_pod refl refl refl

-- A claim that its pod still holds.
a_ref-IsControllerRef : (o : Owner) → IsControllerRef o (a_ref o)
a_ref-IsControllerRef o = record {
  api_version = refl;
  kind = refl;
  name = refl;
  uid = refl;
  controller = refl;
}

abbrev held_claim : Claim
held_claim = record a_claim { owner_references = a_ref (pod_owner ready_pod) ∷ [] }

is_claim_owner_up_to_date_example :
    is_claim_owner_up_to_date
      (update_claim_owner_ref a_ref held_claim a_nodeset ready_pod)
      a_nodeset
      ready_pod
    ≡ true
unfolding matches_ref
is_claim_owner_up_to_date_example =
    is_claim_owner_up_to_date-update a_ref a_ref-IsControllerRef held_claim a_nodeset ready_pod refl
      (refl, tt) (refl, tt)

owners-update_example :
    let refs = (update_claim_owner_ref a_ref held_claim a_nodeset ready_pod).owner_references in
    (has_owner_ref refs (nodeset_owner a_nodeset)
      ≡ wants_nodeset (get_retention_policy a_nodeset) (is_pod_cordon ready_pod))
    × (has_owner_ref refs (pod_owner ready_pod)
        ≡ wants_pod (get_retention_policy a_nodeset) (is_pod_cordon ready_pod))
unfolding matches_ref has_unexpected_controller get_retention_policy other_controls
owners-update_example =
    owners-update a_ref a_ref-IsControllerRef held_claim a_nodeset ready_pod refl (refl, tt)
      (refl, tt) refl

abbrev the_held : Claim
the_held = record held_claim { name = "spool-a-0"; namespace = "ns" }

abbrev held_claims : Dict Claim
held_claims = ("ns/spool-a-0", the_held) ∷ []

held_claims-AreSound : AreSound a_ref a_ref-IsControllerRef a_nodeset ready_pod refl held_claims
unfolding lookup key_func matches_ref
held_claims-AreSound key claim h = elim (Bool-cases (str_eq "ns/spool-a-0" key)) [
  | inl same ↦
      let is : the_held ≡ claim = some_inj.0 (sym (rw same refl) ∙ h) in
      subst (λ c. (key_of c ≡ key) × IsSound a_ref a_ref-IsControllerRef a_nodeset ready_pod refl c)
        is ((eq_iff "ns/spool-a-0" key).0 same, inr ((refl, tt), (refl, tt)))
  | inr other ↦ absurd (ground (arith, other, h))
]

pod_pvcs_match_example :
    (claims' : Dict Claim) × (update_pod_pvcs_for_retention_policy claim_store a_ref a_nodeset
        ready_pod held_claims
      ≡ (ok tt, claims'))
    × (pod_pvcs_match_retention_policy claim_store a_nodeset ready_pod claims' ≡ (ok true, claims'))
pod_pvcs_match_example =
    pod_pvcs_match-update a_ref a_ref-IsControllerRef a_nodeset ready_pod refl held_claims
      held_claims-AreSound

-- a pod without the label of its name, which is not written as it is
abbrev other_update : Pod → M World (Unit {0})
other_update pod =
    if is_identity_match a_nodeset pod then a_pod_client.update_pod pod else called "lost" tt

other_update-Agrees : AgreesOnMatching a_nodeset a_pod_client other_update
other_update-Agrees pod s same kept = rw same refl

attempt_example :
    attempt (with_update a_nodeset a_pod_client other_update) a_nodeset (ready_pod, false, fresh)
    ≡ attempt a_pod_client a_nodeset (ready_pod, false, fresh)
unfolding get_ordinal get_parent_name_and_ordinal parse_digits
attempt_example =
    attempt-writes_matching a_nodeset a_pod_client other_update ready_pod 0 false fresh
      other_update-Agrees refl
