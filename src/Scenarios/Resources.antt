-- ===== src/Scenarios/Resources.antt =====
-- The theorems on admission and on revisions.
use slinky_on_openshift.Prelude.{◌≡◌, refl, true, none, [], ◌∷◌}
use slinky_on_openshift.Prelude.Int.{pos}
use slinky_on_openshift.Admission.{default_nodeset, validate_create, validate_update}
use slinky_on_openshift.Admission.Accepted.{
  is_valid, validate-is_valid, split_update_pods-of_default,
}
use slinky_on_openshift.NodeSetSync.Update.{split_update_pods}
use slinky_on_openshift.Prelude.{◌↔◌}
use slinky_on_openshift.Kube.{no_strategy, NodeSet}
use slinky_on_openshift.Scenarios.World.{ready_pod, a_nodeset, a_library}

abbrev renamed : NodeSet
renamed = record a_nodeset { service_name = "b" }

validate-is_valid_example :
    ((validate_create renamed ≡ none) ↔ (is_valid renamed ≡ true))
    × ((validate_update renamed a_nodeset ≡ none) ↔ (
        (is_valid renamed ≡ true)
        × (renamed.cluster_name ≡ a_nodeset.cluster_name)
        × (renamed.service_name ≡ a_nodeset.service_name)))
validate-is_valid_example = validate-is_valid renamed a_nodeset

abbrev without_strategy : NodeSet
without_strategy = record a_nodeset {
  update_strategy = no_strategy;
  rolling_update_max_unavailable = none;
}

split_update_pods-of_default_example :
    (validate_create (default_nodeset without_strategy) ≡ none)
    × (split_update_pods a_library
          (λ less pods. pods)
          (default_nodeset without_strategy)
          (pos 9)
          (ready_pod ∷ [])
          "new"
        ≡ none)
split_update_pods-of_default_example =
    split_update_pods-of_default without_strategy a_library (λ less pods. pods) (pos 9)
      (ready_pod ∷ []) "new" refl refl refl refl
