-- ===== src/Naming/Identity.antt =====
-- `UpdateIdentity` against `IsIdentityMatch`
-- (upstream/slurm-operator/internal/controller/nodeset/utils/utils.go).
use Prim.Native.String.{String}
use text.Mathlib.TextPositions.{eq_refl}
use slinky_on_openshift.Prelude.{ℕ, ◌≡◌, ap, true, arith}
use slinky_on_openshift.Prelude.Dict.{insert, lookup-insert}
use slinky_on_openshift.Prelude.Int.{ℤ, pos}
use slinky_on_openshift.Strconv.{itoa}
use slinky_on_openshift.Kube.{Pod, NodeSet, get_string}
use slinky_on_openshift.Utils.Pods.{label_pod_name, label_pod_index}
use slinky_on_openshift.Naming.{
  get_pod_name, get_ordinal, update_identity, is_identity_match, or_empty,
}
use slinky_on_openshift.Naming.Ordinal.{
  get_parent_name_and_ordinal-get_pod_name, parse_ordinal_bound,
}

label-update_identity :
    (nodeset : NodeSet) (pod : Pod)
    → get_string label_pod_name (update_identity nodeset pod).labels
      ≡ (update_identity nodeset pod).name
unfolding update_identity
label-update_identity nodeset pod =
    let name = get_pod_name nodeset (get_ordinal pod) in
    let named = insert label_pod_name name (or_empty pod.labels) in
    ground (
      arith,
      lookup-insert label_pod_index label_pod_name (itoa (get_ordinal pod)) named,
      lookup-insert label_pod_name label_pod_name name (or_empty pod.labels),
    )

-- For every pod whose name has an ordinal: after `UpdateIdentity` its identity matches the NodeSet,
-- and the ordinal is the same.
pub is_identity_match-update_identity :
    (nodeset : NodeSet) (pod : Pod) (n : ℕ)
    → get_ordinal pod ≡ pos n
    → (is_identity_match nodeset (update_identity nodeset pod) ≡ true)
      × (get_ordinal (update_identity nodeset pod) ≡ pos n)
unfolding is_identity_match update_identity get_ordinal
is_identity_match-update_identity nodeset pod n h =
    let p = update_identity nodeset pod in
    let name : p.name ≡ get_pod_name nodeset (pos n) = rw h in
    let parsed =
      get_parent_name_and_ordinal-get_pod_name nodeset p n (parse_ordinal_bound pod n h) name in
    (
      ground (
        arith,
        parsed,
        name,
        eq_refl nodeset.name,
        eq_refl p.name,
        eq_refl nodeset.namespace,
        label-update_identity nodeset pod,
      ),
      ap (λ (r : String × ℤ). r.1) parsed,
    )
