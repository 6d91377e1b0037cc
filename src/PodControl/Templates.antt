-- ===== src/PodControl/Templates.antt =====
-- The pod that a template gives and its creation
-- (upstream/slurm-operator/internal/utils/podcontrol/podcontrol.go). The reconciler makes its pods
-- with Kubernetes' own function of this name.
use Prim.Native.String.{◌++◌ as str_append}
use slinky_on_openshift.Prelude.{
  ◌≡◌, refl, ap, ◌∙◌, Bool, false, not, Option, none, some, List, [], ◌∷◌, String, arith, eq_iff,
  if◌then◌else◌,
}
use slinky_on_openshift.Prelude.Dict.{Dict, lookup, insert, lookup-insert}
use slinky_on_openshift.Prelude.Int.{pos}
use slinky_on_openshift.Exec.{Error, message, err, M}
use slinky_on_openshift.Strconv.{is_empty}
use slinky_on_openshift.Kube.{OwnerReference, Pod, no_phase, PodTemplate, NodeSet}
use slinky_on_openshift.PodControl.Operations.{PodClient, create_this_pod}

-- the loop that copies a map to a new one
unfoldable pub copied : Dict String → Dict String → Dict String
copied [] to = to
copied ((key, value) ∷ from) to = copied from (insert key value to)

abbrev pub entries : Option (Dict String) → Dict String
entries none = []
entries (some m) = m

unfoldable pub get_pods_label_set : PodTemplate → Dict String
unfolding copied
get_pods_label_set template = copied (entries template.labels) []

unfoldable pub get_pods_finalizers : PodTemplate → List String
get_pods_finalizers template = template.finalizers

unfoldable pub get_pods_annotation_set : PodTemplate → Dict String
unfolding copied
get_pods_annotation_set template = copied (entries template.annotations) []

-- `is_prefix` tells whether `ValidatePodName(_, true)` has nothing against a name
unfoldable pub get_pods_prefix : (is_prefix : String → Bool) → String → String
get_pods_prefix is_prefix controller_name =
    let prefix = str_append controller_name "-" in
    if is_prefix prefix then prefix else controller_name

abbrev is_true : Option Bool → Bool
is_true none = false
is_true (some b) = b

unfoldable pub validate_controller_ref : Option OwnerReference → Option Error
validate_controller_ref none = some (message "controllerRef is nil")
validate_controller_ref (some ref) =
    if is_empty ref.api_version
    then some (message "controllerRef has empty APIVersion")
    else if is_empty ref.kind
    then some (message "controllerRef has empty Kind")
    else if not (is_true ref.controller)
    then some (message "controllerRef.Controller is not nodeset to true")
    else if not (is_true ref.block_owner_deletion)
    then some (message "controllerRef.BlockOwnerDeletion is not nodeset")
    else none

abbrev owners_of : Option OwnerReference → List OwnerReference
owners_of none = []
owners_of (some ref) = ref ∷ []

-- `&corev1.Pod{}`
abbrev empty_pod : Pod
empty_pod = record {
  name = "";
  generate_name = "";
  namespace = "";
  uid = "";
  resource_version = "";
  labels = none;
  annotations = none;
  owner_references = [];
  finalizers = [];
  creation_timestamp = pos 0;
  deletion_timestamp = none;
  node_name = "";
  hostname = "";
  subdomain = "";
  volumes = [];
  phase = no_phase;
  conditions = [];
}

-- a parent has its metadata, so that there is no error
unfoldable pub get_pod_from_template :
    (is_prefix : String → Bool) → PodTemplate → NodeSet → Option OwnerReference → Pod
unfolding get_pods_label_set get_pods_finalizers get_pods_annotation_set get_pods_prefix
get_pod_from_template is_prefix template parent controller_ref = record empty_pod {
  generate_name = get_pods_prefix is_prefix parent.name;
  labels = some (get_pods_label_set template);
  annotations = some (get_pods_annotation_set template);
  owner_references = owners_of controller_ref;
  finalizers = get_pods_finalizers template;
  node_name = template.node_name;
  hostname = template.hostname;
  subdomain = template.subdomain;
  volumes = template.volumes;
}

module _ {S : Type 0} (client : PodClient S) (is_prefix : String → Bool) where
  unfoldable pub create_pods_with_generate_name :
      (namespace : String)
      → PodTemplate
      → NodeSet
      → Option OwnerReference
      → (generate_name : String) → M S (Unit {0})
  unfolding validate_controller_ref get_pod_from_template create_this_pod
  create_pods_with_generate_name namespace template object controller_ref generate_name s =
      elim (validate_controller_ref controller_ref) [
        | some e ↦ (err e, s)
        | none ↦
            let pod = get_pod_from_template is_prefix template object controller_ref in
            let name = if is_empty generate_name then pod.generate_name else generate_name in
            create_this_pod client (record pod { namespace = namespace; generate_name = name })
              object s
      ]

  unfoldable pub create_pods :
      (namespace : String) → PodTemplate → NodeSet → Option OwnerReference → M S (Unit {0})
  unfolding create_pods_with_generate_name
  create_pods namespace template object controller_ref =
      create_pods_with_generate_name namespace template object controller_ref ""

  -- `CreateThisPod`, for a pointer that may be nil
  unfoldable pub create_given_pod : Option Pod → NodeSet → M S (Unit {0})
  unfolding create_this_pod
  create_given_pod none object s = (err (message "pod cannot be nil"), s)
  create_given_pod (some pod) object s = create_this_pod client pod object s

-- `patch` is the server's strategic merge patch
unfoldable pub patch_pod :
    {S : Type 0} (patch : Pod → (bytes : String) → M S (Unit {0}))
    → (namespace name bytes : String) → M S (Unit {0})
patch_pod patch namespace name bytes =
    patch (record empty_pod { namespace = namespace; name = name }) bytes

-- in a Go map a key stands once
abbrev pub Distinct : Dict String → Type 0
Distinct [] = Unit {0}
Distinct ((key, value) ∷ rest) = (lookup key rest ≡ none) × Distinct rest

abbrev or_else : Option String → Option String → Option String
or_else none b = b
or_else (some a) b = some a

or_none : (o : Option String) → or_else o none ≡ o
or_none none = refl
or_none (some a) = refl

lookup-copied :
    (asked : String) (from to : Dict String)
    → Distinct from
    → lookup asked (copied from to) ≡ or_else (lookup asked from) (lookup asked to)
unfolding copied lookup
lookup-copied asked [] to distinct = refl
lookup-copied asked ((key, value) ∷ from) to (absent, distinct) =
    lookup-copied asked from (insert key value to) distinct
    ∙ ground (
      arith,
      absent,
      lookup-insert key asked value to,
      ap (λ (k : String). lookup k from) {x = key} {y = asked},
      eq_iff key asked,
    )

-- The pod of a template has the labels and the annotations of the template.
pub get_pod_from_template-keeps :
    (is_prefix : String → Bool) (template : PodTemplate) (parent : NodeSet)
    (controller_ref : Option OwnerReference) (asked : String)
    → Distinct (entries template.labels)
    → Distinct (entries template.annotations)
    → let pod = get_pod_from_template is_prefix template parent controller_ref in
      (lookup asked (entries pod.labels) ≡ lookup asked (entries template.labels))
      × (lookup asked (entries pod.annotations) ≡ lookup asked (entries template.annotations))
unfolding get_pod_from_template get_pods_label_set get_pods_annotation_set lookup
get_pod_from_template-keeps is_prefix template parent controller_ref asked labels annotations = (
  lookup-copied asked (entries template.labels) [] labels
      ∙ or_none (lookup asked (entries template.labels)),
  lookup-copied asked (entries template.annotations) [] annotations
      ∙ or_none (lookup asked (entries template.annotations)),
)
