-- ===== src/Naming.antt =====
-- upstream/slurm-operator/internal/controller/nodeset/utils/utils.go: the names of a NodeSet's pods
-- and claims, and the identity and the storage of a pod.
-- Names are DNS labels, so `.` of the regular expression meets no newline.
pub mod Ordinal
pub mod Identity
pub mod Storage
use Prim.Native.Char.{code}
use Prim.Native.String.{◌++◌ as str_append}
use slinky_on_openshift.Prelude.{
  ℕ, Bool, true, false, not, ◌&&◌, ◌||◌, Option, none, some, List, [], ◌∷◌, ◌++◌, ◌^◌, ltb, leb,
  ◌==◌, str_eq, map, if◌then◌else◌,
}
use Prim.Native.String.{String}
use slinky_on_openshift.Prelude.Dict.{Dict, lookup, insert}
use slinky_on_openshift.Prelude.Int.{ℤ, pos, negsuc, ltb_ℤ}
use slinky_on_openshift.Strconv.{parse_digits, itoa, is_empty}
use slinky_on_openshift.Kube.{Volume, Pod, Claim, NodeSet, Selector, Library, get_string}
use slinky_on_openshift.Utils.Pods.{set_revision, label_pod_name, label_pod_index}

-- `a-b`
abbrev pub dash : String → String → String
dash a b = str_append a (String.◌∷◌ "-" b)

-- `fmt.Sprintf("%s-%d", nodeset.Name, ordinal)`
unfoldable pub get_pod_name : NodeSet → ℤ → String
get_pod_name nodeset ordinal = dash nodeset.name (itoa ordinal)

unfoldable pub get_persistent_volume_claim_name : NodeSet → Claim → ℤ → String
get_persistent_volume_claim_name nodeset claim ordinal =
    dash claim.name (dash nodeset.name (itoa ordinal))

-- the last dash of a text, as the greedy `(.*)-` finds it
unfoldable pub split_last_dash : String → Option (String × String)
split_last_dash String.[] = none
split_last_dash (String.◌∷◌ c s) = elim (split_last_dash s) [
  | some (parent, rest) ↦ some (String.◌∷◌ c parent, rest)
  | none ↦ if code c == b'-' then some (String.[], s) else none
]

-- every character is in [0-9]
unfoldable pub all_digits : String → Bool
all_digits String.[] = true
all_digits (String.◌∷◌ c s) = leb b'0' (code c) && leb (code c) b'9' && all_digits s

-- `FindStringSubmatch` of "(.*)-([0-9]+)$": the digits hold no dash, so only the last dash can match
unfoldable pub find_submatch : String → Option (String × String)
unfolding split_last_dash all_digits
find_submatch name = elim (split_last_dash name) [
  | none ↦ none
  | some (parent, digits) ↦
      if not (is_empty digits) && all_digits digits then some (parent, digits) else none
]

-- `strconv.ParseInt(digits, 10, 32)`, or -1
abbrev parse_ordinal : Option ℕ → ℤ
parse_ordinal none = negsuc 0
parse_ordinal (some n) = if ltb n (2 ^ 31) then pos n else negsuc 0

unfoldable pub get_parent_name_and_ordinal : Pod → String × ℤ
unfolding find_submatch
get_parent_name_and_ordinal pod = elim (find_submatch pod.name) [
  | none ↦ ("", negsuc 0)
  | some (parent, digits) ↦ (parent, parse_ordinal (parse_digits digits))
]

unfoldable pub get_parent_name : Pod → String
get_parent_name pod = (get_parent_name_and_ordinal pod).0

unfoldable pub get_ordinal : Pod → ℤ
get_ordinal pod = (get_parent_name_and_ordinal pod).1

unfoldable pub get_node_name : Pod → String
get_node_name pod = if is_empty pod.hostname then pod.name else pod.hostname

-- A resource's name has lower-case letters, digits, `-` and `.`, and of these only `.` is special in
-- a regular expression.
unfoldable pub match_start : String → String → Bool
match_start s String.[] = true
match_start String.[] (String.◌∷◌ d p) = false
match_start (String.◌∷◌ c s) (String.◌∷◌ d p) =
    (code d == b'.' || code c == code d) && match_start s p

-- `regexp.MatchString("^%s-", pod.Name)` with the NodeSet's name
unfoldable pub is_pod_from_nodeset : NodeSet → Pod → Bool
unfolding match_start
is_pod_from_nodeset nodeset pod = match_start pod.name (dash nodeset.name "")

abbrev or_empty : Option (Dict String) → Dict String
or_empty none = []
or_empty (some m) = m

unfoldable pub update_identity : NodeSet → Pod → Pod
unfolding get_pod_name
update_identity nodeset pod =
    let ordinal = get_ordinal pod in
    let name = get_pod_name nodeset ordinal in
    record pod {
      name = name;
      namespace = nodeset.namespace;
      labels = some (
          insert label_pod_index (itoa ordinal) (insert label_pod_name name (or_empty pod.labels)));
    }

unfoldable pub init_identity : NodeSet → Pod → Pod
init_identity nodeset pod =
    let p = update_identity nodeset pod in
    record p {
      hostname =
          if is_empty p.hostname then p.name else str_append p.hostname (itoa (get_ordinal p));
      subdomain = nodeset.service_name;
    }

unfoldable pub is_identity_match : NodeSet → Pod → Bool
is_identity_match nodeset pod =
    let (parent, ordinal) = get_parent_name_and_ordinal pod in
    not (ltb_ℤ ordinal (pos 0))
    && str_eq nodeset.name parent
    && str_eq pod.name (get_pod_name nodeset ordinal)
    && str_eq pod.namespace nodeset.namespace
    && str_eq (get_string label_pod_name pod.labels) pod.name

-- `claim.Labels[key] = value` for every label of the selector
unfoldable pub add_labels : Dict String → Dict String → Dict String
add_labels [] m = m
add_labels ((key, value) ∷ ls) m = add_labels ls (insert key value m)

-- a nil selector is a nil dereference in the source, and admission refuses it
abbrev match_labels_of : NodeSet → Dict String
match_labels_of nodeset = elim nodeset.selector [ none ↦ [] | some s ↦ s.match_labels ]

abbrev claim_labels : Dict String → Option (Dict String) → Option (Dict String)
claim_labels selected none = some selected
claim_labels selected (some m) = some (add_labels selected m)

unfoldable pub claim_of_template : NodeSet → ℤ → Claim → Claim
claim_of_template nodeset ordinal template = record template {
  name = get_persistent_volume_claim_name nodeset template ordinal;
  namespace = nodeset.namespace;
  labels = claim_labels (match_labels_of nodeset) template.labels;
}

unfoldable pub claims_of : NodeSet → ℤ → List Claim → Dict Claim → Dict Claim
claims_of nodeset ordinal [] claims = claims
claims_of nodeset ordinal (t ∷ templates) claims =
    claims_of nodeset ordinal templates (insert t.name (claim_of_template nodeset ordinal t) claims)

unfoldable pub get_persistent_volume_claims : NodeSet → Pod → Dict Claim
unfolding claims_of
get_persistent_volume_claims nodeset pod =
    claims_of nodeset (get_ordinal pod) nodeset.volume_claim_templates []

abbrev claim_volume : String × Claim → Volume
claim_volume (name, claim) = record { name = name; claim_name = some claim.name }

-- the volumes that no claim replaces
unfoldable pub other_volumes : Dict Claim → List Volume → List Volume
other_volumes claims [] = []
other_volumes claims (v ∷ vs) =
    let rest = other_volumes claims vs in
    elim (lookup v.name claims) [ none ↦ v ∷ rest | some c ↦ rest ]

unfoldable pub update_storage : NodeSet → Pod → Pod
unfolding get_persistent_volume_claims other_volumes
update_storage nodeset pod =
    let claims = get_persistent_volume_claims nodeset pod in
    record pod { volumes = map claim_volume claims ++ other_volumes claims pod.volumes }

-- `volumes[volume.Name] = volume`: the last of a name stays
unfoldable pub volumes_by_name : List Volume → Dict Volume → Dict Volume
volumes_by_name [] m = m
volumes_by_name (v ∷ vs) m = volumes_by_name vs (insert v.name v m)

abbrev claim_is : Option String → String → Bool
claim_is none name = false
claim_is (some n) name = str_eq n name

unfoldable pub templates_match : NodeSet → ℤ → Dict Volume → List Claim → Bool
templates_match nodeset ordinal volumes [] = true
templates_match nodeset ordinal volumes (claim ∷ claims) = elim (lookup claim.name volumes) [
  | none ↦ false
  | some v ↦
      claim_is v.claim_name (get_persistent_volume_claim_name nodeset claim ordinal)
      && templates_match nodeset ordinal volumes claims
]

unfoldable pub is_storage_match : NodeSet → Pod → Bool
unfolding volumes_by_name templates_match
is_storage_match nodeset pod =
    let ordinal = get_ordinal pod in
    if ltb_ℤ ordinal (pos 0)
    then false
    else templates_match nodeset ordinal (volumes_by_name pod.volumes [])
        nodeset.volume_claim_templates

unfoldable pub new_nodeset_pod : Library → NodeSet → ℤ → String → Pod
new_nodeset_pod k nodeset ordinal revision_hash =
    let pod = k.pod_from_template nodeset.template nodeset in
    let named = record pod { name = get_pod_name nodeset ordinal } in
    let p = update_storage nodeset (init_identity nodeset named) in
    let labels = if is_empty revision_hash then p.labels else set_revision p.labels revision_hash in
    k.add_tolerations (record p { labels = labels; node_name = "" })
