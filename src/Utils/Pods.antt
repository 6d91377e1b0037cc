-- ===== src/Utils/Pods.antt =====
-- upstream/slurm-operator/internal/utils: pod.go, map.go and meta.go, with the annotations of
-- api/v1alpha1/well_known.go, and historycontrol/utils.go.
use Prim.Native.Char.{code}
use Prim.Native.String.{[], ◌∷◌, ◌++◌}
use slinky_on_openshift.Prelude.{
  Bool, true, false, not, ◌&&◌, ◌||◌, Option, none, some, String, leb, ◌==◌, str_eq, if◌then◌else◌,
}
use slinky_on_openshift.Prelude.Dict.{Dict, lookup, insert}
use slinky_on_openshift.Prelude.Int.{ℤ, pos}
use slinky_on_openshift.Exec.{Error, message}
use slinky_on_openshift.Strconv.{parse_int32, parse_bool, is_empty}
use slinky_on_openshift.Kube.{
  Pod, PodPhase, no_phase, running, succeeded, failed, Library, get_string,
}

abbrev pub annotation_pod_cordon : String
annotation_pod_cordon = "nodeset.slinky.slurm.net/pod-cordon"

abbrev pub annotation_pod_deletion_cost : String
annotation_pod_deletion_cost = "nodeset.slinky.slurm.net/pod-deletion-cost"

abbrev pub annotation_pod_deadline : String
annotation_pod_deadline = "nodeset.slinky.slurm.net/pod-deadline"

abbrev pub label_pod_name : String
label_pod_name = "nodeset.slinky.slurm.net/pod-name"

abbrev pub label_pod_index : String
label_pod_index = "nodeset.slinky.slurm.net/pod-index"

-- `history.ControllerRevisionHashLabel`
abbrev pub revision_hash_label : String
revision_hash_label = "controller.kubernetes.io/hash"

unfoldable pub is_pod_cordon : Pod → Bool
is_pod_cordon pod = str_eq (get_string annotation_pod_cordon pod.annotations) "true"

abbrev is_running : PodPhase → Bool
is_running running = true
is_running _ = false

module _ (k : Library) where
  unfoldable pub is_running_and_ready : Pod → Bool
  is_running_and_ready pod = is_running pod.phase && k.is_pod_ready pod

abbrev has_phase : PodPhase → Bool
has_phase no_phase = false
has_phase _ = true

unfoldable pub is_created : Pod → Bool
is_created pod = has_phase pod.phase

abbrev failed_phase : PodPhase → Bool
failed_phase failed = true
failed_phase _ = false

unfoldable pub is_failed : Pod → Bool
is_failed pod = failed_phase pod.phase

abbrev succeeded_phase : PodPhase → Bool
succeeded_phase succeeded = true
succeeded_phase _ = false

unfoldable pub is_succeeded : Pod → Bool
is_succeeded pod = succeeded_phase pod.phase

unfoldable pub is_terminating : Pod → Bool
is_terminating pod = elim pod.deletion_timestamp [ none ↦ false | some t ↦ true ]

unfoldable pub is_healthy : Library → Pod → Bool
unfolding is_running_and_ready is_terminating
is_healthy k pod = is_running_and_ready k pod && not (is_terminating pod)

-- `KeyFunc`, the string of a NamespacedName
unfoldable pub key_func : String → String → String
key_func namespace name = namespace ++ ("/" ∷ name)

unfoldable pub valid_first_digit : String → Bool
valid_first_digit [] = false
valid_first_digit (c ∷ s) =
    code c == b'-' || code c == b'0' && is_empty s || leb b'1' (code c) && leb (code c) b'9'

unfoldable pub get_number_from_annotations : Option (Dict String) → String → ℤ × Option Error
unfolding valid_first_digit
get_number_from_annotations annotations key = elim annotations [
  | none ↦ (pos 0, none)
  | some m ↦ elim (lookup key m) [
    | none ↦ (pos 0, none)
    | some value ↦
        if not (valid_first_digit value)
        then (pos 0, some (message "invalid value"))
        else elim (parse_int32 value) [
          | none ↦ (pos 0, some (message "strconv.ParseInt"))
          | some i ↦ (i, none)
        ]
  ]
]

unfoldable pub get_bool_from_annotations : Option (Dict String) → String → Bool × Option Error
get_bool_from_annotations annotations key = elim annotations [
  | none ↦ (false, none)
  | some m ↦ elim (lookup key m) [
    | none ↦ (false, none)
    | some value ↦ elim (parse_bool value) [
      | none ↦ (false, some (message "strconv.ParseBool"))
      | some b ↦ (b, none)
    ]
  ]
]

unfoldable pub get_time_from_annotations :
    Library → Option (Dict String) → String → ℤ × Option Error
get_time_from_annotations k annotations key = elim annotations [
  | none ↦ (pos 0, none)
  | some m ↦ elim (lookup key m) [
    | none ↦ (pos 0, none)
    | some value ↦ elim (k.parse_time value) [
      | none ↦ (pos 0, some (message "time.Parse"))
      | some t ↦ (t, none)
    ]
  ]
]

-- A nil map is replaced in the callee only, so the caller's map stays nil.
unfoldable pub set_revision : Option (Dict String) → String → Option (Dict String)
set_revision none revision = none
set_revision (some m) revision =
    if is_empty revision then some m else some (insert revision_hash_label revision m)

unfoldable pub get_revision : Option (Dict String) → String
get_revision labels = get_string revision_hash_label labels
