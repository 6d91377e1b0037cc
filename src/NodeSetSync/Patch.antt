-- ===== src/NodeSetSync/Patch.antt =====
-- The patch that a revision of a NodeSet stores: `getPatch` of
-- upstream/slurm-operator/internal/controller/nodeset/nodeset_history.go.
pub mod Templates
use slinky_on_openshift.Prelude.{Bool, Option, none, some, String, str_eq, if◌then◌else◌}
use slinky_on_openshift.Exec.{message, Result, ok, err, panic}
use slinky_on_openshift.Kube.{NodeSet}

mutual
  -- what `json.Unmarshal` reads into an `any`, a number by its text
  pub data Value : Type 0 where
    null : Value
    boolean : Bool → Value
    number text : String → Value
    array : Values → Value
    object : Fields → Value

  pub data Values : Type 0 where
    no_values : Values
    value : Value → Values → Values

  -- a `map[string]any`
  pub data Fields : Type 0 where
    no_fields : Fields
    field : String → Value → Fields → Fields

-- Go's `encoding/json`: of a NodeSet and of a map, each with its failure
pub record GoJson : Type 0 where
  pub marshal_nodeset : NodeSet → Option String
  pub unmarshal : String → Option Fields
  pub marshal : Fields → Option String

-- `m[key]`
unfoldable pub get_field : String → Fields → Option Value
get_field key no_fields = none
get_field key (field k v m) = let rest = get_field key m in if str_eq k key then some v else rest

-- `m[key] = v`
unfoldable pub set_field : String → Value → Fields → Fields
set_field key v no_fields = field key v no_fields
set_field key v (field k w m) =
    let rest = set_field key v m in if str_eq k key then field k v m else field k w rest

-- `m[key].(map[string]any)`, which panics where there is none
unfoldable pub object_at : String → Fields → Option Fields
unfolding get_field
object_at key m = elim (get_field key m) [
  | some (object fields) ↦ some fields
  | some _ ↦ none
  | none ↦ none
]

-- what is kept of a NodeSet: its template, marked as a replacement
unfoldable pub patch_of : Fields → Fields
unfolding set_field
patch_of template =
    field "spec"
      (object (field "template" (object (set_field "$patch" (text "replace") template)) no_fields))
      no_fields

unfoldable pub get_patch : GoJson → NodeSet → Result String
unfolding object_at patch_of
get_patch json nodeset = elim (json.marshal_nodeset nodeset) [
  | none ↦ err (message "json")
  | some bytes ↦ elim (json.unmarshal bytes) [
    | none ↦ err (message "json")
    | some raw ↦ elim (object_at "spec" raw) [
      | none ↦ panic
      | some spec ↦ elim (object_at "template" spec) [
        | none ↦ panic
        | some template ↦ elim (json.marshal (patch_of template)) [
          | none ↦ err (message "json")
          | some patch ↦ ok patch
        ]
      ]
    ]
  ]
]
