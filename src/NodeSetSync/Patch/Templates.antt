-- ===== src/NodeSetSync/Patch/Templates.antt =====
-- The patch of a NodeSet is that of its template
-- (upstream/slurm-operator/internal/controller/nodeset/nodeset_history.go).
use slinky_on_openshift.Prelude.{◌≡◌, Option, none, some, arith}
use slinky_on_openshift.Kube.{NodeSet}
use slinky_on_openshift.NodeSetSync.Patch.{GoJson, Fields, object_at, get_patch}

-- the template of a NodeSet, as JSON
abbrev pub template_of : GoJson → NodeSet → Option Fields
template_of json nodeset = elim (json.marshal_nodeset nodeset) [
  | none ↦ none
  | some bytes ↦ elim (json.unmarshal bytes) [
    | none ↦ none
    | some raw ↦ elim (object_at "spec" raw) [ none ↦ none | some spec ↦ object_at "template" spec ]
  ]
]

pub get_patch-template :
    (json : GoJson) (a b : NodeSet) (template : Fields)
    → template_of json a ≡ some template
    → template_of json b ≡ some template
    → get_patch json a ≡ get_patch json b
unfolding get_patch
get_patch-template json a b template h g = ground (arith, h, g)
