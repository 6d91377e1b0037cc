-- ===== src/Scenarios/Histories.antt =====
-- The revisions of a NodeSet whose new one is created on a server that has one of the same name, and
-- of a NodeSet that is scaled.
use slinky_on_openshift.Prelude.{◌≡◌, refl, ◌∷◌, [], some, List, arith, str_eq}
use slinky_on_openshift.Prelude.Dict.{Dict, lookup}
use slinky_on_openshift.Prelude.Int.{ℤ, pos, ◌+ℤ◌}
use slinky_on_openshift.Exec.{ok}
use slinky_on_openshift.Utils.Pods.{key_func}
use slinky_on_openshift.Kube.{NodeSet}
use slinky_on_openshift.NodeSetSync.Reconciler.{Reconciler, Revision}
use slinky_on_openshift.NodeSetSync.Patch.{field, no_fields, text, object_at, get_field, get_patch}
use slinky_on_openshift.NodeSetSync.History.Unchanged.{
  equal_to, ComparesPatches, get_nodeset_revisions-unchanged,
}
use slinky_on_openshift.HistoryControl.Created.{IsStored}
use slinky_on_openshift.NodeSetSync.History.{
  add_annotations, next_revision, new_revision, with_current, get_nodeset_revisions,
}
use slinky_on_openshift.NodeSetSync.History.Stored.{with_history, get_nodeset_revisions-IsStored}
use slinky_on_openshift.Scenarios.Still.{a_still_reconciler}
use slinky_on_openshift.Scenarios.World.{
  a_template, a_nodeset, a_revision, a_revision_client, taken_names,
}

abbrev one_revision : List Revision
one_revision = a_revision "old" (pos 1) ∷ []

-- the revision that the NodeSet has
abbrev a_new_revision : Revision
a_new_revision = record (a_revision "new" (pos 2)) { annotations = some []; patch = "" }

-- the first name is in use for other data, the second is free
get_nodeset_revisions_example :
    let r = with_history a_still_reconciler a_revision_client 2 in
    (update : Revision) × (last : ℤ) × (after : Dict Revision) × (get_nodeset_revisions r a_nodeset
        one_revision taken_names
      ≡ (ok (with_current r a_nodeset one_revision last update), after))
    × IsStored a_revision_client a_nodeset a_new_revision taken_names update last after
unfolding lookup key_func new_revision add_annotations next_revision ◌+ℤ◌
get_nodeset_revisions_example =
    get_nodeset_revisions-IsStored a_still_reconciler a_revision_client 2 a_nodeset one_revision
      a_new_revision 1 taken_names refl refl (omega arith) refl

-- a history that compares revisions by their patches
abbrev comparing : Reconciler (Dict Revision)
comparing = record a_still_reconciler {
  kube = record a_still_reconciler.kube {
    find_equal_revisions = λ revisions x. equal_to x revisions;
    equal_revision = λ x y. str_eq x.patch y.patch;
  };
}

compares : ComparesPatches comparing
compares = record {
  stored = λ nodeset patch number count.
      (record (a_revision "new" number) { patch = patch }, refl, refl);
  found = λ revisions x. refl;
  compared = λ x y. refl;
}

-- a template whose pods have a host name, the revision of it, and one of an older template
abbrev named_nodeset : NodeSet
named_nodeset = record a_nodeset { template = record a_template { hostname = "worker" } }

abbrev two_revisions : List Revision
two_revisions =
    a_revision "old" (pos 1) ∷ record (a_revision "new" (pos 2)) { patch = "worker" } ∷ []

-- the NodeSet is scaled
get_nodeset_revisions-unchanged_example :
    let scaled = record named_nodeset { replicas = some (pos 9) } in
    get_nodeset_revisions comparing scaled two_revisions taken_names ≡ (
      ok (
          with_current comparing scaled two_revisions
            (pos 0)
            (record (a_revision "new" (pos 2)) { patch = "worker" })),
      taken_names,
    )
unfolding object_at get_field get_patch
get_nodeset_revisions-unchanged_example =
    get_nodeset_revisions-unchanged comparing compares named_nodeset
      (record named_nodeset { replicas = some (pos 9) })
      (field "hostname" (text "worker") no_fields) two_revisions
      (record (a_revision "new" (pos 2)) { patch = "worker" }) taken_names refl refl refl refl
