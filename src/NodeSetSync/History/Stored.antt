-- ===== src/NodeSetSync/History/Stored.antt =====
-- The revision of a NodeSet's new specification, with the history control that the operator has
-- (upstream/slurm-operator/internal/controller/nodeset/nodeset_history.go).
use slinky_on_openshift.Prelude.{ℕ, ◌<◌, ◌≡◌, none, List, [], arith}
use slinky_on_openshift.Prelude.Dict.{Dict, lookup}
use slinky_on_openshift.Prelude.Int.{ℤ}
use slinky_on_openshift.Exec.{ok}
use slinky_on_openshift.Kube.{NodeSet}
use slinky_on_openshift.NodeSetSync.Reconciler.{Reconciler, Revision}
use slinky_on_openshift.HistoryControl.{RevisionClient}
use slinky_on_openshift.HistoryControl.Interface.{new_history_control}
use slinky_on_openshift.HistoryControl.Created.{
  on_store, nth_count, key_at, IsStored, create_controller_revision-IsStored,
}
use slinky_on_openshift.NodeSetSync.History.{
  last, count_of, next_revision, new_revision, with_current, get_nodeset_revisions,
}

module _ (base : Reconciler (Dict Revision)) (client : RevisionClient (Dict Revision))
    (fuel : ℕ) where
  -- the reconciler with the operator's own history control, on a server that keeps revisions by name
  abbrev pub with_history : Reconciler (Dict Revision)
  with_history = record base { history_control = new_history_control fuel (on_store client) }

  -- For a NodeSet whose new revision equals none of those listed, and a name that is not in use after
  -- some collisions, fewer than the fuel: the revisions are found. The one to update to has the new
  -- revision's data and is on the server under the name of the collision count that is returned, and
  -- the current one is as `with_current` looks it up by the hash in the status.
  pub get_nodeset_revisions-IsStored :
      (nodeset : NodeSet) (revisions : List Revision) (new : Revision) (n : ℕ)
      (entries : Dict Revision)
      → let count = count_of base nodeset.status.collision_count in
        new_revision base nodeset (next_revision revisions) count ≡ ok new
        → base.kube.find_equal_revisions revisions new ≡ []
        → n < fuel
        → lookup (key_at client nodeset new (nth_count n count)) entries ≡ none
        → (update : Revision) × (last : ℤ) × (after : Dict Revision) × (get_nodeset_revisions
              with_history nodeset revisions entries
            ≡ (ok (with_current base nodeset revisions last update), after))
          × IsStored client nodeset new entries update last after
  unfolding get_nodeset_revisions new_revision next_revision
  get_nodeset_revisions-IsStored nodeset revisions new n entries made no_equal enough unused =
      let count = count_of base nodeset.status.collision_count in
      let (update, last, after, ends, stored) =
        create_controller_revision-IsStored client nodeset new n fuel count entries enough unused in
      (update, last, after, ground (arith, made, no_equal, ends), stored)
