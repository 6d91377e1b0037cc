-- ===== src/Scenarios/Reconcile.antt =====
-- The theorems on the reconciler of NodeSets.
use mathlib.Core.List.{Perm}
use slinky_on_openshift.Prelude.{
  String, ◌-◌, ◌<◌, ◌≡◌, refl, inl, inr, min, false, Option, none, some, List, [], ◌∷◌, ◌++◌,
  length, All, arith, str_eq, if◌then◌else◌,
}
use slinky_on_openshift.Prelude.Int.{pos, negsuc, ◌≤ℤ◌}
use slinky_on_openshift.Exec.{M}
use slinky_on_openshift.Kube.{Pod, NodeSet, IntOrString, int_value}
use slinky_on_openshift.Utils.Pods.{key_func, is_running_and_ready}
use slinky_on_openshift.Sort.{insertion_sort}
use slinky_on_openshift.Sort.Split.{insertion_sort-perm}
use slinky_on_openshift.NodeSetSync.ScaleOut.{new_ordinals, do_pod_scale_out}
use slinky_on_openshift.NodeSetSync.ScaleOut.Ordinals.{Fresh, new_ordinals-Fresh}
use slinky_on_openshift.NodeSetSync.ScaleIn.{do_pod_scale_in}
use slinky_on_openshift.NodeSetSync.ScaleIn.Busy.{composed, do_pod_scale_in-IsBusy}
use slinky_on_openshift.Prelude.Dict.{lookup}
use slinky_on_openshift.SlurmControl.Nodes.{Node, drain, has_state}
use slinky_on_openshift.SlurmControl.Client.{lookup_client}
use slinky_on_openshift.SlurmControl.Status.{Json}
use slinky_on_openshift.Sort.{count_unhealthy}
use slinky_on_openshift.Utils.Pods.{get_revision, is_terminating, is_healthy}
use slinky_on_openshift.NodeSetSync.Update.Unlimited.{sync_update-unlimited}
use slinky_on_openshift.NodeSetSync.Update.{
  scale_in_any, sync_update, find_updated_pods, split_for_rolling,
}
use slinky_on_openshift.NodeSetSync.Update.Budget.{
  IsOld, is_old, is_missing, how_many, max_unavailable, live_pods, split_for_rolling_lem,
}
use slinky_on_openshift.NodeSetSync.Process.{do_pod_processing, sync_nodeset}
use slinky_on_openshift.NodeSetSync.Process.Replicas.{sync_nodeset_lem}
use slinky_on_openshift.NodeSetSync.History.{to_truncate}
use slinky_on_openshift.NodeSetSync.History.Truncate.{to_truncate_lem, IsUnused}
use slinky_on_openshift.Scenarios.World.{
  ready_pod, waiting_pod, old_pod, a_nodeset, a_library, World, fresh, called, a_revision,
  a_reconciler, a_pod_client, a_client, the_clusters,
}

abbrev other_delete : NodeSet → Pod → M World (Unit {0})
other_delete nodeset pod = called "other delete" tt

abbrev other_patch : Pod → Pod → M World (Unit {0})
other_patch pod from = called "other patch" tt

abbrev other_drain : NodeSet → Pod → String → M World (Unit {0})
other_drain nodeset pod reason = called "other drain" tt

-- two gaps of three used ordinals
new_ordinals-Fresh_example :
    Fresh 3 (pos 0 ∷ pos 2 ∷ negsuc 0 ∷ []) 0 (new_ordinals 3 (pos 0 ∷ pos 2 ∷ negsuc 0 ∷ []) 0)
new_ordinals-Fresh_example = new_ordinals-Fresh 3 (pos 0 ∷ pos 2 ∷ negsuc 0 ∷ []) 0

abbrev one : Option IntOrString
one = some (int_value (pos 1))

-- a limit of one, and an updated pod that is not available yet
split_for_rolling_example :
    let (to_delete, to_keep) =
      split_for_rolling a_library insertion_sort a_nodeset
        (pos 9)
        one
        (waiting_pod ∷ old_pod ∷ [])
        "new" in
    Perm (to_delete ++ to_keep) (live_pods (waiting_pod ∷ old_pod ∷ []))
    × All (IsOld "new") to_delete
    × (length to_delete
        ≡ min
            (max_unavailable insertion_sort insertion_sort-perm a_library a_nodeset
                (pos 9)
                one
                (waiting_pod ∷ old_pod ∷ [])
                "new"
              - how_many
                  (is_missing insertion_sort insertion_sort-perm a_library a_nodeset
                    (pos 9)
                    one
                    (waiting_pod ∷ old_pod ∷ [])
                    "new")
                  (waiting_pod ∷ old_pod ∷ []))
            (how_many (is_old "new") (waiting_pod ∷ old_pod ∷ [])))
split_for_rolling_example =
    split_for_rolling_lem insertion_sort insertion_sort-perm a_library a_nodeset (pos 9) one
      (waiting_pod ∷ old_pod ∷ []) "new"

-- one replica is wanted, and there are two pods
sync_nodeset_example :
    let pods = ready_pod ∷ waiting_pod ∷ [] in
    (length pods < 1
      → sync_nodeset a_reconciler a_nodeset pods "new"
        ≡ do_pod_scale_out a_reconciler a_nodeset pods (pos (1 - length pods)) "new")
    × (length pods ≡ 1
        → sync_nodeset a_reconciler a_nodeset pods "new"
          ≡ do_pod_processing a_reconciler a_nodeset pods "new")
    × (1 < length pods
        → (condemned kept : List Pod) × Perm (condemned ++ kept) pods
          × (length kept ≡ 1)
          × (sync_nodeset a_reconciler a_nodeset pods "new"
              ≡ do_pod_scale_in a_reconciler a_nodeset condemned kept))
sync_nodeset_example =
    sync_nodeset_lem a_reconciler insertion_sort-perm a_nodeset (ready_pod ∷ waiting_pod ∷ []) "new"
      1 refl

-- three revisions, of which the update and the current one are live, and a limit of one
to_truncate_example :
    let revisions =
      a_revision "a" (pos 1)
      ∷ a_revision "b" (pos 2)
      ∷ a_revision "old" (pos 3)
      ∷ a_revision "new" (pos 4)
      ∷ [] in
    let current = a_revision "old" (pos 3) in
    let update = a_revision "new" (pos 4) in
    (deleted kept : _) × (to_truncate a_nodeset current update (ready_pod ∷ []) revisions
      ≡ (deleted, false))
    × IsUnused a_nodeset current update (ready_pod ∷ []) revisions (deleted ++ kept)
    × (length kept ≡ min 1 (length (deleted ++ kept)))
    × All (λ x. All (λ y. x.number ≤ℤ y.number) kept) deleted
to_truncate_example =
    to_truncate_lem a_nodeset (a_revision "old" (pos 3)) (a_revision "new" (pos 4)) (ready_pod ∷ [])
      1
      (a_revision "a" (pos 1)
        ∷ a_revision "b" (pos 2)
        ∷ a_revision "old" (pos 3)
        ∷ a_revision "new" (pos 4)
        ∷ [])
      refl
      (
        (omega arith, (omega arith, (omega arith, tt))),
        ((omega arith, (omega arith, tt)), ((omega arith, tt), (tt, tt))),
      )

abbrev single_name : String → Option (List String)
single_name s = some (s ∷ [])

abbrev no_json : Json
no_json = record { to_string = λ i. ""; parse = λ s. record { namespace = ""; pod_name = "" } }

abbrev working_node : Node
working_node = record { name = some "a-0"; state = drain ∷ []; comment = none; reason = none }

abbrev lost_delete : String → String → M World (Unit {0})
lost_delete namespace name =
    if str_eq name ready_pod.name then called "lost" tt else a_pod_client.delete_pod namespace name

do_pod_scale_in-IsBusy_example :
    do_pod_scale_in
      (composed a_reconciler single_name no_json
        (the_clusters working_node)
        (record a_pod_client { delete_pod = lost_delete }))
      a_nodeset
      (ready_pod ∷ waiting_pod ∷ [])
      []
      fresh
    ≡ do_pod_scale_in
        (composed a_reconciler single_name no_json (the_clusters working_node) a_pod_client)
        a_nodeset
        (ready_pod ∷ waiting_pod ∷ [])
        []
        fresh
unfolding is_running_and_ready lookup_client lookup key_func has_state
do_pod_scale_in-IsBusy_example =
    do_pod_scale_in-IsBusy a_reconciler single_name no_json (the_clusters working_node) a_nodeset
      (a_client working_node) refl a_pod_client lost_delete (ready_pod ∷ waiting_pod ∷ []) []
      (inl (inr (refl, λ s. (working_node, refl, refl))), (inr (λ s. refl), tt)) fresh

-- of two pods, the updated one is not available yet, and the limit is one: the other is scaled in
sync_update-unlimited_example :
    let nodeset = record a_nodeset { rolling_update_max_unavailable = some one } in
    let pods = waiting_pod ∷ old_pod ∷ [] in
    let old = (find_updated_pods pods "new").1 in
    (condemned rest : List Pod) × Perm (condemned ++ rest) old
    × (length condemned
        ≡ min
            (max_unavailable insertion_sort insertion_sort-perm a_library nodeset
              (pos 9)
              one
              pods
              "new")
            (length old))
    × (sync_update a_reconciler nodeset pods "new" fresh
        ≡ scale_in_any a_reconciler nodeset condemned fresh)
unfolding find_updated_pods get_revision is_terminating count_unhealthy is_healthy
    is_running_and_ready lookup
sync_update-unlimited_example =
    sync_update-unlimited a_reconciler insertion_sort-perm
      (record a_nodeset { rolling_update_max_unavailable = some one }) one
      (waiting_pod ∷ old_pod ∷ []) "new" fresh refl refl refl
