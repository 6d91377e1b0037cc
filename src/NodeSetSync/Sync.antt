-- ===== src/NodeSetSync/Sync.antt =====
-- `Reconcile` and `Sync`
-- (upstream/slurm-operator/internal/controller/nodeset/nodeset_controller.go and nodeset_sync.go).
pub mod Waits
use slinky_on_openshift.Prelude.{
  Bool, true, false, not, ◌&&◌, ◌||◌, Option, none, some, List, [], ◌∷◌, String, if◌then◌else◌,
}
use slinky_on_openshift.Prelude.Int.{ℤ, pos}
use slinky_on_openshift.Exec.{Error, message, Result, ok, err, panic, M, pure, raise, ◌>>=◌, ◌>>◌}
use slinky_on_openshift.Kube.{Pod, NodeSet, Selector}
use slinky_on_openshift.Utils.Pods.{key_func, get_revision}
use slinky_on_openshift.Utils.KeyedStore.{pop}
use slinky_on_openshift.NodeSetSync.Reconciler.{Reconciler, Revision}
use slinky_on_openshift.NodeSetSync.ScaleIn.{is_not_found}
use slinky_on_openshift.NodeSetSync.Update.{sync_update}
use slinky_on_openshift.NodeSetSync.Process.{sync}
use slinky_on_openshift.NodeSetSync.Status.{sync_status}
use slinky_on_openshift.NodeSetSync.History.{
  get_nodeset_pods, list_revisions, truncate_history, get_nodeset_revisions, adopt_orphan_revisions,
}

abbrev is_nil : {A : Type 0} → List A → Bool
is_nil [] = true
is_nil (x ∷ xs) = false

-- equal to the empty selector: there is one, and it selects by nothing
abbrev selects_everything : Option Selector → Bool
selects_everything none = false
selects_everything (some s) = is_nil s.match_labels && is_nil s.match_expressions

abbrev is_some : Option ℤ → Bool
is_some none = false
is_some (some t) = true

module _ {S : Type 0} (r : Reconciler S) where
  -- from the expectations on; the status is updated whatever the result
  unfoldable pub sync_pods :
      NodeSet → List Pod → List Revision → Revision → Revision → ℤ → M S (Unit {0})
  unfolding sync sync_update truncate_history sync_status
  sync_pods nodeset pods revisions current update collision_count s =
      let key = key_func nodeset.namespace nodeset.name in
      let hash = get_revision update.labels in
      let status = sync_status r nodeset pods current update collision_count hash in
      if not (r.expectations.satisfied_expectations key s) || is_some nodeset.deletion_timestamp
      then status [] s
      else let (r1, s1) = sync r nodeset pods hash s in
        elim r1 [
          | panic ↦ (panic, s1)
          | err e ↦ status (e ∷ []) s1
          | ok _ ↦
              if not (r.expectations.satisfied_expectations key s1)
              then status [] s1
              else let (r2, s2) = sync_update r nodeset pods hash s1 in
                elim r2 [
                  | panic ↦ (panic, s2)
                  | err e ↦ status (e ∷ []) s2
                  | ok _ ↦
                      let (r3, s3) = truncate_history r nodeset revisions current update s2 in
                      elim r3 [
                        | panic ↦ (panic, s3)
                        | err e ↦ status (message "failed to clean up revisions" ∷ []) s3
                        | ok _ ↦ status [] s3
                      ]
                ]
        ]

  unfoldable pub sync_found : NodeSet → M S (Unit {0})
  unfolding sync_pods adopt_orphan_revisions list_revisions get_nodeset_revisions get_nodeset_pods
  sync_found nodeset =
      if selects_everything nodeset.selector
      then (λ s. (ok tt, r.kube.warn_selecting_all nodeset s))
      else adopt_orphan_revisions r nodeset >> list_revisions r nodeset >>= λ listed.
          let revisions = r.kube.sort_revisions listed in
          get_nodeset_revisions r nodeset revisions >>= λ found.
          let (current, update, collision_count) = found in
          get_nodeset_pods r nodeset >>= λ pods.
          sync_pods nodeset pods revisions current update collision_count

  -- `Sync`, for the key of the request
  unfoldable pub sync_request : String → M S (Unit {0})
  unfolding sync_found
  sync_request request s =
      let (res, s1) = r.kube.get_nodeset request s in
      elim res [
        | panic ↦ (panic, s1)
        | ok nodeset ↦ sync_found nodeset s1
        | err e ↦
            if is_not_found e
            then (ok tt, r.expectations.delete_expectations request s1)
            else (err e, s1)
      ]

  -- `Reconcile`: the result, `RequeueAfter`, and the state. The deferred second `Pop` finds nothing.
  unfoldable pub reconcile : String → S → Result (Unit {0}) × ℤ × S
  unfolding sync_request
  reconcile request s =
      let (res, s1) = sync_request request s in
      let (after, durations) = pop request (r.durations s1) in
      (res, after, r.set_durations (pop request durations).1 (r.set_durations durations s1))
