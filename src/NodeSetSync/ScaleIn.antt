-- ===== src/NodeSetSync/ScaleIn.antt =====
-- Fewer pods for a NodeSet that has too many
-- (upstream/slurm-operator/internal/controller/nodeset/nodeset_sync.go).
pub mod Condemned
pub mod Busy
pub mod Awaited
pub mod Removed
use slinky_on_openshift.Prelude.{
  ℕ, Bool, true, false, not, ◌&&◌, List, [], ◌∷◌, String, length, map, if◌then◌else◌,
}
use slinky_on_openshift.Prelude.Int.{ℤ, pos, pos_part}
use slinky_on_openshift.Exec.{Error, not_found, Result, ok, err, panic, M, pure, raise, ◌>>=◌, ◌>>◌}
use slinky_on_openshift.Kube.{Pod, NodeSet}
use slinky_on_openshift.Utils.Math.{clamp}
use slinky_on_openshift.Utils.Pods.{key_func, is_terminating, is_running_and_ready}
use slinky_on_openshift.NodeSetSync.Reconciler.{Reconciler, push_duration, for_pods, for_first_pods}
use slinky_on_openshift.NodeSetSync.Cordon.{
  make_pod_uncordon_and_undrain, make_pod_cordon_and_drain,
}
use slinky_on_openshift.NodeSetSync.ScaleOut.{burst_replicas}

-- `apierrors.IsNotFound`
abbrev pub is_not_found : Error → Bool
is_not_found not_found = true
is_not_found _ = false

-- `kubecontroller.PodKey`
abbrev pub pod_key : Pod → String
pod_key pod = key_func pod.namespace pod.name

unfoldable pub get_pod_keys : List Pod → List String
get_pod_keys pods = map pod_key pods

abbrev pub ignoring_not_found : Result (Unit {0}) → Result (Unit {0})
ignoring_not_found (ok _) = ok tt
ignoring_not_found (err e) = if is_not_found e then ok tt else err e
ignoring_not_found panic = panic

-- 30 seconds, in nanoseconds
abbrev pub drain_requeue : ℤ
drain_requeue = pos 30000000000

module _ {S : Type 0} (r : Reconciler S) where
  unfoldable pub process_condemned : NodeSet → Pod → M S (Unit {0})
  unfolding is_terminating is_running_and_ready make_pod_cordon_and_drain
  process_condemned nodeset pod s =
      if is_terminating pod
      then (ok tt, s)
      else let (drained, s1) = r.slurm_control.is_node_drained nodeset pod s in
        elim drained [
          | err e ↦ (err e, s1)
          | panic ↦ (panic, s1)
          | ok is_drained ↦
              if is_running_and_ready r.library pod && not is_drained
              then make_pod_cordon_and_drain r nodeset pod
                  (push_duration r (pod_key pod) drain_requeue s1)
              else let (res, s2) = r.pod_control.delete_nodeset_pod nodeset pod s1 in
                (ignoring_not_found res, s2)
        ]

  -- the second half of the batch's function: the expectation of a node that is not drained yet
  unfoldable pub forget_undrained : String → NodeSet → Pod → M S (Unit {0})
  forget_undrained key nodeset pod s =
      let (drained, s1) = r.slurm_control.is_node_drained nodeset pod s in
      elim drained [
        | err e ↦ (err e, r.expectations.deletion_observed key (pod_key pod) s1)
        | panic ↦ (panic, s1)
        | ok is_drained ↦ (
          ok tt,
          (if is_drained then s1 else r.expectations.deletion_observed key (pod_key pod) s1),
        )
      ]

  unfoldable pub scale_in_pod : String → NodeSet → Pod → M S (Unit {0})
  unfolding process_condemned forget_undrained
  scale_in_pod key nodeset pod s =
      let (res, s1) = process_condemned nodeset pod s in
      elim res [
        | ok _ ↦ forget_undrained key nodeset pod s1
        | panic ↦ (panic, s1)
        | err e ↦
            let s2 = r.expectations.deletion_observed key (pod_key pod) s1 in
            if is_not_found e then forget_undrained key nodeset pod s2 else (err e, s2)
      ]

  unfoldable pub fix_pod_pvcs : NodeSet → Pod → M S (Unit {0})
  fix_pod_pvcs nodeset pod = do
    match_policy ← r.pod_control.pod_pvcs_match_retention_policy nodeset pod
    (if match_policy
        then pure tt
        else r.pod_control.update_pod_pvcs_for_retention_policy nodeset pod)

  unfoldable pub do_pod_scale_in :
      NodeSet → (pods_to_delete pods_to_keep : List Pod) → M S (Unit {0})
  unfolding for_pods for_first_pods make_pod_uncordon_and_undrain get_pod_keys scale_in_pod
      fix_pod_pvcs
  do_pod_scale_in nodeset pods_to_delete pods_to_keep =
      let key = key_func nodeset.namespace nodeset.name in
      let num_delete =
        pos_part (clamp (pos (length pods_to_delete)) (pos 0) (pos burst_replicas)) in
      for_pods r pods_to_keep (make_pod_uncordon_and_undrain r nodeset)
      >> for_pods r pods_to_delete (fix_pod_pvcs nodeset)
      >> r.expectations.expect_deletions key (get_pod_keys pods_to_delete)
      >> for_first_pods r num_delete pods_to_delete (scale_in_pod key nodeset)
