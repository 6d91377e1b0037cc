-- ===== src/NodeSetSync/Process.antt =====
-- Scale out, scale in, or process the pods of a NodeSet
-- (upstream/slurm-operator/internal/controller/nodeset/nodeset_sync.go).
pub mod Replicas
pub mod Converge
pub mod Shrink
pub mod Settled
pub mod AsWanted
use slinky_on_openshift.Prelude.{
  ℕ, zero, suc, ◌-◌, Bool, true, false, not, ◌||◌, Option, none, some, List, [], ◌∷◌, String,
  length, if◌then◌else◌,
}
use slinky_on_openshift.Prelude.Int.{ℤ, pos, negsuc}
use slinky_on_openshift.Exec.{Result, ok, err, panic, M, pure, ◌>>=◌, ◌>>◌}
use slinky_on_openshift.Kube.{Pod, NodeSet}
use slinky_on_openshift.Utils.Pods.{key_func, is_failed, is_succeeded, is_terminating}
use slinky_on_openshift.Sort.{split_active_pods}
use slinky_on_openshift.NodeSetSync.Reconciler.{Reconciler, for_pods}
use slinky_on_openshift.NodeSetSync.Cordon.{make_pod_uncordon_and_undrain, sync_slurm}
use slinky_on_openshift.NodeSetSync.ScaleOut.{do_pod_scale_out}
use slinky_on_openshift.NodeSetSync.ScaleIn.{do_pod_scale_in}
use slinky_on_openshift.NodeSetSync.Update.{replicas_of, minus, split_update_pods}

module _ {S : Type 0} (r : Reconciler S) where
  unfoldable pub process_replica : NodeSet → Pod → M S (Unit {0})
  unfolding is_failed is_succeeded is_terminating
  process_replica nodeset pod =
      if is_failed pod || is_succeeded pod
      then if not (is_terminating pod)
        then r.pod_control.delete_nodeset_pod nodeset pod
        else pure tt
      else r.pod_control.update_nodeset_pod nodeset pod

  unfoldable pub do_pod_processing : NodeSet → List Pod → String → M S (Unit {0})
  unfolding split_update_pods for_pods make_pod_uncordon_and_undrain process_replica
  do_pod_processing nodeset pods hash s =
      elim (split_update_pods r.library r.sort nodeset (r.kube.now s) pods hash) [
        | none ↦ (panic, s)
        | some (_, pods_to_keep) ↦
            (for_pods r pods_to_keep (make_pod_uncordon_and_undrain r nodeset)
                >> r.expectations.set_expectations (key_func nodeset.namespace nodeset.name)
                >> for_pods r pods (process_replica nodeset))
              s
      ]

  -- by how many pods there are more than wanted
  unfoldable pub by_difference : NodeSet → List Pod → String → ℤ → M S (Unit {0})
  unfolding do_pod_scale_out do_pod_scale_in do_pod_processing split_active_pods
  by_difference nodeset pods hash (negsuc n) = do_pod_scale_out r nodeset pods (pos (suc n)) hash
  by_difference nodeset pods hash (pos zero) = do_pod_processing nodeset pods hash
  by_difference nodeset pods hash (pos (suc n)) =
      let (pods_to_delete, pods_to_keep) = split_active_pods r.sort r.library pods (pos (suc n)) in
      do_pod_scale_in r nodeset pods_to_delete pods_to_keep

  unfoldable pub sync_nodeset : NodeSet → List Pod → String → M S (Unit {0})
  unfolding by_difference
  sync_nodeset nodeset pods hash =
      by_difference nodeset pods hash (minus (pos (length pods)) (replicas_of nodeset))

  unfoldable pub sync : NodeSet → List Pod → String → M S (Unit {0})
  unfolding sync_slurm sync_nodeset
  sync nodeset pods hash = sync_slurm r nodeset pods >> sync_nodeset nodeset pods hash
