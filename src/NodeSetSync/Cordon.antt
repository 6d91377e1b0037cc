-- ===== src/NodeSetSync/Cordon.antt =====
-- Cordon and drain of a pod, their reverse, and the deadline that a pod is marked with
-- (upstream/slurm-operator/internal/controller/nodeset/nodeset_sync.go).
pub mod Marks
use Prim.Native.String.{◌++◌ as str_append}
use slinky_on_openshift.Prelude.{
  Bool, true, false, not, Option, none, some, List, [], String, if◌then◌else◌,
}
use slinky_on_openshift.Prelude.Dict.{Dict, insert, delete}
use slinky_on_openshift.Prelude.Int.{ℤ, pos, eqb_ℤ}
use slinky_on_openshift.Exec.{Result, ok, err, panic, M, pure, ◌>>=◌, ◌>>◌}
use slinky_on_openshift.Kube.{Pod, NodeSet, Library}
use slinky_on_openshift.Utils.Pods.{
  annotation_pod_cordon, annotation_pod_deadline, is_pod_cordon, key_func,
}
use slinky_on_openshift.Utils.TimeStore.{TimeStore, peek_time}
use slinky_on_openshift.Naming.{get_node_name}
use slinky_on_openshift.NodeSetSync.Reconciler.{Reconciler, for_pods}

-- `fmt.Sprintf("Pod (%s) <what>", klog.KObj(pod))`
abbrev pub reason_about : Pod → String → String
reason_about pod what =
    str_append "Pod (" (str_append (key_func pod.namespace pod.name) (str_append ") " what))

abbrev pub or_empty : Option (Dict String) → Dict String
or_empty none = []
or_empty (some m) = m

abbrev pub without : String → Option (Dict String) → Option (Dict String)
without key none = none
without key (some m) = some (delete key m)

unfoldable pub cordoned : Pod → Pod
cordoned pod = record pod {
  annotations = some (insert annotation_pod_cordon "true" (or_empty pod.annotations));
}

unfoldable pub uncordoned : Pod → Pod
uncordoned pod = record pod { annotations = without annotation_pod_cordon pod.annotations }

-- A deadline is written to the annotations as they are: into a nil map, this panics.
unfoldable pub with_deadline : Library → ℤ → Pod → Option Pod
with_deadline k deadline pod =
    if eqb_ℤ deadline (pos 0)
    then some (record pod { annotations = without annotation_pod_deadline pod.annotations })
    else elim pod.annotations [
      | none ↦ none
      | some m ↦ some (record pod {
        annotations = some (insert annotation_pod_deadline (k.format_time deadline) m);
      })
    ]

module _ {S : Type 0} (r : Reconciler S) where
  unfoldable pub make_pod_cordon : Pod → M S (Unit {0})
  unfolding is_pod_cordon cordoned
  make_pod_cordon pod = if is_pod_cordon pod then pure tt else r.kube.patch_pod (cordoned pod) pod

  unfoldable pub make_pod_cordon_and_drain : NodeSet → Pod → M S (Unit {0})
  unfolding make_pod_cordon
  make_pod_cordon_and_drain nodeset pod = do
    _ ← make_pod_cordon pod
    r.slurm_control.make_node_drain nodeset pod (reason_about pod "has been cordoned")

  unfoldable pub make_pod_uncordon : Pod → M S (Unit {0})
  unfolding is_pod_cordon uncordoned
  make_pod_uncordon pod =
      if not (is_pod_cordon pod) then pure tt else r.kube.patch_pod (uncordoned pod) pod

  unfoldable pub make_pod_uncordon_and_undrain : NodeSet → Pod → M S (Unit {0})
  unfolding make_pod_uncordon
  make_pod_uncordon_and_undrain nodeset pod = do
    _ ← make_pod_uncordon pod
    r.slurm_control.make_node_undrain nodeset pod (reason_about pod "has been uncordoned")

  unfoldable pub sync_slurm_pod : NodeSet → TimeStore → Pod → M S (Unit {0})
  unfolding with_deadline is_pod_cordon
  sync_slurm_pod nodeset node_deadlines pod s =
      elim (with_deadline r.library (peek_time (get_node_name pod) node_deadlines) pod) [
        | none ↦ (panic, s)
        | some to_update ↦
            (r.kube.patch_pod to_update pod
                >> (if is_pod_cordon pod
                    then r.slurm_control.make_node_drain nodeset pod
                        (reason_about pod "is cordoned")
                    else r.slurm_control.make_node_undrain nodeset pod
                        (reason_about pod "is uncordoned")))
              s
      ]

  unfoldable pub sync_slurm : NodeSet → List Pod → M S (Unit {0})
  unfolding sync_slurm_pod for_pods
  sync_slurm nodeset pods = do
    node_deadlines ← r.slurm_control.get_node_deadlines nodeset pods
    for_pods r pods (sync_slurm_pod nodeset node_deadlines)
