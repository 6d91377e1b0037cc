-- ===== src/NodeSetSync/ScaleOut/Composed.antt =====
-- A scale-out with the pod control that the operator has
-- (upstream/slurm-operator/internal/controller/nodeset/nodeset_sync.go and podcontrol/podcontrol.go).
use mathlib.Core.List.{Perm}
use slinky_on_openshift.Prelude.{ℕ, ◌+◌, ◌≡◌, List, String, length, All}
use slinky_on_openshift.Prelude.Int.{ℤ, pos, ◌≤ℤ◌}
use slinky_on_openshift.Exec.{ok}
use slinky_on_openshift.Kube.{Pod, NodeSet}
use slinky_on_openshift.PodControl.Operations.{PodClient}
use slinky_on_openshift.PodControl.Operations.Counted.{IsCounted, create_nodeset_pod-Counts}
use slinky_on_openshift.PodControl.Interface.{new_pod_control}
use slinky_on_openshift.EventHandler.{Cache, nodeset_key}
use slinky_on_openshift.NodeSetSync.Reconciler.{Reconciler, for_pods}
use slinky_on_openshift.NodeSetSync.Cordon.{make_pod_uncordon_and_undrain}
use slinky_on_openshift.NodeSetSync.ScaleOut.{do_pod_scale_out}
use slinky_on_openshift.NodeSetSync.ScaleOut.Expected.{
  Tracks, Accounts, IsControlled, see_all, do_pod_scale_out-settles,
}

module _ {S : Type 0} (base : Reconciler S) (client : PodClient S) where
  abbrev pub with_pods : Reconciler S
  with_pods = record base { pod_control = new_pod_control client }

  module _ (nodeset : NodeSet) (pending : S → ℤ) (created : S → ℕ)
      (tracks : Tracks base.expectations nodeset pending created)
      (counted : IsCounted pending created client) where
    with_pods-Accounts : Accounts with_pods nodeset pending created
    with_pods-Accounts = record {
      tracks = tracks;
      made = create_nodeset_pod-Counts pending created client counted nodeset;
    }

    -- With the operator's own pod control; over expectations that are set as asked and lowered by one,
    -- and a server whose calls return, whose claims and events are apart from the count of its pods,
    -- and whose namespace is not terminating; with any order of the goroutines, and behind an uncordon
    -- of all pods that succeeded: when the creations of as many pods as the scale-out has created have
    -- been seen, none of them terminating and each controlled by the NodeSet, no creation is expected
    -- any more.
    pub scale_out-settles :
        (cache : Cache) (queue : String → ℤ → S → S)
        → ((request : String) (d : ℤ) (s : S) → pending (queue request d s) ≡ pending s)
        → (pods : List Pod) (num_create : ℤ) (hash : String) (s s0 : S) (seen : List Pod)
        → ((l : List ℕ) → Perm (base.order l) l)
        → for_pods with_pods pods (make_pod_uncordon_and_undrain with_pods nodeset) s ≡ (ok tt, s0)
        → All (IsControlled cache (nodeset_key nodeset)) seen
        → created (do_pod_scale_out with_pods nodeset pods num_create hash s).1
          ≡ length seen + created s0
        → pending (
            see_all base.expectations cache queue seen
              (do_pod_scale_out with_pods nodeset pods num_create hash s).1)
          ≤ℤ pos 0
    scale_out-settles cache queue keeps =
        do_pod_scale_out-settles with_pods nodeset pending created with_pods-Accounts cache queue
          keeps
