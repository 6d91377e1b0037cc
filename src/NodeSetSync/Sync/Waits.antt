-- ===== src/NodeSetSync/Sync/Waits.antt =====
-- What `Sync` leaves alone
-- (upstream/slurm-operator/internal/controller/nodeset/nodeset_sync.go).
use slinky_on_openshift.Prelude.{◌≡◌, ◌⊎◌, false, some, String}
use slinky_on_openshift.Prelude.Int.{ℤ}
use slinky_on_openshift.Exec.{M}
use slinky_on_openshift.Kube.{Pod, NodeSet}
use slinky_on_openshift.Utils.Pods.{key_func}
use slinky_on_openshift.NodeSetSync.Reconciler.{Reconciler}
use slinky_on_openshift.PodControl.Interface.{PodControlInterface}

abbrev Waits : {S : Type 0} → Reconciler S → NodeSet → S → Type 0
Waits r nodeset s =
    (r.expectations.satisfied_expectations (key_func nodeset.namespace nodeset.name) s ≡ false)
    ⊎ ((t : ℤ) × (nodeset.deletion_timestamp ≡ some t))

module _ {S : Type 0} (r : Reconciler S) (nodeset : NodeSet) where
  -- the same reconciler, but with another control of pods, and other ways to patch a pod, to drain a
  -- Slurm node and to undrain one
  abbrev pub with_writes :
      PodControlInterface S
      → (patch_pod : Pod → Pod → M S (Unit {0}))
      → (drain undrain : NodeSet → Pod → String → M S (Unit {0})) → Reconciler S
  with_writes pod_control patch_pod drain undrain = record r {
    pod_control = pod_control;
    kube = record r.kube { patch_pod = patch_pod };
    slurm_control = record r.slurm_control { make_node_drain = drain; make_node_undrain = undrain };
  }
