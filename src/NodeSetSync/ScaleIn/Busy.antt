-- ===== src/NodeSetSync/ScaleIn/Busy.antt =====
-- A scale-in with the pod control and the Slurm control that the operator has
-- (upstream/slurm-operator/internal/controller/nodeset/nodeset_sync.go).
use slinky_on_openshift.Prelude.{
  ◌≡◌, ◌⊎◌, inl, inr, true, false, ◌&&◌, ◌||◌, Option, some, List, [], ◌∷◌, String, All, arith,
}
use slinky_on_openshift.Prelude.Dict.{Dict}
use slinky_on_openshift.Exec.{ok, M}
use slinky_on_openshift.Kube.{Pod, NodeSet}
use slinky_on_openshift.Naming.{get_node_name}
use slinky_on_openshift.Utils.Pods.{is_terminating, is_running_and_ready}
use slinky_on_openshift.SlurmControl.Nodes.{Node, idle, down, drain, has_state, SlurmClient}
use slinky_on_openshift.SlurmControl.Client.{lookup_client}
use slinky_on_openshift.SlurmControl.Status.{Json}
use slinky_on_openshift.SlurmControl.Drain.{is_node_drained}
use slinky_on_openshift.SlurmControl.Interface.{new_slurm_control}
use slinky_on_openshift.PodControl.Operations.{PodClient, delete_this_pod, delete_nodeset_pod}
use slinky_on_openshift.PodControl.Interface.{new_pod_control}
use slinky_on_openshift.NodeSetSync.Reconciler.{Reconciler}
use slinky_on_openshift.NodeSetSync.ScaleIn.{do_pod_scale_in}
use slinky_on_openshift.NodeSetSync.ScaleIn.Condemned.{IsKept, IsSpared, do_pod_scale_in-keeps}

module _ {S : Type 0} (r : Reconciler S) (expand : String → Option (List String)) (json : Json)
    (clusters : Dict (SlurmClient S)) where
  -- the reconciler with the operator's own controls
  abbrev pub composed : PodClient S → Reconciler S
  composed client = record r {
    pod_control = new_pod_control client;
    slurm_control = new_slurm_control expand json clusters;
  }

  module _ (nodeset : NodeSet) (slurm_client : SlurmClient S)
      (found : lookup_client clusters nodeset ≡ some slurm_client) where
    -- The pod is terminating, or it runs and is ready and the Slurm server, whenever it is asked, has
    -- its node as neither idle nor down, or not in DRAIN.
    abbrev pub IsBusy : Pod → Type 0
    IsBusy pod =
        (is_terminating pod ≡ true)
        ⊎ ((is_running_and_ready r.library pod ≡ true)
            × ((s : S)
                → (node : Node) × ((slurm_client.get_node (get_node_name pod) s).0 ≡ ok node)
                  × (((has_state node idle || has_state node down) && has_state node drain)
                      ≡ false)))

    delete_nodeset_pod-same :
        (client : PodClient S) (delete_pod : String → String → M S (Unit {0})) (pod : Pod)
        → ((s : S)
            → delete_pod pod.namespace pod.name s ≡ client.delete_pod pod.namespace pod.name s)
        → (s : S)
        → delete_nodeset_pod (record client { delete_pod = delete_pod }) nodeset pod s
          ≡ delete_nodeset_pod client nodeset pod s
    unfolding delete_nodeset_pod delete_this_pod
    delete_nodeset_pod-same client delete_pod pod same s = ground (arith, same s)

    IsKept-of_busy :
        (client : PodClient S) (pod : Pod) → IsBusy pod → IsKept (composed client) nodeset pod
    unfolding is_node_drained
    IsKept-of_busy client pod (inl h) = inl h
    IsKept-of_busy client pod (inr (ready, busy)) = inr (
      ready,
      λ s. let (node, read, working) = busy s in inl (ground (arith, found, read, working)),
    )

    -- The pod is busy, or the client and another way to delete a pod do the same with it.
    abbrev pub IsBusyOrSame : PodClient S → (String → String → M S (Unit {0})) → Pod → Type 0
    IsBusyOrSame client delete_pod pod =
        IsBusy pod
        ⊎ ((s : S)
            → delete_pod pod.namespace pod.name s ≡ client.delete_pod pod.namespace pod.name s)

    All-IsSpared :
        (client : PodClient S) (delete_pod : String → String → M S (Unit {0})) (pods : List Pod)
        → All (IsBusyOrSame client delete_pod) pods
        → All
            (IsSpared
              (composed client)
              nodeset
              (delete_nodeset_pod (record client { delete_pod = delete_pod })))
            pods
    All-IsSpared client delete_pod [] h = tt
    All-IsSpared client delete_pod (pod ∷ pods) (inl busy, h) =
        (inl (IsKept-of_busy client pod busy), All-IsSpared client delete_pod pods h)
    All-IsSpared client delete_pod (pod ∷ pods) (inr same, h) = (
      inr (delete_nodeset_pod-same client delete_pod pod same),
      All-IsSpared client delete_pod pods h,
    )

    -- For a NodeSet with a Slurm client, and two ways in which the API server deletes a pod that may
    -- differ only on condemned pods that are terminating, or are running and ready while the Slurm
    -- server, whenever it is asked, has their node as neither idle nor down, or not in DRAIN: a scale-in
    -- does the same with both, so it deletes none of these pods, whatever it does with the others.
    pub do_pod_scale_in-IsBusy :
        (client : PodClient S) (delete_pod : String → String → M S (Unit {0}))
        (condemned kept : List Pod)
        → All (IsBusyOrSame client delete_pod) condemned
        → (s : S)
        → do_pod_scale_in
            (composed (record client { delete_pod = delete_pod }))
            nodeset
            condemned
            kept
            s
          ≡ do_pod_scale_in (composed client) nodeset condemned kept s
    unfolding do_pod_scale_in
    do_pod_scale_in-IsBusy client delete_pod condemned kept h s =
        do_pod_scale_in-keeps (composed client) nodeset
          (delete_nodeset_pod (record client { delete_pod = delete_pod })) condemned kept
          (All-IsSpared client delete_pod condemned h) s
