-- ===== src/NodeSetSync/ScaleIn/Condemned.antt =====
-- Which condemned pods are deleted
-- (upstream/slurm-operator/internal/controller/nodeset/nodeset_sync.go).
use slinky_on_openshift.Prelude.{
  ℕ, zero, suc, List, [], ◌∷◌, All, length, ◌≡◌, refl, ap, ◌⊎◌, inl, inr, true, false, String,
  arith,
}
use slinky_on_openshift.Exec.{Error, ok, err, M, ◌>>◌}
use slinky_on_openshift.Kube.{Pod, NodeSet}
use slinky_on_openshift.Utils.Pods.{key_func, is_terminating, is_running_and_ready}
use slinky_on_openshift.NodeSetSync.Reconciler.{
  Reconciler, at_pod, batch, for_pods, for_first_pods, error_of,
}
use slinky_on_openshift.NodeSetSync.Cordon.{
  make_pod_cordon_and_drain, make_pod_uncordon_and_undrain,
}
use slinky_on_openshift.Prelude.Int.{pos, pos_part}
use slinky_on_openshift.Utils.Math.{clamp}
use slinky_on_openshift.NodeSetSync.ScaleOut.{burst_replicas}
use slinky_on_openshift.NodeSetSync.ScaleIn.{
  fix_pod_pvcs, get_pod_keys, process_condemned, forget_undrained, scale_in_pod, do_pod_scale_in,
}

module _ {S : Type 0} where
  -- Functions that do the same on each of the pods do the same at every index.
  at_pod-cong :
      (pods : List Pod) (f g : Pod → M S (Unit {0}))
      → All (λ pod. (s : S) → f pod s ≡ g pod s) pods
      → (i : ℕ) (s : S) → at_pod pods f i s ≡ at_pod pods g i s
  at_pod-cong [] f g h i s = refl
  at_pod-cong (pod ∷ pods) f g h zero s = h.0 s
  at_pod-cong (pod ∷ pods) f g h (suc i) s = at_pod-cong pods f g h.1 i s

module _ {S : Type 0} (r : Reconciler S) (nodeset : NodeSet) where
  -- the same reconciler, but with another way to delete a pod
  abbrev pub with_delete : (NodeSet → Pod → M S (Unit {0})) → Reconciler S
  with_delete delete_pod = record r {
    pod_control = record r.pod_control { delete_nodeset_pod = delete_pod };
  }

  -- What keeps a condemned pod: it is terminating already, or it runs and is ready, and its Slurm
  -- node, wherever it is asked for, is not drained or cannot be read.
  abbrev pub IsKept : Pod → Type 0
  IsKept pod =
      (is_terminating pod ≡ true)
      ⊎ ((is_running_and_ready r.library pod ≡ true)
          × ((s : S)
              → ((r.slurm_control.is_node_drained nodeset pod s).0 ≡ ok false)
                ⊎ ((e : Error) × ((r.slurm_control.is_node_drained nodeset pod s).0 ≡ err e))))

  -- What keeps it, or both ways to delete it do the same.
  abbrev pub IsSpared : (NodeSet → Pod → M S (Unit {0})) → Pod → Type 0
  IsSpared delete_pod pod =
      IsKept pod
      ⊎ ((s : S) → delete_pod nodeset pod s ≡ r.pod_control.delete_nodeset_pod nodeset pod s)

  process_condemned-keeps :
      (delete_pod : NodeSet → Pod → M S (Unit {0})) (pod : Pod)
      → IsSpared delete_pod pod
      → (s : S)
      → process_condemned (with_delete delete_pod) nodeset pod s ≡ process_condemned r nodeset pod s
  unfolding process_condemned make_pod_cordon_and_drain
  process_condemned-keeps delete_pod pod (inl (inl h)) s = ground (arith, h)
  process_condemned-keeps delete_pod pod (inl (inr (ready, read))) s = ground (arith, ready, read s)
  process_condemned-keeps delete_pod pod (inr same) s =
      ground (arith, same (r.slurm_control.is_node_drained nodeset pod s).1)

  scale_in_pod-keeps :
      (delete_pod : NodeSet → Pod → M S (Unit {0})) (key : String) (pod : Pod)
      → IsSpared delete_pod pod
      → (s : S)
      → scale_in_pod (with_delete delete_pod) key nodeset pod s ≡ scale_in_pod r key nodeset pod s
  unfolding scale_in_pod forget_undrained
  scale_in_pod-keeps delete_pod key pod kept s =
      ground (arith, process_condemned-keeps delete_pod pod kept s)

  scale_in_pods-keep :
      (delete_pod : NodeSet → Pod → M S (Unit {0})) (key : String) (pods : List Pod)
      → All (IsSpared delete_pod) pods
      → All
          (λ pod.
            (s : S)
            → scale_in_pod (with_delete delete_pod) key nodeset pod s
              ≡ scale_in_pod r key nodeset pod s)
          pods
  scale_in_pods-keep delete_pod key [] h = tt
  scale_in_pods-keep delete_pod key (pod ∷ pods) h =
      (scale_in_pod-keeps delete_pod key pod h.0, scale_in_pods-keep delete_pod key pods h.1)

  -- For two ways to delete a pod that may differ only on pods that are terminating, or run and are
  -- ready on a Slurm node that is not drained or cannot be read: a scale-in does the same with both,
  -- whatever the schedule of its batches, so it deletes none of these pods, whatever it does with the
  -- others.
  pub do_pod_scale_in-keeps :
      (delete_pod : NodeSet → Pod → M S (Unit {0})) (condemned kept : List Pod)
      → All (IsSpared delete_pod) condemned
      → (s : S)
      → do_pod_scale_in (with_delete delete_pod) nodeset condemned kept s
        ≡ do_pod_scale_in r nodeset condemned kept s
  unfolding do_pod_scale_in for_first_pods make_pod_uncordon_and_undrain fix_pod_pvcs for_pods
  do_pod_scale_in-keeps delete_pod condemned kept h s =
      let key = key_func nodeset.namespace nodeset.name in
      let same : at_pod condemned (scale_in_pod (with_delete delete_pod) key nodeset)
          ≡ at_pod condemned (scale_in_pod r key nodeset) =
        λ j i s.
          at_pod-cong condemned (scale_in_pod (with_delete delete_pod) key nodeset)
            (scale_in_pod r key nodeset) (scale_in_pods-keep delete_pod key condemned h) i s j in
      let n = pos_part (clamp (pos (length condemned)) (pos 0) (pos burst_replicas)) in
      ap
        (λ (f : ℕ → M S (Unit {0})).
          (for_pods r kept (make_pod_uncordon_and_undrain r nodeset)
              >> for_pods r condemned (fix_pod_pvcs r nodeset)
              >> r.expectations.expect_deletions key (get_pod_keys condemned)
              >> (λ s'. error_of r (batch r n f s')))
            s)
        same
