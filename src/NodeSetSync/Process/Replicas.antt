-- ===== src/NodeSetSync/Process/Replicas.antt =====
-- A scale-in keeps the number of pods that is wanted
-- (upstream/slurm-operator/internal/controller/nodeset/nodeset_sync.go).
use mathlib.Core.List.{Perm}
use slinky_on_openshift.Prelude.{
  ℕ, suc, ◌-◌, ◌<◌, ◌≡◌, ap, ◌∙◌, Bool, List, ◌++◌, String, arith, length, length-append,
  length-perm,
}
use slinky_on_openshift.Prelude.Int.{pos, negsuc}
use slinky_on_openshift.Kube.{Pod, NodeSet}
use slinky_on_openshift.Sort.{split_active_pods}
use slinky_on_openshift.Sort.Split.{split_active_pods_lem}
use slinky_on_openshift.NodeSetSync.Reconciler.{Reconciler}
use slinky_on_openshift.NodeSetSync.ScaleOut.{do_pod_scale_out}
use slinky_on_openshift.NodeSetSync.ScaleIn.{do_pod_scale_in}
use slinky_on_openshift.NodeSetSync.Update.{replicas_of, minus}
use slinky_on_openshift.NodeSetSync.Process.{do_pod_processing, by_difference, sync_nodeset}

module _ {S : Type 0} (r : Reconciler S)
    (sort-perm : (lt : Pod → Pod → Bool) (xs : List Pod) → Perm (r.sort lt xs) xs)
    (nodeset : NodeSet) (pods : List Pod) (hash : String) where
  -- For a sort that permutes and a number of replicas that is not negative: too few pods are scaled
  -- out by what is missing, as many as wanted are processed, and of too many, exactly the number
  -- that is wanted is kept, and each of the others is condemned once.
  pub sync_nodeset_lem :
      (n : ℕ)
      → replicas_of nodeset ≡ pos n
      → (length pods < n
          → sync_nodeset r nodeset pods hash
            ≡ do_pod_scale_out r nodeset pods (pos (n - length pods)) hash)
        × (length pods ≡ n
            → sync_nodeset r nodeset pods hash ≡ do_pod_processing r nodeset pods hash)
        × (n < length pods
            → (condemned kept : List Pod) × Perm (condemned ++ kept) pods
              × (length kept ≡ n)
              × (sync_nodeset r nodeset pods hash ≡ do_pod_scale_in r nodeset condemned kept))
  unfolding sync_nodeset by_difference
  sync_nodeset_lem n wanted =
      let l = length pods in
      let diff : minus (pos l) (replicas_of nodeset) ≡ minus (pos l) (pos n) =
        ap (minus (pos l)) wanted in
      let (condemned, kept) = split_active_pods r.sort r.library pods (pos (suc (l - n - 1))) in
      let split = split_active_pods_lem r.sort sort-perm r.library pods (pos (suc (l - n - 1))) in
      (
        λ few.
            let d : minus (pos l) (replicas_of nodeset) ≡ negsuc (n - l - 1) =
              diff ∙ ground arith in
            let missing : suc (n - l - 1) ≡ n - l = omega arith in
            ap (by_difference r nodeset pods hash) d
            ∙ ap (λ m. do_pod_scale_out r nodeset pods (pos m) hash) missing,
        λ same.
            let d : minus (pos l) (replicas_of nodeset) ≡ pos 0 = diff ∙ ground arith in
            ap (by_difference r nodeset pods hash) d,
        λ many.
            let d : minus (pos l) (replicas_of nodeset) ≡ pos (suc (l - n - 1)) =
              diff ∙ ground arith in
            (
              condemned,
              kept,
              split.0,
              omega (arith, length-append condemned kept, length-perm split.0, split.1),
              ap (by_difference r nodeset pods hash) d,
            ),
      )
