-- ===== src/NodeSetSync/Process/Converge.antt =====
-- Syncs in a row bring a NodeSet to the wanted number of pods
-- (upstream/slurm-operator/internal/controller/nodeset/nodeset_sync.go).
use mathlib.Core.List.{Perm, Nodup}
use slinky_on_openshift.Prelude.{
  ℕ, zero, suc, ◌+◌, ◌*◌, ◌-◌, ◌^◌, ◌≤◌, ◌<◌, ◌≡◌, ◌∙◌, Bool, List, String, arith, length,
  length-map, map, min,
}
use slinky_on_openshift.Prelude.Int.{pos, pos_part}
use slinky_on_openshift.Kube.{Pod, NodeSet}
use slinky_on_openshift.Utils.Math.{clamp}
use slinky_on_openshift.NodeSetSync.Reconciler.{Reconciler}
use slinky_on_openshift.NodeSetSync.ScaleOut.{burst_replicas, do_pod_scale_out}
use slinky_on_openshift.NodeSetSync.ScaleOut.Made.{pod_name, Succeeds, do_pod_scale_out-makes}
use slinky_on_openshift.NodeSetSync.ScaleOut.Names.{pods_to_create-Nodup}
use slinky_on_openshift.NodeSetSync.Update.{replicas_of}
use slinky_on_openshift.NodeSetSync.Process.{sync_nodeset}
use slinky_on_openshift.NodeSetSync.Process.Replicas.{sync_nodeset_lem}

-- one step of `min 250` towards a bound
step_below : (l l' n : ℕ) → l ≤ n → l' ≡ min (n - l) 250 + l → l' ≤ n
step_below l l' n h e = ground (arith, h, e)

step_near :
    (k l l' n : ℕ)
    → l ≤ n
    → l' ≡ min (n - l) 250 + l
    → 250 * suc k < n - l + 250
    → 250 * k < n - l' + 250
step_near k l l' n h e near = ground (arith, h, e, near)

step_min :
    (k l l' n : ℕ)
    → l ≤ n
    → l' ≡ min (n - l) 250 + l
    → 250 * suc k < n - l + 250
    → min n (l' + 250 * k) ≡ min n (l + 250 * suc k)
step_min k l l' n h e near = ground (arith, h, e, near)

module _ {S : Type 0} (r : Reconciler S) (pods_of : S → List Pod) (nodeset : NodeSet)
    (hash : String) where
  -- the state behind a number of syncs, each of them with the pods that there are by then
  unfoldable pub syncs : ℕ → S → S
  syncs zero s = s
  syncs (suc k) s = syncs k (sync_nodeset r nodeset (pods_of s) hash s).1

  clamp-burst :
      (m : ℕ) → 0 < m → pos_part (clamp (pos m) (pos 0) (pos burst_replicas)) ≡ min m burst_replicas
  unfolding clamp
  clamp-burst m h = ground arith

  module _ (sort-perm : (lt : Pod → Pod → Bool) (xs : List Pod) → Perm (r.sort lt xs) xs)
      (succeeds : Succeeds r nodeset (λ s. map pod_name (pods_of s))) where
    one_sync :
        (n : ℕ) (s : S)
        → replicas_of nodeset ≡ pos n
        → burst_replicas * n < 2 ^ 31
        → Nodup (map pod_name (pods_of s))
        → length (pods_of s) < n
        → let s' = (sync_nodeset r nodeset (pods_of s) hash s).1 in
          Nodup (map pod_name (pods_of s'))
          × (length (pods_of s') ≡ min (n - length (pods_of s)) burst_replicas + length (pods_of s))
    one_sync n s wanted small distinct few =
        let pods = pods_of s in
        let l = length pods in
        let s' = (sync_nodeset r nodeset pods hash s).1 in
        let m = pos_part (clamp (pos (n - l)) (pos 0) (pos burst_replicas)) in
        let clamped : m ≡ min (n - l) burst_replicas = clamp-burst (n - l) (omega (arith, few)) in
        let apart =
          pods_to_create-Nodup nodeset r.library succeeds.tolerated pods m n hash
            (omega (arith, clamped)) (omega (arith, clamped, few)) small distinct in
        let (fine, unique, made) =
          do_pod_scale_out-makes r nodeset (λ s. map pod_name (pods_of s)) succeeds pods
            (pos (n - l)) hash s apart in
        rw ((sync_nodeset_lem r sort-perm nodeset pods hash n wanted).0 few) (
          unique,
          omega (
            arith,
            made,
            clamped,
            length-map pod_name pods,
            length-map pod_name (pods_of (do_pod_scale_out r nodeset pods (pos (n - l)) hash s).1),
          ),
        )

    -- With any order of the goroutines, a sort that permutes, and a server that creates a pod if none
    -- has its name and returns nil from every other call: for a NodeSet of at most 8589934 pods, with
    -- no more pods than wanted, all of different names, up to as many syncs as are needed each add 250
    -- pods, or as many as are missing, and the last of these comes to exactly the wanted number.
    pub syncs-reach :
        (k n : ℕ) (s : S)
        → replicas_of nodeset ≡ pos n
        → burst_replicas * n < 2 ^ 31
        → Nodup (map pod_name (pods_of s))
        → length (pods_of s) ≤ n
        → burst_replicas * k < n - length (pods_of s) + burst_replicas
        → length (pods_of (syncs k s)) ≡ min n (length (pods_of s) + burst_replicas * k)
    unfolding syncs
    syncs-reach zero n s wanted small distinct few near = ground (arith, few)
    syncs-reach (suc k) n s wanted small distinct few near =
        let l = length (pods_of s) in
        let s' = (sync_nodeset r nodeset (pods_of s) hash s).1 in
        let (unique, one) = one_sync n s wanted small distinct (omega (arith, few, near)) in
        let rest =
          syncs-reach k n s' wanted small unique (step_below l _ n few one)
            (step_near k l _ n few one near) in
        rest ∙ step_min k l _ n few one near
