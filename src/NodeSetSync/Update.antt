-- ===== src/NodeSetSync/Update.antt =====
-- Which pods a rolling update replaces
-- (upstream/slurm-operator/internal/controller/nodeset/nodeset_sync.go).
pub mod Budget
pub mod Unlimited
use slinky_on_openshift.Prelude.{
  ℕ, zero, suc, ◌+◌, Bool, true, false, not, Option, none, some, List, [], ◌∷◌, ◌++◌, String,
  str_eq, if◌then◌else◌,
}
use slinky_on_openshift.Prelude.Int.{ℤ, pos, negsuc, ◌+ℤ◌, neg_part, pos_part, sub_ℕ}
use slinky_on_openshift.Exec.{Result, ok, err, panic, M, pure, ◌>>=◌, ◌>>◌}
use slinky_on_openshift.Kube.{Pod, NodeSet, Library, IntOrString, rolling_update, on_delete}
use slinky_on_openshift.Utils.Math.{clamp, get_scaled_value_from_int_or_percent}
use slinky_on_openshift.Utils.Pods.{is_terminating, get_revision}
use slinky_on_openshift.Sort.{split_active_pods, split_unhealthy_pods}
use slinky_on_openshift.NodeSetSync.Reconciler.{Reconciler}
use slinky_on_openshift.NodeSetSync.ScaleIn.{do_pod_scale_in}

-- the pods with the hash, and those with another, each without the terminating ones
unfoldable pub find_updated_pods : List Pod → String → List Pod × List Pod
unfolding is_terminating get_revision
find_updated_pods [] hash = ([], [])
find_updated_pods (pod ∷ pods) hash =
    let (new_pods, old_pods) = find_updated_pods pods hash in
    if is_terminating pod
    then (new_pods, old_pods)
    else if str_eq (get_revision pod.labels) hash
    then (pod ∷ new_pods, old_pods)
    else (new_pods, pod ∷ old_pods)

-- `ptr.Deref(nodeset.Spec.Replicas, 0)`
abbrev pub replicas_of : NodeSet → ℤ
replicas_of nodeset = elim nodeset.replicas [ none ↦ pos 0 | some n ↦ n ]

abbrev pub minus : ℤ → ℤ → ℤ
minus a b = sub_ℕ (pos_part a + neg_part b) (neg_part a + pos_part b)

module _ (k : Library) where
  unfoldable pub count_unavailable : ℤ → ℤ → List Pod → ℕ
  count_unavailable min_ready now [] = 0
  count_unavailable min_ready now (pod ∷ pods) =
      (if not (k.is_pod_available pod min_ready now) then 1 else 0)
      + count_unavailable min_ready now pods

  module _ (sort : (Pod → Pod → Bool) → List Pod → List Pod) where
    -- the case of a rolling update, with its limit
    unfoldable pub split_for_rolling :
        NodeSet → ℤ → Option IntOrString → List Pod → String → List Pod × List Pod
    unfolding find_updated_pods count_unavailable split_active_pods
    split_for_rolling nodeset now limit pods hash =
        let (new_pods, old_pods) = find_updated_pods pods hash in
        let num_unavailable = count_unavailable nodeset.min_ready_seconds now new_pods in
        let max_unavailable =
          get_scaled_value_from_int_or_percent k limit (replicas_of nodeset) true (pos 1) in
        let remaining_unavailable =
          clamp (minus max_unavailable (pos num_unavailable)) (pos 0) max_unavailable in
        let (pods_to_delete, remaining_old) =
          split_active_pods sort k old_pods remaining_unavailable in
        (pods_to_delete, new_pods ++ remaining_old)

    -- none where the strategy has no `RollingUpdate`, a nil pointer
    unfoldable pub split_update_pods :
        NodeSet → ℤ → List Pod → String → Option (List Pod × List Pod)
    unfolding split_for_rolling
    split_update_pods nodeset now pods hash = elim nodeset.update_strategy [
      | on_delete ↦ some ([], [])
      | rolling_update ↦ elim nodeset.rolling_update_max_unavailable [
        | none ↦ none
        | some limit ↦ some (split_for_rolling nodeset now limit pods hash)
      ]
      | _ ↦ some ([], [])
    ]

module _ {S : Type 0} (r : Reconciler S) where
  -- `if len(pods) > 0 { return r.doPodScaleIn(ctx, nodeset, pods, nil) }`
  abbrev pub scale_in_any : NodeSet → List Pod → M S (Unit {0})
  scale_in_any nodeset [] = pure tt
  scale_in_any nodeset (pod ∷ pods) = do_pod_scale_in r nodeset (pod ∷ pods) []

  unfoldable pub sync_rolling_update : NodeSet → List Pod → String → M S (Unit {0})
  unfolding find_updated_pods split_unhealthy_pods split_update_pods do_pod_scale_in
  sync_rolling_update nodeset pods hash =
      let (_, old_pods) = find_updated_pods pods hash in
      let (unhealthy_pods, healthy_pods) = split_unhealthy_pods r.sort r.library old_pods in
      scale_in_any nodeset unhealthy_pods >> (λ s.
        elim (split_update_pods r.library r.sort nodeset (r.kube.now s) healthy_pods hash) [
          | none ↦ (panic, s)
          | some (pods_to_delete, _) ↦ scale_in_any nodeset pods_to_delete s
        ])

  unfoldable pub sync_update : NodeSet → List Pod → String → M S (Unit {0})
  unfolding sync_rolling_update
  sync_update nodeset pods hash = elim nodeset.update_strategy [
    | on_delete ↦ pure tt
    | rolling_update ↦ sync_rolling_update nodeset pods hash
    | _ ↦ pure tt
  ]
