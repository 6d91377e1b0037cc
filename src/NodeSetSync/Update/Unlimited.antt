-- ===== src/NodeSetSync/Update/Unlimited.antt =====
-- What the limit of a rolling update does not count
-- (upstream/slurm-operator/internal/controller/nodeset/nodeset_sync.go).
use mathlib.Core.List.{Perm}
use mathlib.Core.List.Perm
use mathlib.Core.Path.{subst}
use slinky_on_openshift.Prelude.{
  ◌≡◌, refl, ap, ◌∙◌, min, Bool, Option, some, List, [], ◌∷◌, ◌++◌, String, arith, length,
  length-perm, All, All-perm,
}
use slinky_on_openshift.Prelude.Int.{ℤ}
use slinky_on_openshift.Kube.{Pod, NodeSet, IntOrString, rolling_update}
use slinky_on_openshift.Sort.{less_by_creation, count_unhealthy, split_unhealthy_pods}
use slinky_on_openshift.NodeSetSync.Reconciler.{Reconciler}
use slinky_on_openshift.NodeSetSync.Update.{
  find_updated_pods, count_unavailable, split_for_rolling, split_update_pods, scale_in_any,
  sync_rolling_update, sync_update,
}
use slinky_on_openshift.NodeSetSync.Update.Budget.{
  IsOld, IsOld-prop, All-IsOld, live_pods, max_unavailable, unavailable, split_for_rolling-found,
}

find_updated-old :
    (pods : List Pod) (hash : String)
    → All (IsOld hash) pods
    → find_updated_pods pods hash ≡ ([], pods)
unfolding find_updated_pods
find_updated-old [] hash h = refl
find_updated-old (pod ∷ pods) hash h = ground (arith, h.0.0, h.0.1, find_updated-old pods hash h.1)

live_pods-old : (pods : List Pod) (hash : String) → All (IsOld hash) pods → live_pods pods ≡ pods
unfolding live_pods
live_pods-old [] hash h = refl
live_pods-old (pod ∷ pods) hash h = ground (arith, h.0.0, live_pods-old pods hash h.1)

module _ {S : Type 0} (r : Reconciler S)
    (sort-perm : (lt : Pod → Pod → Bool) (xs : List Pod) → Perm (r.sort lt xs) xs)
    (nodeset : NodeSet) (limit : Option IntOrString) (pods : List Pod) (hash : String) where
  abbrev old_pods : List Pod
  old_pods = (find_updated_pods pods hash).1

  abbrev healthy : List Pod
  healthy = r.sort less_by_creation old_pods

  healthy-IsOld : All (IsOld hash) healthy
  healthy-IsOld =
      All-perm (IsOld hash) (IsOld-prop hash) healthy old_pods (sort-perm less_by_creation old_pods)
        (All-IsOld pods hash)

  split-old :
      (now : ℤ)
      → let (condemned, rest) = split_for_rolling r.library r.sort nodeset now limit healthy hash in
        Perm (condemned ++ rest) old_pods
        × (length condemned
            ≡ min
                (max_unavailable r.sort sort-perm r.library nodeset now limit pods hash)
                (length old_pods))
  unfolding count_unavailable
  split-old now =
      let (condemned, rest) = split_for_rolling r.library r.sort nodeset now limit healthy hash in
      let (perm, count) =
        split_for_rolling-found r.sort sort-perm r.library nodeset now limit healthy hash in
      let found = find_updated-old healthy hash healthy-IsOld in
      let sorted = sort-perm less_by_creation old_pods in
      let none_new : unavailable r.sort sort-perm r.library nodeset now limit healthy hash ≡ 0 =
        ap
          (λ (p : List Pod × List Pod).
            count_unavailable r.library nodeset.min_ready_seconds now p.0)
          found in
      let all_old : length (find_updated_pods healthy hash).1 ≡ length old_pods =
        ap (λ (p : List Pod × List Pod). length p.1) found ∙ length-perm sorted in
      (
        Perm.trans
            (subst (λ l. Perm (condemned ++ rest) l) (live_pods-old healthy hash healthy-IsOld)
              perm)
            sorted,
        omega (arith, count, none_new, all_old),
      )

  -- For a rolling update with a limit, a sort that permutes, and old pods that are all healthy: an
  -- update scales in as many old pods as the limit says, or all if there are fewer, however many of
  -- the updated pods are not available yet.
  pub sync_update-unlimited :
      (s : S)
      → nodeset.update_strategy ≡ rolling_update
      → nodeset.rolling_update_max_unavailable ≡ some limit
      → count_unhealthy r.sort r.library old_pods ≡ 0
      → (condemned rest : List Pod) × Perm (condemned ++ rest) old_pods
        × (length condemned
            ≡ min
                (max_unavailable r.sort sort-perm r.library nodeset (r.kube.now s) limit pods hash)
                (length old_pods))
        × (sync_update r nodeset pods hash s ≡ scale_in_any r nodeset condemned s)
  unfolding sync_update sync_rolling_update split_update_pods split_unhealthy_pods
  sync_update-unlimited s rolling has none_unhealthy =
      let (perm, count) = split-old (r.kube.now s) in
      (_, _, perm, count, ground (arith, rolling, has, none_unhealthy))
