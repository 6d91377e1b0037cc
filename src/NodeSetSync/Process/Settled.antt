-- ===== src/NodeSetSync/Process/Settled.antt =====
-- Pods that are as wanted are left alone
-- (upstream/slurm-operator/internal/controller/nodeset/nodeset_sync.go).
use mathlib.Core.Logic.Or
use mathlib.Core.List.{Mem, mem-cons, mem-cons_self, Mem-prop, mem-append_right, not-mem-nil}
use mathlib.Core.List.{Perm}
use mathlib.Core.List.Perm
use mathlib.Core.Path.{subst}
use slinky_on_openshift.Prelude.{
  ℕ, zero, suc, ◌≡◌, refl, ap, ◌∙◌, Bool, true, false, Bool-cases, inl, inr, Option, none, some,
  List, [], ◌∷◌, String, arith, length, get_elem?, get_elem?-some,
}
use slinky_on_openshift.Prelude.Dict.{Dict}
use slinky_on_openshift.Prelude.Int.{ℤ}
use slinky_on_openshift.Exec.{ok, M}
use slinky_on_openshift.Kube.{
  Pod, NodeSet, IntOrString, rolling_update, on_delete, no_strategy, other_strategy,
}
use slinky_on_openshift.Naming.{get_node_name, is_identity_match, is_storage_match}
use slinky_on_openshift.Utils.Pods.{
  key_func, is_pod_cordon, is_failed, is_succeeded, is_terminating,
}
use slinky_on_openshift.Utils.Batch.Complete.{slow_start_batch-Keeps}
use slinky_on_openshift.SlurmControl.Nodes.{Node, SlurmClient}
use slinky_on_openshift.SlurmControl.Client.{lookup_client}
use slinky_on_openshift.SlurmControl.Status.{Json}
use slinky_on_openshift.SlurmControl.Drain.{may_undrain, make_node_undrain}
use slinky_on_openshift.PodControl.Claims.{pod_pvcs_match_retention_policy}
use slinky_on_openshift.PodControl.Operations.{
  PodClient, with_identity, with_storage, keep_claims, attempt_with, attempt, update_nodeset_pod,
}
use slinky_on_openshift.NodeSetSync.Reconciler.{Reconciler, at_pod, for_pods}
use slinky_on_openshift.NodeSetSync.Cordon.{make_pod_uncordon, make_pod_uncordon_and_undrain}
use slinky_on_openshift.NodeSetSync.ScaleIn.Busy.{composed}
use slinky_on_openshift.NodeSetSync.Update.{split_for_rolling, split_update_pods}
use slinky_on_openshift.NodeSetSync.Update.Budget.{live_pods, split_for_rolling-found}
use slinky_on_openshift.NodeSetSync.Process.{process_replica, do_pod_processing}

mem-get_elem? : (pods : List Pod) (i : ℕ) (pod : Pod) → get_elem? pods i ≡ some pod → Mem pod pods
mem-get_elem? [] i pod h = cc
mem-get_elem? (p ∷ pods) zero pod h =
    subst (λ (o : Option Pod). elim o [ none ↦ Unit {0} | some q ↦ Mem q (p ∷ pods) ]) h
      mem-cons_self
mem-get_elem? (p ∷ pods) (suc i) pod h = mem-cons.1 (Or.inr (mem-get_elem? pods i pod h))

mem-live_pods : (pods : List Pod) (pod : Pod) → Mem pod (live_pods pods) → Mem pod pods
unfolding live_pods
mem-live_pods [] pod m = m
mem-live_pods (p ∷ pods) pod m = elim (Bool-cases (is_terminating p)) [
  | inl gone ↦ mem-cons.1 (Or.inr (mem-live_pods pods pod (rw gone at m)))
  | inr live ↦
      let m' : Mem pod (p ∷ live_pods pods) = rw live at m in
      Or.elim Mem-prop (mem-cons.0 m') (λ e. mem-cons.1 (Or.inl e))
        (λ there. mem-cons.1 (Or.inr (mem-live_pods pods pod there)))
]

module _ {S : Type 0} (r : Reconciler S) (schedule : (l : List ℕ) → Perm (r.order l) l)
    (sort-perm : (lt : Pod → Pod → Bool) (xs : List Pod) → Perm (r.sort lt xs) xs) where
  -- where there is a limit, the pods to keep are found, and are some of the pods
  split-kept :
      (nodeset : NodeSet) (limit : Option IntOrString) (now : ℤ) (pods : List Pod) (hash : String)
      → nodeset.rolling_update_max_unavailable ≡ some limit
      → (deleted kept : List Pod) × (split_update_pods r.library r.sort nodeset now pods hash
          ≡ some (deleted, kept))
        × ((pod : Pod) → Mem pod kept → Mem pod pods)
  unfolding split_update_pods
  split-kept nodeset limit now pods hash has =
      elim nodeset.update_strategy
        as (λ u.
          (deleted kept : List Pod) × (elim u [
            | on_delete ↦ some ([], [])
            | rolling_update ↦ elim nodeset.rolling_update_max_unavailable [
              | none ↦ none
              | some limit ↦ some (split_for_rolling r.library r.sort nodeset now limit pods hash)
            ]
            | _ ↦ some ([], [])
          ]
            ≡ some (deleted, kept))
          × ((pod : Pod) → Mem pod kept → Mem pod pods)) [
            | on_delete ↦ ([], [], refl, λ pod m. absurd (not-mem-nil m))
            | no_strategy ↦ ([], [], refl, λ pod m. absurd (not-mem-nil m))
            | other_strategy ↦ ([], [], refl, λ pod m. absurd (not-mem-nil m))
            | rolling_update ↦
                let (deleted, kept) =
                  split_for_rolling r.library r.sort nodeset now limit pods hash in
                let split =
                  split_for_rolling-found r.sort sort-perm r.library nodeset now limit pods hash in
                (
                  deleted,
                  kept,
                  rw has refl,
                  λ pod m.
                      mem-live_pods pods pod
                        ((Perm.mem_iff split.0).0 (mem-append_right deleted m)),
                )
          ]

  -- a batch of calls that leave the state as it is
  for_pods-still :
      (f : Pod → M S (Unit {0})) (pods : List Pod) (s : S)
      → ((pod : Pod) → Mem pod pods → f pod s ≡ (ok tt, s))
      → for_pods r pods f s ≡ (ok tt, s)
  unfolding for_pods
  for_pods-still f pods s still =
      let (fine, same) =
        slow_start_batch-Keeps (λ s'. s' ≡ s) r.order (at_pod pods f) (length pods) s schedule
          (λ i below s' e.
            let (pod, there) = get_elem?-some pods i below in
            let calm = still pod (mem-get_elem? pods i pod there) in
            rw (there, at_pod) (rw (e, calm) (refl, refl)))
          refl in
      ground (arith, fine, same)

module _ {S : Type 0} (client : PodClient S) (nodeset : NodeSet)
    (slurm_client : SlurmClient S) where
  -- The pod runs, is not cordoned, and matches the NodeSet as its claims and their owners do. Its Slurm
  -- node is not one to take back.
  pub record Settled (pod : Pod) (s : S) : Type 0 where
    pub in_service : is_pod_cordon pod ≡ false
    pub not_failed : is_failed pod ≡ false
    pub not_succeeded : is_succeeded pod ≡ false
    pub identity : is_identity_match nodeset pod ≡ true
    pub storage : is_storage_match nodeset pod ≡ true
    pub claims : pod_pvcs_match_retention_policy client.claims nodeset pod s ≡ (ok true, s)
    pub node : Node
    pub read : slurm_client.get_node (get_node_name pod) s ≡ (ok node, s)
    pub taken : may_undrain node ≡ false

module _ {S : Type 0} (r : Reconciler S) (expand : String → Option (List String)) (json : Json)
    (clusters : Dict (SlurmClient S)) (client : PodClient S) (nodeset : NodeSet)
    (slurm_client : SlurmClient S)
    (found : lookup_client clusters nodeset ≡ some slurm_client) where
  abbrev IsSettled : Pod → S → Type 0
  IsSettled = Settled client nodeset slurm_client

  abbrev own : Reconciler S
  own = composed r expand json clusters client

  uncordon-still :
      (pod : Pod) (s : S)
      → IsSettled pod s
      → make_pod_uncordon_and_undrain own nodeset pod s ≡ (ok tt, s)
  unfolding make_pod_uncordon_and_undrain make_pod_uncordon make_node_undrain
  uncordon-still pod s h = ground (arith, h.in_service, found, h.read, h.taken)

  module _
      (retry_once : (m : M (Pod × Bool × S) (Unit {0})) (x : Pod × Bool × S)
        → (m x).0 ≡ ok tt
        → client.retry_on_conflict m x ≡ m x) where
    attempt-still :
        (pod : Pod) (s : S)
        → IsSettled pod s
        → attempt client nodeset (pod, false, s) ≡ (ok tt, (pod, false, s))
    unfolding attempt attempt_with keep_claims with_identity with_storage
    attempt-still pod s h = ground (arith, h.identity, h.storage, h.claims)

    process_replica-still :
        (pod : Pod) (s : S) → IsSettled pod s → process_replica own nodeset pod s ≡ (ok tt, s)
    unfolding process_replica update_nodeset_pod
    process_replica-still pod s h =
        let once = attempt-still pod s h in
        let kept =
          retry_once (attempt client nodeset) (pod, false, s) (ap (λ p. p.0) once) ∙ once in
        ground (arith, h.not_failed, h.not_succeeded, kept)

    -- processing sets the expectations and does nothing else
    pub do_pod_processing-still :
        (schedule : (l : List ℕ) → Perm (r.order l) l)
        (sort-perm : (lt : Pod → Pod → Bool) (xs : List Pod) → Perm (r.sort lt xs) xs)
        (pods : List Pod) (hash : String) (limit : Option IntOrString) (s s' : S)
        → nodeset.rolling_update_max_unavailable ≡ some limit
        → r.expectations.set_expectations (key_func nodeset.namespace nodeset.name) s ≡ (ok tt, s')
        → ((pod : Pod) → Mem pod pods → IsSettled pod s × IsSettled pod s')
        → do_pod_processing own nodeset pods hash s ≡ (ok tt, s')
    unfolding do_pod_processing
    do_pod_processing-still schedule sort-perm pods hash limit s s' has set settled =
        let (deleted, kept, split, among) =
          split-kept own schedule sort-perm nodeset limit (r.kube.now s) pods hash has in
        let uncordoned =
          for_pods-still own schedule sort-perm (make_pod_uncordon_and_undrain own nodeset) kept s
            (λ pod m. uncordon-still pod s (settled pod (among pod m)).0) in
        let processed =
          for_pods-still own schedule sort-perm (process_replica own nodeset) pods s'
            (λ pod m. process_replica-still pod s' (settled pod m).1) in
        ground (arith, split, uncordoned, set, processed)
