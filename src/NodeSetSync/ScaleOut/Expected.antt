-- ===== src/NodeSetSync/ScaleOut/Expected.antt =====
-- The expected creations behind a scale-out
-- (upstream/slurm-operator/internal/controller/nodeset/nodeset_sync.go and nodeset_eventhandler.go).
use mathlib.Core.List.{Perm}
use slinky_on_openshift.Prelude.{
  ℕ, zero, suc, ◌+◌, ◌-◌, ◌≤◌, ◌<◌, ◌≡◌, refl, ap, ◌∙◌, inl, inr, none, some, List, [], ◌∷◌, String,
  arith, length, All, get_elem?-some,
}
use slinky_on_openshift.Prelude.Int.{ℤ, pos, pos_part, ◌+ℤ◌, ◌≤ℤ◌}
use slinky_on_openshift.Exec.{is_calm-cases, ok}
use slinky_on_openshift.PodControl.Operations.Counted.{Counts}
use slinky_on_openshift.Kube.{Pod, NodeSet}
use slinky_on_openshift.Utils.Math.{clamp}
use slinky_on_openshift.Utils.Batch.Tallied.{Makes, slow_start_batch-Tallied}
use slinky_on_openshift.NodeSetSync.Reconciler.{Reconciler, Expectations, at_pod, batch, for_pods}
use slinky_on_openshift.NodeSetSync.Cordon.{make_pod_uncordon_and_undrain}
use slinky_on_openshift.NodeSetSync.ScaleOut.{
  burst_replicas, pods_to_create, create_pod, creations_observed, settle, do_pod_scale_out,
}
use slinky_on_openshift.NodeSetSync.ScaleOut.Ordinals.{length-pods_to_create}
use slinky_on_openshift.EventHandler
use slinky_on_openshift.EventHandler.{
  Call, add_after, Cache, perform, nodeset_key, controller_nodeset,
}

one_less : (a : ℤ) (n : ℕ) → a +ℤ pos 1 ≡ pos (suc n) → a ≡ pos n
unfolding ◌+ℤ◌
one_less a n h = ground (arith, h)

one_less_le : (a b : ℤ) (n : ℕ) → a +ℤ pos 1 ≡ b → b ≤ℤ pos (suc n) → a ≤ℤ pos n
unfolding ◌+ℤ◌
one_less_le a b n h k = ground (arith, h, k)

-- What is expected for the NodeSet, `pending`, and how many pods have been created, `created`:
-- `expect_creations` sets the one and `creation_observed` lowers it by one.
pub record Tracks {S : Type 0} (expectations : Expectations S) (nodeset : NodeSet) (pending : S → ℤ)
    (created : S → ℕ) : Type 0 where
  pub expected :
      (n : ℕ) (s : S)
      → let p = expectations.expect_creations (nodeset_key nodeset) (pos n) s in
        (p.0 ≡ ok tt) × (pending p.1 ≡ pos n) × (created p.1 ≡ created s)
  pub lowered :
      (s : S)
      → let s' = expectations.creation_observed (nodeset_key nodeset) s in
        (pending s' +ℤ pos 1 ≡ pending s) × (created s' ≡ created s)

-- And the creation of a pod is counted.
pub record Accounts {S : Type 0} (r : Reconciler S) (nodeset : NodeSet) (pending : S → ℤ)
    (created : S → ℕ) : Type 0 where
  pub tracks : Tracks r.expectations nodeset pending created
  pub made :
      (pod : Pod) (s : S)
      → Counts pending created s (r.pod_control.create_nodeset_pod nodeset pod s)

module _ {S : Type 0} (r : Reconciler S) (nodeset : NodeSet) (pending : S → ℤ) (created : S → ℕ)
    (accounts : Accounts r nodeset pending created) where
  create_pod-Makes : (pod : Pod) → Makes pending created (create_pod r nodeset pod)
  unfolding create_pod
  create_pod-Makes pod s =
      let (same, calm, more) = accounts.made pod s in
      elim (is_calm-cases _ calm) [
        | inl (u, fine) ↦
            (ground (arith, fine, same), inl (ground (arith, fine), ground (arith, fine, more)))
        | inr (e, failed, other) ↦ (
          ground (arith, failed, other, same),
          inr (e, ground (arith, failed, other), ground (arith, failed, other, more)),
        )
      ]

  at_pod-Makes :
      (pods : List Pod) (i : ℕ)
      → i < length pods
      → Makes pending created (at_pod pods (create_pod r nodeset) i)
  at_pod-Makes pods i h =
      let (pod, there) = get_elem?-some pods i h in rw (there, at_pod) (create_pod-Makes pod)

  observed-pending :
      (k t : ℕ) (s : S)
      → pending s ≡ pos (k + t)
      → (pending (creations_observed r (nodeset_key nodeset) k s) ≡ pos t)
        × (created (creations_observed r (nodeset_key nodeset) k s) ≡ created s)
  unfolding creations_observed
  observed-pending zero t s h = (ground (arith, h), refl)
  observed-pending (suc k) t s h =
      let (one, same) = accounts.tracks.lowered s in
      let rest =
        observed-pending k t (r.expectations.creation_observed (nodeset_key nodeset) s)
          (one_less _ (k + t) (one ∙ h ∙ ground arith)) in
      (rest.0, rest.1 ∙ same)

  -- The batch of creates, and what is taken back of the `n` expected.
  settled :
      (pods : List Pod) (n : ℕ) (s : S)
      → ((l : List ℕ) → Perm (r.order l) l)
      → length pods ≡ n
      → pending s ≡ pos n
      → let p =
          settle r (nodeset_key nodeset) n (batch r n (at_pod pods (create_pod r nodeset)) s) in
        (t : ℕ) × (pending p.1 ≡ pos t) × (t + created s ≤ created p.1)
  settled pods n s perm len open' =
      let fn = at_pod pods (create_pod r nodeset) in
      let (t, e, res, same, more, most) =
        slow_start_batch-Tallied pending created r.order fn n s perm
          (λ i h. at_pod-Makes pods i (omega (arith, h, len))) in
      let key = nodeset_key nodeset in
      let ran = batch r n fn s in
      let state : (settle r key n ran).1 ≡ creations_observed r key (n - t) ran.1 =
        rw (res, settle) refl in
      let (left, kept) =
        observed-pending (n - t) t ran.1
          (same ∙ open' ∙ ap pos {x = n} {y = n - t + t} (omega (arith, most))) in
      (t, rw state left, rw (state, kept) more)

  -- With any order of the goroutines, and behind an uncordon of all pods that succeeded: a scale-out
  -- leaves no more creations expected than the pods that it has created, whether all creates were
  -- made or some failed or were skipped.
  pub do_pod_scale_out-expected :
      (pods : List Pod) (num_create : ℤ) (hash : String) (s s0 : S)
      → ((l : List ℕ) → Perm (r.order l) l)
      → for_pods r pods (make_pod_uncordon_and_undrain r nodeset) s ≡ (ok tt, s0)
      → let p = do_pod_scale_out r nodeset pods num_create hash s in
        (t : ℕ) × (pending p.1 ≡ pos t) × (t + created s0 ≤ created p.1)
  unfolding do_pod_scale_out
  do_pod_scale_out-expected pods num_create hash s s0 perm uncordoned =
      let n = pos_part (clamp num_create (pos 0) (pos burst_replicas)) in
      let to_create = pods_to_create r.library nodeset pods n hash in
      let (fine, open', same) = accounts.tracks.expected n s0 in
      let (t, left, more) =
        settled to_create n (r.expectations.expect_creations (nodeset_key nodeset) (pos n) s0).1
          perm (length-pods_to_create r.library nodeset pods n hash) open' in
      let state : do_pod_scale_out r nodeset pods num_create hash s
          ≡ settle r (nodeset_key nodeset) n (
              batch r n (at_pod to_create (create_pod r nodeset))
                (r.expectations.expect_creations (nodeset_key nodeset) (pos n) s0).1) =
        rw (uncordoned, fine) refl in
      (t, rw state left, rw state (omega (arith, more, same)))

-- the creation of each of the pods is seen
abbrev pub see_all : {S : Type 0} → Expectations S → Cache → (String → ℤ → S → S) → List Pod → S → S
see_all expectations cache queue [] s = s
see_all expectations cache queue (pod ∷ pods) s =
    see_all expectations cache queue pods
      (perform expectations queue (EventHandler.create_pod cache pod) s)

-- a pod that is not terminating and that a NodeSet controls, by the key of the NodeSet
abbrev pub IsControlled : Cache → String → Pod → Type 0
IsControlled cache key pod =
    (pod.deletion_timestamp ≡ none)
    × ((n : NodeSet) × (controller_nodeset cache pod ≡ some n) × (nodeset_key n ≡ key))

module _ {S : Type 0} (r : Reconciler S) (nodeset : NodeSet) (pending : S → ℤ) (created : S → ℕ)
    (accounts : Accounts r nodeset pending created) (cache : Cache) (queue : String → ℤ → S → S)
    (queue-keeps : (request : String) (d : ℤ) (s : S)
      → pending (queue request d s) ≡ pending s) where
  create_pod-calls :
      (pod : Pod) (n : NodeSet)
      → pod.deletion_timestamp ≡ none
      → controller_nodeset cache pod ≡ some n
      → EventHandler.create_pod cache pod
        ≡ EventHandler.creation_observed (nodeset_key n) ∷ add_after (nodeset_key n) (pos 0) ∷ []
  unfolding EventHandler.create_pod
  create_pod-calls pod n alive controlled = ground (arith, alive, controlled)

  seen-pending :
      (seen : List Pod) (s : S)
      → All (IsControlled cache (nodeset_key nodeset)) seen
      → pending s ≤ℤ pos (length seen)
      → pending (see_all r.expectations cache queue seen s) ≤ℤ pos 0
  unfolding perform
  seen-pending [] s h few = few
  seen-pending (pod ∷ seen) s ((alive, (n, controlled, same)), h) few =
      let key = nodeset_key nodeset in
      let observed = r.expectations.creation_observed key s in
      let state : perform r.expectations queue (EventHandler.create_pod cache pod) s
          ≡ queue key (pos 0) observed =
        rw (create_pod-calls pod n alive controlled, same) refl in
      rw state (
        seen-pending seen (queue key (pos 0) observed) h (
          rw (queue-keeps key (pos 0) observed) (
            one_less_le (pending observed) (pending s) (length seen) (accounts.tracks.lowered s).0
              few)))

  -- With any order of the goroutines, and behind an uncordon of all pods that succeeded: when the
  -- creations of as many pods of the NodeSet as the scale-out has created have been seen, none is
  -- expected any more.
  pub do_pod_scale_out-settles :
      (pods : List Pod) (num_create : ℤ) (hash : String) (s s0 : S) (seen : List Pod)
      → ((l : List ℕ) → Perm (r.order l) l)
      → for_pods r pods (make_pod_uncordon_and_undrain r nodeset) s ≡ (ok tt, s0)
      → All (IsControlled cache (nodeset_key nodeset)) seen
      → created (do_pod_scale_out r nodeset pods num_create hash s).1 ≡ length seen + created s0
      → pending (
          see_all r.expectations cache queue seen
            (do_pod_scale_out r nodeset pods num_create hash s).1)
        ≤ℤ pos 0
  do_pod_scale_out-settles pods num_create hash s s0 seen perm uncordoned controlled all =
      let (t, open', more) =
        do_pod_scale_out-expected r nodeset pending created accounts pods num_create hash s s0 perm
          uncordoned in
      seen-pending seen (do_pod_scale_out r nodeset pods num_create hash s).1 controlled
        (rw open' (omega (arith, more, all)))
