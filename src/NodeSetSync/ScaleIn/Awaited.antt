-- ===== src/NodeSetSync/ScaleIn/Awaited.antt =====
-- Which deletions stay expected behind a scale-in
-- (upstream/slurm-operator/internal/controller/nodeset/nodeset_sync.go).
use slinky_on_openshift.Prelude.{
  ◌≡◌, ◌≢◌, refl, ap, ◌∙◌, ◌⊎◌, inl, inr, Bool, true, false, not, ◌&&◌, Bool-cases, String, arith,
}
use slinky_on_openshift.Exec.{Error, not_found, Result, ok, err, panic, Result-cases}
use slinky_on_openshift.Kube.{Pod, NodeSet}
use slinky_on_openshift.Utils.Pods.{is_terminating, is_running_and_ready}
use slinky_on_openshift.NodeSetSync.Reconciler.{Reconciler}
use slinky_on_openshift.NodeSetSync.ScaleIn.{
  pod_key, is_not_found, process_condemned, forget_undrained, scale_in_pod,
}

not_found-eq : (e : Error) → is_not_found e ≡ true → e ≡ not_found
not_found-eq e h = ground (arith, h)

module _ {S : Type 0} (r : Reconciler S) (nodeset : NodeSet) (pod : Pod) where
  abbrev pub read : S → Result Bool × S
  read = r.slurm_control.is_node_drained nodeset pod

  -- what a deletion that is expected waits for; in the last case the node is read once more behind the
  -- cordon of the pod
  abbrev pub Awaited : S → Type 0
  Awaited s =
      (is_terminating pod ≡ true)
      ⊎ (((r.pod_control.delete_nodeset_pod nodeset pod (read s).1).0 ≡ ok tt)
          ⊎ ((r.pod_control.delete_nodeset_pod nodeset pod (read s).1).0 ≡ err not_found))
      ⊎ ((is_running_and_ready r.library pod ≡ true)
          × ((read s).0 ≡ ok false)
          × ((read (process_condemned r nodeset pod s).1).0 ≡ ok true))

-- What is expected to be deleted for the NodeSet, by the pod's key: `deletion_observed` takes the pod
-- off, and asking for its node changes nothing.
module _ {S : Type 0} (r : Reconciler S) (key : String) (nodeset : NodeSet) (pod : Pod)
    (expected : S → String → Bool)
    (observed : (s : S)
      → expected (r.expectations.deletion_observed key (pod_key pod) s) (pod_key pod) ≡ false)
    (asked : (s : S)
      → expected (r.slurm_control.is_node_drained nodeset pod s).1 (pod_key pod)
        ≡ expected s (pod_key pod)) where
  abbrev after : S → S
  after s = r.expectations.deletion_observed key (pod_key pod) s

  forget-drained :
      (s : S)
      → (forget_undrained r key nodeset pod s).0 ≢ panic
      → expected (forget_undrained r key nodeset pod s).1 (pod_key pod) ≡ true
      → (read r nodeset pod s).0 ≡ ok true
  unfolding forget_undrained
  forget-drained s ends still = elim (Result-cases (read r nodeset pod s).0) [
    | inl (true, e) ↦ e
    | inl (false, e) ↦ absurd (ground (arith, e, still, observed (read r nodeset pod s).1))
    | inr (inl (e', e)) ↦ absurd (ground (arith, e, still, observed (read r nodeset pod s).1))
    | inr (inr e) ↦ absurd (ends (rw (e, forget_undrained) refl))
  ]

  behind_ok :
      (s s1 : S)
      → process_condemned r nodeset pod s ≡ (ok tt, s1)
      → (scale_in_pod r key nodeset pod s).0 ≢ panic
      → expected (scale_in_pod r key nodeset pod s).1 (pod_key pod) ≡ true
      → (read r nodeset pod s1).0 ≡ ok true
  unfolding scale_in_pod
  behind_ok s s1 done ends still =
      let same : scale_in_pod r key nodeset pod s ≡ forget_undrained r key nodeset pod s1 =
        rw (done, scale_in_pod) (rw done refl) in
      forget-drained s1 (λ e. ends (rw same e)) (rw same at still)

  behind_err :
      (s s1 : S) (e : Error)
      → process_condemned r nodeset pod s ≡ (err e, s1)
      → expected (scale_in_pod r key nodeset pod s).1 (pod_key pod) ≡ false
  unfolding scale_in_pod forget_undrained
  behind_err s s1 e failed =
      ground
        (arith, failed, observed s1, asked (after s1), observed (read r nodeset pod (after s1)).1)

  behind_panic :
      (s : S)
      → (process_condemned r nodeset pod s).0 ≡ panic
      → (scale_in_pod r key nodeset pod s).0 ≡ panic
  unfolding scale_in_pod
  behind_panic s h = rw (h, scale_in_pod) refl

  -- what is left of a result
  processed :
      (p : Result (Unit {0}) × S) (s : S)
      → process_condemned r nodeset pod s ≡ p
      → (scale_in_pod r key nodeset pod s).0 ≢ panic
      → expected (scale_in_pod r key nodeset pod s).1 (pod_key pod) ≡ true
      → (p.0 ≡ ok tt) × ((read r nodeset pod p.1).0 ≡ ok true)
  processed (ok u, s1) s e ends still = (refl, behind_ok s s1 e ends still)
  processed (err e', s1) s e ends still = absurd (ground (arith, still, behind_err s s1 e' e))
  processed (panic, s1) s e ends still = absurd (ends (behind_panic s (ap (λ q. q.0) e)))

  -- For a pod that the batch of a scale-in comes to: if the function of the batch ends and the deletion
  -- of the pod is expected behind it, then the pod is terminating; or its deletion was accepted, or
  -- refused since it is gone; or it is running and ready, and its Slurm node, which was not drained at
  -- first, was drained when it was asked for again behind the cordon of the pod.
  pub scale_in_pod-Awaited :
      (s : S)
      → (scale_in_pod r key nodeset pod s).0 ≢ panic
      → expected (scale_in_pod r key nodeset pod s).1 (pod_key pod) ≡ true
      → Awaited r nodeset pod s
  unfolding process_condemned
  scale_in_pod-Awaited s ends still =
      let (fine, drained) = processed (process_condemned r nodeset pod s) s refl ends still in
      elim (Bool-cases (is_terminating pod)) [
        | inl terminating ↦ inl terminating
        | inr alive ↦ elim (Result-cases (read r nodeset pod s).0) [
          | inl (is_drained, e) ↦
              elim (Bool-cases (is_running_and_ready r.library pod && not is_drained)) [
                | inl kept ↦ inr (inr (ground (arith, kept), ground (arith, e, kept), drained))
                | inr deleted ↦
                    elim (Result-cases
                      (r.pod_control.delete_nodeset_pod nodeset pod (read r nodeset pod s).1).0) [
                        | inl (u, d) ↦ inr (inl (inl d))
                        | inr (inl (e', d)) ↦ elim (Bool-cases (is_not_found e')) [
                          | inl gone ↦ inr (inl (inr (d ∙ ap err (not_found-eq e' gone))))
                          | inr other ↦ absurd (ground (arith, alive, e, deleted, d, other, fine))
                        ]
                        | inr (inr d) ↦ absurd (ground (arith, alive, e, deleted, d, fine))
                      ]
              ]
          | inr (inl (e', e)) ↦ absurd (ground (arith, alive, e, fine))
          | inr (inr e) ↦ absurd (ground (arith, alive, e, fine))
        ]
      ]
