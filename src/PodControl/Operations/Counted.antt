-- ===== src/PodControl/Operations/Counted.antt =====
-- How many pods `CreateNodeSetPod` creates
-- (upstream/slurm-operator/internal/controller/nodeset/podcontrol/podcontrol.go).
use slinky_on_openshift.Prelude.{ℕ, ◌+◌, ◌≤◌, ◌≡◌, refl, ◌∙◌, ap, inl, inr, true, arith}
use slinky_on_openshift.Prelude.Int.{ℤ}
use slinky_on_openshift.Exec.{Error, is_calm, is_calm-cases, Result, ok, err}
use slinky_on_openshift.Kube.{Pod, NodeSet}
use slinky_on_openshift.PodControl.Claims.{
  create_persistent_volume_claims, update_pod_pvcs_for_retention_policy,
}
use slinky_on_openshift.PodControl.Claims.Calm.{
  IsApart, create_persistent_volume_claims-calm, update_pod_pvcs-calm,
}
use slinky_on_openshift.PodControl.Operations.{
  Verb, creating, updating, PodClient, create_this_pod, set_policy, create_nodeset_pod,
}

-- the pod that a creation which returns nil has created
abbrev pub gain : Result (Unit {0}) → ℕ
gain (ok _) = 1
gain _ = 0

module _ {S : Type 0} (pending : S → ℤ) (created : S → ℕ) where
  -- What a creation comes to: it returns, with no error about a terminating namespace, `pending` is as
  -- it was, and a pod is counted if it returns nil, and may be if it returns an error.
  abbrev pub Counts : S → Result (Unit {0}) × S → Type 0
  Counts s p =
      (pending p.1 ≡ pending s) × (is_calm p.0 ≡ true) × (gain p.0 + created s ≤ created p.1)

  abbrev pub view : S → ℤ × ℕ
  view s = (pending s, created s)

  -- A server whose claims and events are apart from the count of its pods.
  pub record IsCounted (client : PodClient S) : Type 0 where
    pub claims : IsApart view client.claims
    pub made : (pod : Pod) (s : S) → Counts s (client.create_pod pod s)
    pub told :
        (verb : Verb) (nodeset : NodeSet) (pod : Pod) (res : Result (Unit {0})) (s : S)
        → view (client.record_pod_event verb nodeset pod res s) ≡ view s
    pub told_failed :
        (nodeset : NodeSet) (e : Error) (s : S)
        → view (client.record_failed_create nodeset e s) ≡ view s
    pub told_created :
        (nodeset : NodeSet) (pod : Pod) (s : S)
        → view (client.record_created nodeset pod s) ≡ view s

  parts : (s' s : S) → view s' ≡ view s → (pending s' ≡ pending s) × (created s' ≡ created s)
  parts s' s h = (ap (λ v. v.0) h, ap (λ v. v.1) h)

  module _ (client : PodClient S) (counted : IsCounted client) where
    create_this_pod-Counts :
        (pod : Pod) (nodeset : NodeSet) (s : S) → Counts s (create_this_pod client pod nodeset s)
    unfolding create_this_pod
    create_this_pod-Counts pod nodeset s =
        let s1 = (client.create_pod pod s).1 in
        let made = counted.made pod s in
        elim (is_calm-cases _ made.1) [
          | inl (u, e) ↦ ground (arith, e, made, parts _ _ (counted.told_created nodeset pod s1))
          | inr (x, e, other) ↦
              ground (arith, e, other, made, parts _ _ (counted.told_failed nodeset x s1))
        ]

    set_policy-Counts :
        (nodeset : NodeSet) (pod : Pod) (res : Result (Unit {0})) (s : S)
        → let p = set_policy client nodeset pod res s in
          (view p.1 ≡ view s) × (is_calm res ≡ true → is_calm p.0 ≡ true) × (gain p.0 ≤ gain res)
    set_policy-Counts nodeset pod res s =
        let (calm, same) =
          update_pod_pvcs-calm view client.claims counted.claims client.new_controller_ref nodeset
            pod s in
        let s1 =
          (update_pod_pvcs_for_retention_policy client.claims client.new_controller_ref nodeset pod
            s).1 in
        elim (is_calm-cases _ calm) [
          | inl (u, e) ↦
              let state : set_policy client nodeset pod res s
                  ≡ (res, client.record_pod_event creating nodeset pod res s1) =
                rw (e, set_policy) refl in
              rw state (counted.told creating nodeset pod res s1 ∙ same, (λ h. h), omega arith)
          | inr (x, e, other) ↦
              let state : set_policy client nodeset pod res s
                  ≡ (err x, client.record_pod_event updating nodeset pod (err x) s1) =
                rw (e, set_policy) refl in
              rw state (
                counted.told updating nodeset pod (err x) s1 ∙ same,
                (λ h. rw other refl),
                omega arith,
              )
        ]

    -- With a server whose claims and events are apart from the pods, and that creates pods in no
    -- terminating namespace.
    pub create_nodeset_pod-Counts :
        (nodeset : NodeSet) (pod : Pod) (s : S) → Counts s (create_nodeset_pod client nodeset pod s)
    unfolding create_nodeset_pod
    create_nodeset_pod-Counts nodeset pod s =
        let (calm, same) =
          create_persistent_volume_claims-calm view client.claims counted.claims client.order
            nodeset pod s in
        let s1 = (create_persistent_volume_claims client.claims client.order nodeset pod s).1 in
        let this = create_this_pod-Counts pod nodeset s1 in
        let s2 = (create_this_pod client pod nodeset s1).1 in
        let policy = λ (res : Result (Unit {0})). set_policy-Counts nodeset pod res s2 in
        elim (is_calm-cases _ calm) [
          | inl (u, e) ↦ elim (is_calm-cases _ this.1) [
            | inl (v, d) ↦ ground (
              arith,
              e,
              d,
              this,
              parts _ _ same,
              parts _ _ (policy (ok tt)).0,
              (policy (ok tt)).1 refl,
              (policy (ok tt)).2,
            )
            | inr (x, d, other) ↦ ground (
              arith,
              e,
              d,
              this,
              other,
              parts _ _ same,
              parts _ _ (policy (err x)).0,
              (policy (err x)).1 (rw other refl),
              (policy (err x)).2,
            )
          ]
          | inr (x, e, other) ↦ ground (
            arith,
            e,
            other,
            parts _ _ same,
            parts _ _ (counted.told creating nodeset pod (err x) s1),
          )
        ]
