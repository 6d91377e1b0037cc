-- ===== src/NodeSetSync/ScaleOut.antt =====
-- More pods for a NodeSet that has too few
-- (upstream/slurm-operator/internal/controller/nodeset/nodeset_sync.go).
pub mod Ordinals
pub mod Expected
pub mod Composed
pub mod Made
pub mod Names
use slinky_on_openshift.Prelude.{
  ℕ, zero, suc, ◌-◌, Bool, true, false, Option, none, some, List, [], ◌∷◌, String, length, any, map,
  if◌then◌else◌,
}
use slinky_on_openshift.Prelude.Int.{ℤ, pos, pos_part, eqb_ℤ}
use slinky_on_openshift.Exec.{
  Error, is_namespace_terminating, Result, ok, err, panic, M, pure, raise, ◌>>=◌, ◌>>◌,
}
use slinky_on_openshift.Kube.{Pod, NodeSet, Library}
use slinky_on_openshift.Utils.Math.{clamp}
use slinky_on_openshift.Utils.Pods.{key_func}
use slinky_on_openshift.Utils.Batch.{Tally}
use slinky_on_openshift.Naming.{get_ordinal, new_nodeset_pod}
use slinky_on_openshift.NodeSetSync.Reconciler.{Reconciler, at_pod, batch, for_pods}
use slinky_on_openshift.NodeSetSync.Cordon.{make_pod_uncordon_and_undrain}

abbrev pub burst_replicas : ℕ
burst_replicas = 250

-- `usedOrdinals.Has(ordinal)`
abbrev pub is_used : List ℤ → ℕ → Bool
is_used used ordinal = any (λ o. eqb_ℤ o (pos ordinal)) used

-- `for usedOrdinals.Has(ordinal) { ordinal++ }`
unfoldable pub free_ordinal : (fuel : ℕ) → List ℤ → ℕ → ℕ
free_ordinal zero used ordinal = ordinal
free_ordinal (suc fuel) used ordinal =
    let next = free_ordinal fuel used (suc ordinal) in
    if is_used used ordinal then next else ordinal

-- as many rounds as there are used ordinals are enough
unfoldable pub new_ordinals : ℕ → List ℤ → ℕ → List ℕ
unfolding free_ordinal
new_ordinals zero used ordinal = []
new_ordinals (suc n) used ordinal =
    let o = free_ordinal (length used) used ordinal in o ∷ new_ordinals n (pos o ∷ used) o

unfoldable pub pods_to_create : Library → NodeSet → List Pod → ℕ → String → List Pod
unfolding new_ordinals
pods_to_create k nodeset pods num_create hash =
    map (λ o. new_nodeset_pod k nodeset (pos o) hash)
      (new_ordinals num_create (map get_ordinal pods) 0)

module _ {S : Type 0} (r : Reconciler S) where
  unfoldable pub create_pod : NodeSet → Pod → M S (Unit {0})
  create_pod nodeset pod s =
      let (res, s') = r.pod_control.create_nodeset_pod nodeset pod s in
      elim res [
        | ok _ ↦ (ok tt, s')
        | err e ↦ ((if is_namespace_terminating e then ok tt else err e), s')
        | panic ↦ (panic, s')
      ]

  -- `for range skippedPods { r.expectations.CreationObserved(logger, key) }`
  pub creations_observed : String → ℕ → S → S
  creations_observed key zero s = s
  creations_observed key (suc n) s =
      creations_observed key n (r.expectations.creation_observed key s)

  abbrev pub nil_or : Option Error → Result (Unit {0})
  nil_or none = ok tt
  nil_or (some e) = err e

  abbrev pub settle : String → ℕ → Result Tally × S → Result (Unit {0}) × S
  settle key n (ok (successes, e), s) = (nil_or e, creations_observed key (n - successes) s)
  settle key n (err e, s) = (err e, s)
  settle key n (panic, s) = (panic, s)

  unfoldable pub do_pod_scale_out : NodeSet → List Pod → ℤ → String → M S (Unit {0})
  unfolding for_pods make_pod_uncordon_and_undrain pods_to_create create_pod creations_observed
  do_pod_scale_out nodeset pods num_create hash =
      let key = key_func nodeset.namespace nodeset.name in
      let n = pos_part (clamp num_create (pos 0) (pos burst_replicas)) in
      let created = pods_to_create r.library nodeset pods n hash in
      for_pods r pods (make_pod_uncordon_and_undrain r nodeset)
      >> r.expectations.expect_creations key (pos n)
      >> (λ s. settle key n (batch r n (at_pod created (create_pod nodeset)) s))
