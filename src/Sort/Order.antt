-- ===== src/Sort/Order.antt =====
-- How far `Less` of `ActivePods` is an order
-- (upstream/slurm-operator/internal/controller/nodeset/utils/sort.go).
use text.Mathlib.TextPositions.{eq_refl}
use slinky_on_openshift.Prelude.{◌≡◌, true, false, arith, eq_iff, not, ◌&&◌}
use slinky_on_openshift.Prelude.Int.{ℤ, eqb_ℤ}
use slinky_on_openshift.Kube.{Pod, Library}
use slinky_on_openshift.Sort.{after_or_zero, cordon, less_by_times, less_by_annotations, less}

after_or_zero_asymm :
    (t u : ℤ) → eqb_ℤ t u ≡ false → after_or_zero t u ≡ true → after_or_zero u t ≡ true → ⊥
unfolding after_or_zero
after_or_zero_asymm t u e h g = ground arith

module _ (k : Library) (p q : Pod) where
  less_by_times_asymm : less_by_times k p q ≡ true → less_by_times k q p ≡ true → ⊥
  unfolding less_by_times
  less_by_times_asymm h g = ground arith

  less_by_annotations_asymm :
      less_by_annotations k p q ≡ true
      → less_by_annotations k q p ≡ true
      → (cordon k p ≡ true) × (cordon k q ≡ true)
  unfolding less_by_annotations
  less_by_annotations_asymm h g = ground (arith, less_by_times_asymm)

  less_both : less k p q ≡ true → less k q p ≡ true → (cordon k p ≡ true) × (cordon k q ≡ true)
  unfolding less
  less_both h g = ground (
    arith,
    less_by_annotations_asymm,
    eq_iff p.node_name q.node_name,
    eq_iff q.node_name p.node_name,
  )

less_self : (k : Library) (p : Pod) → less k p p ≡ cordon k p
unfolding less less_by_annotations less_by_times
less_self k p = ground (arith, eq_refl p.node_name)

-- `Less` is asymmetric but for cordoned pods: of two pods that are not both cordoned, at most one is
-- less than the other, and a pod is less than itself exactly if it is cordoned.
less_asymm :
    (k : Library) (p q : Pod)
    → (less k p q && less k q p && not (cordon k p && cordon k q) ≡ false)
      × (less k p p ≡ cordon k p)
less_asymm k p q = (ground (arith, less_both k p q), less_self k p)
