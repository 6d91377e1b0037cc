-- ===== src/Sort/Split.antt =====
-- The two ways to split pods
-- (upstream/slurm-operator/internal/controller/nodeset/utils/sort.go).
use mathlib.Core.List.{Perm, reverse_perm, perm_middle, append-nil}
use mathlib.Core.List.Perm
use slinky_on_openshift.Prelude.{
  ◌≤◌, ◌≡◌, ◌∙◌, min, Bool, true, false, List, [], ◌∷◌, ◌++◌, arith, length, take-append-drop,
  length-take, length-perm, Bool-cases, inl, inr,
}
use slinky_on_openshift.Prelude.Int.{ℤ, pos, pos_part, ltb_ℤ}
use slinky_on_openshift.Kube.{Pod, Library}
use slinky_on_openshift.Utils.Pods.{is_healthy}
use slinky_on_openshift.Utils.Math.{clamp}
use slinky_on_openshift.Sort.{
  less, less_by_creation, insert_back, insertion_sort_from, insertion_sort, split_active_pods,
  count_unhealthy, split_unhealthy_pods,
}

insert_back-perm :
    (lt : Pod → Pod → Bool) (x : Pod) (ys : List Pod) → Perm (insert_back lt x ys) (x ∷ ys)
unfolding insert_back
insert_back-perm lt x [] = Perm.refl (x ∷ [])
insert_back-perm lt x (y ∷ ys) = elim (Bool-cases (lt x y)) [
  | inl less ↦ rw less (Perm.trans (Perm.cons y (insert_back-perm lt x ys)) (Perm.swap x y ys))
  | inr more ↦ rw more (Perm.refl (x ∷ y ∷ ys))
]

insertion_sort_from-perm :
    (lt : Pod → Pod → Bool) (sorted xs : List Pod)
    → Perm (insertion_sort_from lt sorted xs) (sorted ++ xs)
unfolding insertion_sort_from
insertion_sort_from-perm lt sorted [] = rw append-nil (reverse_perm sorted)
insertion_sort_from-perm lt sorted (x ∷ xs) =
    Perm.trans (insertion_sort_from-perm lt (insert_back lt x sorted) xs) (
      Perm.trans (Perm.append_right xs (insert_back-perm lt x sorted))
        (Perm.symm (perm_middle sorted xs)))

-- The order that the insertion sort leaves is a permutation, for any comparison.
pub insertion_sort-perm : (lt : Pod → Pod → Bool) (xs : List Pod) → Perm (insertion_sort lt xs) xs
unfolding insertion_sort
insertion_sort-perm lt xs = insertion_sort_from-perm lt [] xs

module _ (sort : (Pod → Pod → Bool) → List Pod → List Pod)
    (sort-perm : (lt : Pod → Pod → Bool) (xs : List Pod) → Perm (sort lt xs) xs) (k : Library) where
  -- For every sort that permutes: the two lists hold the given pods, each once, and the first has
  -- as many as were asked for, but none for a negative number and at most all.
  pub split_active_pods_lem :
      (pods : List Pod) (partition : ℤ)
      → let (pods1, pods2) = split_active_pods sort k pods partition in
        Perm (pods1 ++ pods2) pods × (length pods1 ≡ min (pos_part partition) (length pods))
  unfolding split_active_pods clamp
  split_active_pods_lem pods partition =
      let pivot = pos_part (clamp partition (pos 0) (pos (length pods))) in
      let sorted = sort (less k) pods in
      let p = sort-perm (less k) pods in
      let e : pivot ≡ min (pos_part partition) (length pods) = ground arith in
      (rw take-append-drop p, length-take pivot sorted ∙ omega (arith, length-perm p, e))

  count_unhealthy-le : (pods : List Pod) → count_unhealthy sort k pods ≤ length pods
  unfolding count_unhealthy
  count_unhealthy-le [] = omega arith
  count_unhealthy-le (pod ∷ pods) = ground (arith, count_unhealthy-le pods)

  -- For every sort that permutes: the two lists hold the given pods, each once, and the first has
  -- as many as there are unhealthy pods.
  split_unhealthy_pods_lem :
      (pods : List Pod)
      → let (unhealthy, healthy) = split_unhealthy_pods sort k pods in
        Perm (unhealthy ++ healthy) pods × (length unhealthy ≡ count_unhealthy sort k pods)
  unfolding split_unhealthy_pods
  split_unhealthy_pods_lem pods =
      let n = count_unhealthy sort k pods in
      let p = sort-perm less_by_creation pods in
      (
        rw take-append-drop p,
        length-take n (sort less_by_creation pods)
            ∙ omega (arith, length-perm p, count_unhealthy-le pods),
      )

less_by_creation-earlier :
    (p q : Pod)
    → ltb_ℤ p.creation_timestamp q.creation_timestamp ≡ true
    → less_by_creation p q ≡ true
unfolding less_by_creation
less_by_creation-earlier p q h = ground arith

-- For an unhealthy pod and a healthy one that was created before it: the healthy pod is returned as
-- the unhealthy one, and the other way round.
pub split_unhealthy_pods-swaps :
    (k : Library) (u h : Pod)
    → is_healthy k u ≡ false
    → is_healthy k h ≡ true
    → ltb_ℤ h.creation_timestamp u.creation_timestamp ≡ true
    → split_unhealthy_pods insertion_sort k (u ∷ h ∷ []) ≡ (h ∷ [], u ∷ [])
unfolding split_unhealthy_pods insertion_sort
split_unhealthy_pods-swaps k u h bad good older =
    rw bad (rw good (rw (less_by_creation-earlier h u older)))
