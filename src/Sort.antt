-- ===== src/Sort.antt =====
-- upstream/slurm-operator/internal/controller/nodeset/utils/sort.go: which pods go first in a
-- scale-in. `sort.Sort` is the parameter `sort`, a function of the comparison and the list;
-- `insertion_sort` is what it does on at most twelve elements.
pub mod Order
pub mod Split
use Prim.Native.String.{compare}
use text.Mathlib.Text.{is_lt}
use slinky_on_openshift.Prelude.{
  ℕ, suc, ◌+◌, ◌-◌, Bool, true, false, not, ◌&&◌, ◌||◌, Option, none, some, List, [], ◌∷◌, String,
  length, take, drop, ltb, ◌==◌, str_eq, if◌then◌else◌,
}
use mathlib.Core.List.{reverse}
use slinky_on_openshift.Prelude.Int.{ℤ, pos, pos_part, ltb_ℤ, eqb_ℤ}
use slinky_on_openshift.Strconv.{is_empty}
use slinky_on_openshift.Kube.{PodPhase, pending, running, unknown, Condition, Pod, Library}
use slinky_on_openshift.Utils.Math.{clamp}
use slinky_on_openshift.Utils.Pods.{
  annotation_pod_cordon, annotation_pod_deletion_cost, annotation_pod_deadline, is_healthy,
  get_number_from_annotations, get_bool_from_annotations, get_time_from_annotations,
}
use slinky_on_openshift.Naming.{get_ordinal}

-- `podPhaseToWeight`, where a phase that the map lacks has the weight 0
abbrev phase_weight : PodPhase → ℕ
phase_weight unknown = 1
phase_weight running = 2
phase_weight _ = 0

-- the zero time is after every other
unfoldable pub after_or_zero : ℤ → ℤ → Bool
after_or_zero t1 t2 = if eqb_ℤ t1 (pos 0) || eqb_ℤ t2 (pos 0) then eqb_ℤ t1 (pos 0) else ltb_ℤ t2 t1

abbrev ready_transition : List Condition → ℤ
ready_transition [] = pos 0
ready_transition (c ∷ cs) =
    if c.is_ready_condition && c.is_true then c.last_transition_time else ready_transition cs

abbrev bool_differs : Bool → Bool → Bool
bool_differs true b = not b
bool_differs false b = b

module _ (k : Library) where
  unfoldable pub pod_ready_time : Pod → ℤ
  pod_ready_time pod = if k.is_pod_ready pod then ready_transition pod.conditions else pos 0

  abbrev cost : Pod → ℤ
  cost pod = (get_number_from_annotations pod.annotations annotation_pod_deletion_cost).0

  abbrev deadline : Pod → ℤ
  deadline pod = (get_time_from_annotations k pod.annotations annotation_pod_deadline).0

  abbrev pub cordon : Pod → Bool
  cordon pod = (get_bool_from_annotations pod.annotations annotation_pod_cordon).0

  -- the steps behind the ordinal: ready time and creation time
  unfoldable pub less_by_times : Pod → Pod → Bool
  unfolding pod_ready_time after_or_zero
  less_by_times pod1 pod2 =
      if k.is_pod_ready pod1
        && k.is_pod_ready pod2
        && not (eqb_ℤ (pod_ready_time pod1) (pod_ready_time pod2))
      then after_or_zero (pod_ready_time pod1) (pod_ready_time pod2)
      else if not (eqb_ℤ pod1.creation_timestamp pod2.creation_timestamp)
      then after_or_zero pod1.creation_timestamp pod2.creation_timestamp
      else false

  -- the steps from the deletion cost to the ordinal
  unfoldable pub less_by_annotations : Pod → Pod → Bool
  less_by_annotations pod1 pod2 =
      if not (eqb_ℤ (cost pod1) (cost pod2))
      then ltb_ℤ (cost pod1) (cost pod2)
      else if not (eqb_ℤ (deadline pod1) (deadline pod2))
      then ltb_ℤ (deadline pod1) (deadline pod2)
      else if cordon pod1 || cordon pod2
      then cordon pod1
      else if not (eqb_ℤ (get_ordinal pod1) (get_ordinal pod2))
      then ltb_ℤ (get_ordinal pod2) (get_ordinal pod1)
      else less_by_times pod1 pod2

  unfoldable pub less : Pod → Pod → Bool
  less pod1 pod2 =
      if not (str_eq pod1.node_name pod2.node_name)
        && (is_empty pod1.node_name || is_empty pod2.node_name)
      then is_empty pod1.node_name
      else if not (phase_weight pod1.phase == phase_weight pod2.phase)
      then ltb (phase_weight pod1.phase) (phase_weight pod2.phase)
      else if bool_differs (k.is_pod_ready pod1) (k.is_pod_ready pod2)
      then not (k.is_pod_ready pod1)
      else less_by_annotations pod1 pod2

-- `Less` of `PodsByCreationTimestamp`
unfoldable pub less_by_creation : Pod → Pod → Bool
less_by_creation pod1 pod2 =
    if eqb_ℤ pod1.creation_timestamp pod2.creation_timestamp
    then is_lt (compare pod1.name pod2.name)
    else ltb_ℤ pod1.creation_timestamp pod2.creation_timestamp

-- One element moves left past every one that it is less than; the sorted part stands reversed.
unfoldable pub insert_back : (Pod → Pod → Bool) → Pod → List Pod → List Pod
insert_back lt x [] = x ∷ []
insert_back lt x (y ∷ ys) =
    let rest = insert_back lt x ys in if lt x y then y ∷ rest else x ∷ y ∷ ys

unfoldable pub insertion_sort_from : (Pod → Pod → Bool) → List Pod → List Pod → List Pod
insertion_sort_from lt sorted [] = reverse sorted
insertion_sort_from lt sorted (x ∷ xs) = insertion_sort_from lt (insert_back lt x sorted) xs

unfoldable pub insertion_sort : (Pod → Pod → Bool) → List Pod → List Pod
unfolding insertion_sort_from insert_back
insertion_sort lt xs = insertion_sort_from lt [] xs

module _ (sort : (Pod → Pod → Bool) → List Pod → List Pod) (k : Library) where
  unfoldable pub split_active_pods : List Pod → ℤ → List Pod × List Pod
  split_active_pods pods partition =
      let pivot = pos_part (clamp partition (pos 0) (pos (length pods))) in
      let sorted = sort (less k) pods in (take pivot sorted, drop pivot sorted)

  unfoldable pub count_unhealthy : List Pod → ℕ
  count_unhealthy [] = 0
  count_unhealthy (pod ∷ pods) = count_unhealthy pods + (if not (is_healthy k pod) then 1 else 0)

  unfoldable pub split_unhealthy_pods : List Pod → List Pod × List Pod
  unfolding count_unhealthy
  split_unhealthy_pods pods =
      let n = count_unhealthy pods in
      let sorted = sort less_by_creation pods in (take n sorted, drop n sorted)
