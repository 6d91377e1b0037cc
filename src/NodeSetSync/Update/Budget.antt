-- ===== src/NodeSetSync/Update/Budget.antt =====
-- A rolling update keeps to its limit
-- (upstream/slurm-operator/internal/controller/nodeset/nodeset_sync.go).
use mathlib.Core.Bool.{Bool-set}
use mathlib.Core.List.{Perm, perm_middle, perm_append_comm, append_assoc}
use mathlib.Core.List.Perm
use slinky_on_openshift.Prelude.{
  ℕ, ◌+◌, ◌-◌, ◌≡◌, refl, sym, ap, ◌∙◌, min, not, ◌&&◌, Bool, true, false, List, [], ◌∷◌, ◌++◌,
  String, Option, arith, length, All, All-perm, str_eq, Bool-cases, inl, inr, if◌then◌else◌,
}
use slinky_on_openshift.Prelude.Int.{ℤ, pos, pos_part}
use slinky_on_openshift.Kube.{Pod, NodeSet, Library, IntOrString}
use slinky_on_openshift.Utils.Math.{clamp, get_scaled_value_from_int_or_percent}
use slinky_on_openshift.Utils.Pods.{is_terminating, get_revision}
use slinky_on_openshift.Sort.{split_active_pods}
use slinky_on_openshift.Sort.Split.{split_active_pods_lem}
use slinky_on_openshift.NodeSetSync.Update.{
  find_updated_pods, replicas_of, minus, count_unavailable, split_for_rolling,
}

-- the pods that are not terminating
unfoldable pub live_pods : List Pod → List Pod
live_pods [] = []
live_pods (pod ∷ pods) = if is_terminating pod then live_pods pods else pod ∷ live_pods pods

-- Every pod that is not terminating is in exactly one of the two lists: in the first if its revision
-- label is the hash, in the second if not.
pub find_updated_pods_lem :
    (pods : List Pod) (hash : String)
    → let (new_pods, old_pods) = find_updated_pods pods hash in
      Perm (new_pods ++ old_pods) (live_pods pods)
      × All (λ pod. str_eq (get_revision pod.labels) hash ≡ true) new_pods
      × All (λ pod. str_eq (get_revision pod.labels) hash ≡ false) old_pods
unfolding find_updated_pods live_pods
find_updated_pods_lem [] hash = (Perm.refl [], tt, tt)
find_updated_pods_lem (pod ∷ pods) hash =
    let rest = find_updated_pods_lem pods hash in
    let (new_pods, old_pods) = find_updated_pods pods hash in
    elim (Bool-cases (is_terminating pod)) [
      | inl gone ↦ rw gone rest
      | inr live ↦ elim (Bool-cases (str_eq (get_revision pod.labels) hash)) [
        | inl new ↦ rw live (rw new (Perm.cons pod rest.0, (new, rest.1), rest.2))
        | inr old ↦ rw live (
            rw old (
              Perm.trans (perm_middle new_pods old_pods) (Perm.cons pod rest.0),
              rest.1,
              (old, rest.2),
            ))
      ]
    ]

perm_left_comm : (xs ys zs : List Pod) → Perm (xs ++ (ys ++ zs)) (ys ++ (xs ++ zs))
perm_left_comm xs ys zs =
    rw (sym (append_assoc xs ys zs))
      (rw (sym (append_assoc ys xs zs)) (Perm.append_right zs (perm_append_comm xs ys)))

abbrev pub how_many : (Pod → Bool) → List Pod → ℕ
how_many is_counted [] = 0
how_many is_counted (pod ∷ pods) = (if is_counted pod then 1 else 0) + how_many is_counted pods

-- not terminating, and with another revision
abbrev pub IsOld : String → Pod → Type 0
IsOld hash pod = (is_terminating pod ≡ false) × (str_eq (get_revision pod.labels) hash ≡ false)

abbrev pub is_old : String → Pod → Bool
is_old hash pod = not (is_terminating pod) && not (str_eq (get_revision pod.labels) hash)

pub IsOld-prop : (hash : String) (pod : Pod) → IsProp (IsOld hash pod)
IsOld-prop hash pod = hlevel Bool-set

pub All-IsOld : (pods : List Pod) (hash : String) → All (IsOld hash) (find_updated_pods pods hash).1
unfolding find_updated_pods
All-IsOld [] hash = tt
All-IsOld (pod ∷ pods) hash =
    let rest = All-IsOld pods hash in
    elim (Bool-cases (is_terminating pod)) [
      | inl gone ↦ rw gone rest
      | inr live ↦ elim (Bool-cases (str_eq (get_revision pod.labels) hash)) [
        | inl new ↦ rw live (rw new rest)
        | inr old ↦ rw live (rw old ((live, old), rest))
      ]
    ]

length-old :
    (pods : List Pod) (hash : String)
    → length (find_updated_pods pods hash).1 ≡ how_many (is_old hash) pods
unfolding find_updated_pods
length-old [] hash = refl
length-old (pod ∷ pods) hash = ground (arith, length-old pods hash)

All-front : (P : Pod → Type 0) (xs ys : List Pod) → All P (xs ++ ys) → All P xs
All-front P [] ys h = tt
All-front P (x ∷ xs) ys h = (h.0, All-front P xs ys h.1)

module _ (sort : (Pod → Pod → Bool) → List Pod → List Pod)
    (sort-perm : (lt : Pod → Pod → Bool) (xs : List Pod) → Perm (sort lt xs) xs) (k : Library)
    (nodeset : NodeSet) (now : ℤ) (limit : Option IntOrString) (pods : List Pod)
    (hash : String) where
  abbrev pub max_unavailable : ℕ
  max_unavailable =
      pos_part (get_scaled_value_from_int_or_percent k limit (replicas_of nodeset) true (pos 1))

  abbrev pub unavailable : ℕ
  unavailable = count_unavailable k nodeset.min_ready_seconds now (find_updated_pods pods hash).0

  pub split_for_rolling-found :
      let (to_delete, to_keep) = split_for_rolling k sort nodeset now limit pods hash in
      Perm (to_delete ++ to_keep) (live_pods pods)
      × (length to_delete
          ≡ min (max_unavailable - unavailable) (length (find_updated_pods pods hash).1))
  unfolding split_for_rolling split_active_pods clamp
  split_for_rolling-found =
      let (new_pods, old_pods) = find_updated_pods pods hash in
      let limited =
        get_scaled_value_from_int_or_percent k limit (replicas_of nodeset) true (pos 1) in
      let remaining = clamp (minus limited (pos unavailable)) (pos 0) limited in
      let (to_delete, rest) = split_active_pods sort k old_pods remaining in
      let split = split_active_pods_lem sort sort-perm k old_pods remaining in
      let budget : pos_part remaining ≡ max_unavailable - unavailable = ground arith in
      (
        Perm.trans (perm_left_comm to_delete new_pods rest)
            (Perm.trans (Perm.append_left new_pods split.0) (find_updated_pods_lem pods hash).0),
        split.1 ∙ ap (λ n. min n (length old_pods)) budget,
      )

  -- not terminating, with the revision, and not available
  abbrev pub is_missing : Pod → Bool
  is_missing pod =
      not (is_terminating pod)
      && str_eq (get_revision pod.labels) hash
      && not (k.is_pod_available pod nodeset.min_ready_seconds now)

  unavailable-how_many :
      (ps : List Pod)
      → count_unavailable k nodeset.min_ready_seconds now (find_updated_pods ps hash).0
        ≡ how_many is_missing ps
  unfolding find_updated_pods count_unavailable
  unavailable-how_many [] = refl
  unavailable-how_many (pod ∷ ps) = ground (arith, unavailable-how_many ps)

  -- For every sort that permutes: the pods to delete and those to keep are the pods that are not
  -- terminating; each pod to delete has another revision than the hash; and their number is what the
  -- limit leaves beside the pods that have the hash, are not terminating and are not available, and at
  -- most that of all the pods that have another revision and are not terminating.
  pub split_for_rolling_lem :
      let (to_delete, to_keep) = split_for_rolling k sort nodeset now limit pods hash in
      Perm (to_delete ++ to_keep) (live_pods pods)
      × All (IsOld hash) to_delete
      × (length to_delete
          ≡ min (max_unavailable - how_many is_missing pods) (how_many (is_old hash) pods))
  unfolding split_for_rolling split_active_pods clamp
  split_for_rolling_lem =
      let (new_pods, old_pods) = find_updated_pods pods hash in
      let limited =
        get_scaled_value_from_int_or_percent k limit (replicas_of nodeset) true (pos 1) in
      let remaining = clamp (minus limited (pos unavailable)) (pos 0) limited in
      let (to_delete, rest) = split_active_pods sort k old_pods remaining in
      let split = split_active_pods_lem sort sort-perm k old_pods remaining in
      (
        split_for_rolling-found.0,
        All-front (IsOld hash) to_delete rest (
            All-perm (IsOld hash) (IsOld-prop hash) (to_delete ++ rest) old_pods split.0
              (All-IsOld pods hash)),
        omega (arith, split_for_rolling-found.1, unavailable-how_many pods, length-old pods hash),
      )
