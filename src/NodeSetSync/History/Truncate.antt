-- ===== src/NodeSetSync/History/Truncate.antt =====
-- Which revisions go, and the number of the next
-- (upstream/slurm-operator/internal/controller/nodeset/nodeset_history.go).
use slinky_on_openshift.Prelude.{
  ℕ, ◌-◌, ◌≡◌, ◌⊎◌, any, str_eq, eq_iff, refl, ◌∙◌, min, false, List, [], ◌∷◌, ◌++◌, arith, length,
  take, drop, All, true, leb, length-drop, take-append-drop, Bool-cases, inl, inr,
}
use slinky_on_openshift.Prelude.Int.{ℤ, pos, ◌≤ℤ◌, ◌<ℤ◌, ◌+ℤ◌}
use slinky_on_openshift.Kube.{Pod, NodeSet}
use slinky_on_openshift.Utils.Pods.{get_revision}
use slinky_on_openshift.NodeSetSync.Reconciler.{Revision}
use slinky_on_openshift.NodeSetSync.History.{
  last_from, next_revision, is_live, non_live, history_limit, to_truncate,
}

-- in ascending order of their numbers
abbrev pub Ascending : List Revision → Type 0
Ascending [] = Unit
Ascending (x ∷ xs) = All (λ y. x.number ≤ℤ y.number) xs × Ascending xs

All-behind :
    (bound : ℤ) (xs ys : List Revision)
    → All (λ y. bound ≤ℤ y.number) (xs ++ ys)
    → All (λ y. bound ≤ℤ y.number) ys
All-behind bound [] ys h = h
All-behind bound (x ∷ xs) ys h = All-behind bound xs ys h.1

-- of two parts in ascending order, the first is below the second
Ascending-parts :
    (xs ys : List Revision)
    → Ascending (xs ++ ys)
    → All (λ x. All (λ y. x.number ≤ℤ y.number) ys) xs
Ascending-parts [] ys h = tt
Ascending-parts (x ∷ xs) ys h = (All-behind x.number xs ys h.0, Ascending-parts xs ys h.1)

module _ (nodeset : NodeSet) (current update : Revision) (pods : List Pod) where
  -- a pod has the revision
  abbrev pub HasPod : List Pod → Revision → Type 0
  HasPod [] x = ⊥
  HasPod (pod ∷ ps) x = (get_revision pod.labels ≡ x.name) ⊎ HasPod ps x

  -- the current revision, the update's, or a pod's, by its name
  abbrev pub IsInUse : Revision → Type 0
  IsInUse x = (current.name ≡ x.name) ⊎ (update.name ≡ x.name) ⊎ HasPod pods x

  -- The second list has the revisions of the first that are not in use, in their order.
  abbrev pub IsUnused : List Revision → List Revision → Type 0
  IsUnused [] unused = unused ≡ []
  IsUnused (x ∷ xs) unused =
      (IsInUse x × IsUnused xs unused)
      ⊎ (¬ IsInUse x × ((others : List Revision) × (unused ≡ x ∷ others) × IsUnused xs others))

  any-HasPod :
      (ps : List Pod) (x : Revision)
      → (any (λ pod. str_eq (get_revision pod.labels) x.name) ps ≡ true → HasPod ps x)
        × (HasPod ps x → any (λ pod. str_eq (get_revision pod.labels) x.name) ps ≡ true)
  any-HasPod [] x = (λ h. cc, λ h. elim h [ ])
  any-HasPod (pod ∷ ps) x =
      let rest = any-HasPod ps x in
      let same = eq_iff (get_revision pod.labels) x.name in
      (λ h. ground (arith, h, rest.0, same), λ h. ground (arith, h, rest.1, same))

  is_live-IsInUse : (x : Revision) → is_live current update pods x.name ≡ true → IsInUse x
  is_live-IsInUse x h =
      ground
        (arith, h, eq_iff current.name x.name, eq_iff update.name x.name, (any-HasPod pods x).0)

  is_live-of_IsInUse : (x : Revision) → IsInUse x → is_live current update pods x.name ≡ true
  is_live-of_IsInUse x h =
      ground
        (arith, h, eq_iff current.name x.name, eq_iff update.name x.name, (any-HasPod pods x).1)

  non_live-IsUnused :
      (revisions : List Revision) → IsUnused revisions (non_live current update pods revisions)
  unfolding non_live
  non_live-IsUnused [] = refl
  non_live-IsUnused (x ∷ xs) =
      let rest = non_live-IsUnused xs in
      elim (Bool-cases (is_live current update pods x.name)) [
        | inl live ↦ rw live (inl (is_live-IsInUse x live, rest))
        | inr old ↦ rw old (
            inr (
              λ h. cc (old, is_live-of_IsInUse x h),
              (non_live current update pods xs, refl, rest),
            ))
      ]

  All-non_live :
      (bound : ℤ) (revisions : List Revision)
      → All (λ y. bound ≤ℤ y.number) revisions
      → All (λ y. bound ≤ℤ y.number) (non_live current update pods revisions)
  unfolding non_live
  All-non_live bound [] h = tt
  All-non_live bound (x ∷ xs) h =
      let rest = All-non_live bound xs h.1 in
      elim (Bool-cases (is_live current update pods x.name)) [
        | inl live ↦ rw live rest
        | inr old ↦ rw old (h.0, rest)
      ]

  Ascending-non_live :
      (revisions : List Revision)
      → Ascending revisions
      → Ascending (non_live current update pods revisions)
  unfolding non_live
  Ascending-non_live [] h = tt
  Ascending-non_live (x ∷ xs) h =
      let rest = Ascending-non_live xs h.1 in
      elim (Bool-cases (is_live current update pods x.name)) [
        | inl live ↦ rw live rest
        | inr old ↦ rw old (All-non_live x.number xs h.0, rest)
      ]

  -- For a history limit that is not negative, and revisions in ascending order of their numbers, as
  -- `SortControllerRevisions` leaves them: of the revisions that are neither current nor the update's
  -- nor of a pod, as many stay as the limit allows, or all, and the others, each no newer than any
  -- that stays, are all that is deleted.
  pub to_truncate_lem :
      (limit : ℕ) (revisions : List Revision)
      → history_limit nodeset ≡ pos limit
      → Ascending revisions
      → (deleted kept : List Revision) × (to_truncate nodeset current update pods revisions
          ≡ (deleted, false))
        × IsUnused revisions (deleted ++ kept)
        × (length kept ≡ min limit (length (deleted ++ kept)))
        × All (λ x. All (λ y. x.number ≤ℤ y.number) kept) deleted
  unfolding to_truncate
  to_truncate_lem limit revisions h sorted =
      let history = non_live current update pods revisions in
      let unused = non_live-IsUnused revisions in
      let ascending = Ascending-non_live revisions sorted in
      elim (Bool-cases (leb (length history) limit)) [
        | inl few ↦ ([], history, ground (arith, h, few), unused, ground (arith, few), tt)
        | inr many ↦
            let n = length history - limit in
            let whole = take-append-drop n history in
            (
              take n history,
              drop n history,
              ground (arith, h, many),
              rw whole unused,
              rw whole (length-drop n history ∙ ground (arith, many)),
              Ascending-parts (take n history) (drop n history) (rw whole ascending),
            )
      ]

last_from-greatest :
    (x : Revision) (xs : List Revision)
    → Ascending (x ∷ xs)
    → All (λ y. y.number ≤ℤ (last_from x xs).number) (x ∷ xs)
last_from-greatest x [] h = (omega arith, tt)
last_from-greatest x (y ∷ ys) h =
    let rest = last_from-greatest y ys h.1 in (omega (arith, h.0.0, rest.0), rest)

All-below :
    (bound : ℤ) (xs : List Revision)
    → All (λ y. y.number ≤ℤ bound) xs
    → All (λ y. y.number <ℤ bound +ℤ pos 1) xs
unfolding ◌+ℤ◌
All-below bound [] h = tt
All-below bound (x ∷ xs) h = (ground (arith, h.0), All-below bound xs h.1)

-- For revisions in ascending order, as `SortControllerRevisions` leaves them: the next number is
-- above that of each of them.
next_revision-greater :
    (revisions : List Revision)
    → Ascending revisions
    → All (λ y. y.number <ℤ next_revision revisions) revisions
unfolding next_revision
next_revision-greater [] h = tt
next_revision-greater (x ∷ xs) h =
    All-below (last_from x xs).number (x ∷ xs) (last_from-greatest x xs h)
