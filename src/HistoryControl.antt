-- ===== src/HistoryControl.antt =====
-- The revisions of a NodeSet on the server
-- (upstream/slurm-operator/internal/utils/historycontrol/historycontrol.go).
pub mod Created
pub mod Controlled
pub mod Interface
use slinky_on_openshift.Prelude.{
  ℕ, zero, suc, ◌-◌, ◌^◌, Bool, true, false, Option, none, some, List, [], ◌∷◌, ◌++◌, String, ltb,
  str_eq, if◌then◌else◌,
}
use slinky_on_openshift.Prelude.Int.{ℤ, pos, negsuc, eqb_ℤ}
use slinky_on_openshift.Exec.{
  Error, not_found, already_exists, invalid, message, Result, ok, err, panic, M, ◌>>=◌, pure,
}
use slinky_on_openshift.Kube.{OwnerReference, NodeSet, Selector}
use slinky_on_openshift.PodControl.Owners.{is_controller, nodeset_owner}
use slinky_on_openshift.NodeSetSync.Reconciler.{Revision}

-- The API server's revisions, `HashControllerRevision`, `ControllerRevisionName`, and
-- `retry.RetryOnConflict(retry.DefaultBackoff, _)` on a function that has a revision of its own.
-- A create and an update give the revision that the server then has.
pub record RevisionClient (S : Type 0) : Type 0 where
  pub list_revisions : String → Option Selector → M S (List Revision)
  pub create_revision : Revision → M S Revision
  pub get_revision : String → String → M S Revision
  pub update_revision : Revision → M S Revision
  pub delete_revision : Revision → M S (Unit {0})
  pub hash : Revision → ℤ → String
  pub revision_name : String → String → String
  pub retry_on_conflict : M (Revision × S) (Unit {0}) → M (Revision × S) (Unit {0})

-- `metav1.GetControllerOf`
unfoldable pub get_controller_of : List OwnerReference → Option OwnerReference
get_controller_of [] = none
get_controller_of (r ∷ refs) = if is_controller r then some r else get_controller_of refs

unfoldable pub owned_by : String → List Revision → List Revision
unfolding get_controller_of
owned_by uid [] = []
owned_by uid (x ∷ xs) =
    let rest = owned_by uid xs in
    elim (get_controller_of x.owner_references) [
      | none ↦ x ∷ rest
      | some ref ↦ if str_eq ref.uid uid then x ∷ rest else rest
    ]

-- `++` on an int32
abbrev pub increment : ℤ → ℤ
increment (pos n) = if ltb (suc n) (2 ^ 31) then pos (suc n) else negsuc (2 ^ 31 - 1)
increment (negsuc zero) = pos 0
increment (negsuc (suc n)) = negsuc n

abbrev pub controller_ref : NodeSet → OwnerReference
controller_ref parent =
    let owner = nodeset_owner parent in
    record {
      api_version = owner.api_version;
      kind = owner.kind;
      name = owner.name;
      uid = owner.uid;
      controller = some true;
      block_owner_deletion = some true;
    }

unfoldable pub without_parent : String → List OwnerReference → List OwnerReference
without_parent uid [] = []
without_parent uid (o ∷ owners) =
    let rest = without_parent uid owners in if str_eq o.uid uid then rest else o ∷ rest

module _ {S : Type 0} (client : RevisionClient S) where
  unfoldable pub list_controller_revisions : NodeSet → M S (List Revision)
  unfolding owned_by
  list_controller_revisions parent =
      client.list_revisions parent.namespace parent.selector >>= λ items.
      pure (owned_by parent.uid items)

  -- the name at a collision count
  abbrev pub name_at : NodeSet → Revision → ℤ → String
  name_at parent revision count = client.revision_name parent.name (client.hash revision count)

  -- The loop, one round for each unit of fuel; `none` is a loop that has not ended by then.
  unfoldable pub create_loop :
      (fuel : ℕ) → NodeSet → Revision → ℤ → S → Option (Result Revision × Option ℤ × S)
  create_loop zero parent revision count s = none
  create_loop (suc fuel) parent revision count s =
      let name = name_at parent revision count in
      let (created, s1) =
        client.create_revision (record revision { name = name; namespace = parent.namespace }) s in
      elim created [
        | panic ↦ some (panic, some count, s1)
        | ok x ↦ some (ok x, some count, s1)
        | err already_exists ↦
            let (got, s2) = client.get_revision parent.namespace name s1 in
            elim got [
              | panic ↦ some (panic, some count, s2)
              | err e ↦ some (err e, some count, s2)
              | ok exists ↦ elim (str_eq exists.patch revision.patch) [
                | true ↦ some (ok exists, some count, s2)
                | false ↦ create_loop fuel parent revision (increment count) s2
              ]
            ]
        | err e ↦ some (err e, some count, s1)
      ]

  unfoldable pub create_controller_revision :
      (fuel : ℕ) → NodeSet → Revision → Option ℤ → S → Option (Result Revision × Option ℤ × S)
  unfolding create_loop
  create_controller_revision fuel parent revision none s =
      some (err (message "collisionCount should not be nil"), none, s)
  create_controller_revision fuel parent revision (some count) s =
      create_loop fuel parent revision count s

  -- `rh.Update(ctx, clone)`; behind an error, the next attempt starts from the revision on the
  -- server, if it can be read
  unfoldable pub commit : String → String → M (Revision × S) (Unit {0})
  commit namespace name (clone, s) =
      let (updated, s1) = client.update_revision clone s in
      elim updated [
        | panic ↦ (panic, (clone, s1))
        | ok x ↦ (ok tt, (x, s1))
        | err e ↦
            let (got, s2) = client.get_revision namespace name s1 in
            elim got [
              | panic ↦ (panic, (clone, s2))
              | err _ ↦ (err e, (clone, s2))
              | ok fresh ↦ (err e, (fresh, s2))
            ]
      ]

  unfoldable pub update_attempt : String → String → ℤ → M (Revision × S) (Unit {0})
  unfolding commit
  update_attempt namespace name new_number (clone, s) =
      if eqb_ℤ clone.number new_number
      then (ok tt, (clone, s))
      else commit namespace name (record clone { number = new_number }, s)

  -- what comes back of the retried function: its revision, or its error
  abbrev returned : Result (Unit {0}) × (Revision × S) → Result Revision × S
  returned (ok _, (clone, s)) = (ok clone, s)
  returned (err e, (_, s)) = (err e, s)
  returned (panic, (_, s)) = (panic, s)

  unfoldable pub update_controller_revision : Revision → ℤ → M S Revision
  unfolding update_attempt
  update_controller_revision revision new_number s = returned (
      client.retry_on_conflict (update_attempt revision.namespace revision.name new_number)
        (revision, s))

  unfoldable pub delete_controller_revision : Revision → M S (Unit {0})
  delete_controller_revision revision = client.delete_revision revision

  unfoldable pub adopt_attempt : NodeSet → String → String → M (Revision × S) (Unit {0})
  unfolding get_controller_of commit
  adopt_attempt parent namespace name (clone, s) = elim (get_controller_of clone.owner_references) [
    | some owner ↦ (err (message "attempt to adopt revision owned by"), (clone, s))
    | none ↦ commit namespace name (
      record clone { owner_references = clone.owner_references ++ (controller_ref parent ∷ []) },
      s,
    )
  ]

  unfoldable pub adopt_controller_revision : NodeSet → Revision → M S Revision
  unfolding adopt_attempt
  adopt_controller_revision parent revision s = returned (
      client.retry_on_conflict (adopt_attempt parent revision.namespace revision.name)
        (revision, s))

  unfoldable pub release_attempt : NodeSet → String → String → M (Revision × S) (Unit {0})
  unfolding get_controller_of commit without_parent
  release_attempt parent namespace name (clone, s) =
      elim (get_controller_of clone.owner_references) [
        | some owner ↦ (err (message "attempt to adopt revision owned by"), (clone, s))
        | none ↦ commit namespace name (
          record clone { owner_references = without_parent parent.uid clone.owner_references },
          s,
        )
      ]

  -- no revision and no error for one that is gone, or that the server takes as invalid
  abbrev released : Result Revision × S → Result (Option Revision) × S
  released (ok clone, s) = (ok (some clone), s)
  released (err not_found, s) = (ok none, s)
  released (err invalid, s) = (ok none, s)
  released (err e, s) = (err e, s)
  released (panic, s) = (panic, s)

  unfoldable pub release_controller_revision : NodeSet → Revision → M S (Option Revision)
  unfolding release_attempt
  release_controller_revision parent revision s = released (
      returned (
        client.retry_on_conflict (release_attempt parent revision.namespace revision.name)
          (revision, s)))
