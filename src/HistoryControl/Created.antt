-- ===== src/HistoryControl/Created.antt =====
-- What a create leaves on the server
-- (upstream/slurm-operator/internal/utils/historycontrol/historycontrol.go).
use text.Mathlib.TextPositions.{eq_refl}
use slinky_on_openshift.Prelude.{
  ℕ, zero, suc, ◌<◌, ◌≡◌, ◌⊎◌, inl, inr, refl, Option, none, some, String, arith, str_eq, eq_iff,
  Bool-cases, Option-cases,
}
use slinky_on_openshift.Prelude.Dict.{Dict, lookup, insert, lookup-insert}
use slinky_on_openshift.Prelude.Int.{ℤ}
use slinky_on_openshift.Exec.{not_found, already_exists, Result, ok, err}
use slinky_on_openshift.Kube.{NodeSet}
use slinky_on_openshift.Utils.Pods.{key_func}
use slinky_on_openshift.NodeSetSync.Reconciler.{Revision}
use slinky_on_openshift.HistoryControl.{
  RevisionClient, increment, name_at, create_loop, create_controller_revision,
}

abbrev key_of : Revision → String
key_of x = key_func x.namespace x.name

abbrev found : Option Revision → Result Revision
found none = err not_found
found (some x) = ok x

abbrev added : Revision → Dict Revision → Option Revision → Result Revision × Dict Revision
added x entries none = (ok x, insert (key_of x) x entries)
added x entries (some _) = (err already_exists, entries)

-- the same client, on a server that keeps revisions by their namespace and name
abbrev pub on_store : RevisionClient (Dict Revision) → RevisionClient (Dict Revision)
on_store client = record client {
  create_revision = λ x entries. added x entries (lookup (key_of x) entries);
  get_revision =
      λ namespace name entries. (found (lookup (key_func namespace name) entries), entries);
}

-- the collision count after some collisions
abbrev pub nth_count : ℕ → ℤ → ℤ
nth_count zero count = count
nth_count (suc n) count = nth_count n (increment count)

module _ (client : RevisionClient (Dict Revision)) (parent : NodeSet) (revision : Revision) where
  abbrev pub key_at : ℤ → String
  key_at count = key_func parent.namespace (name_at client parent revision count)

  -- a revision with the given data is on the server, and nothing else has changed there
  abbrev pub IsStored : Dict Revision → Revision → ℤ → Dict Revision → Type 0
  IsStored before x count after =
      (lookup (key_at count) after ≡ some x)
      × (x.patch ≡ revision.patch)
      × ((after ≡ before)
          ⊎ ((lookup (key_at count) before ≡ none) × (after ≡ insert (key_at count) x before)))

  abbrev EndsStored : ℕ → ℤ → Dict Revision → Type 0
  EndsStored fuel count entries =
      (x : Revision) × (last : ℤ) × (after : Dict Revision) × (create_loop (on_store client) fuel
          parent revision count entries
        ≡ some (ok x, some last, after))
      × IsStored entries x last after

  abbrev sent : ℤ → Revision
  sent count = record revision {
    name = name_at client parent revision count;
    namespace = parent.namespace;
  }

  ends-unused :
      (fuel : ℕ) (count : ℤ) (entries : Dict Revision)
      → lookup (key_at count) entries ≡ none
      → EndsStored (suc fuel) count entries
  unfolding create_loop
  ends-unused fuel count entries unused = (
    sent count,
    count,
    insert (key_at count) (sent count) entries,
    ground (arith, unused),
    (
      ground (
        arith,
        lookup-insert (key_at count) (key_at count) (sent count) entries,
        eq_refl (key_at count),
      ),
      refl,
      inr (unused, refl),
    ),
  )

  ends-collided :
      (fuel : ℕ) (count : ℤ) (entries : Dict Revision) (x : Revision)
      → lookup (key_at count) entries ≡ some x
      → EndsStored fuel (increment count) entries
      → EndsStored (suc fuel) count entries
  unfolding create_loop
  ends-collided fuel count entries x there (y, last, after, ends, stored) =
      elim (Bool-cases (str_eq x.patch revision.patch)) [
        | inl same ↦ (
          x,
          count,
          entries,
          ground (arith, there, same),
          (there, (eq_iff x.patch revision.patch).0 same, inl refl),
        )
        | inr other ↦ (y, last, after, ground (arith, there, other, ends), stored)
      ]

  create_loop-IsStored :
      (n fuel : ℕ) (count : ℤ) (entries : Dict Revision)
      → n < fuel
      → lookup (key_at (nth_count n count)) entries ≡ none
      → EndsStored fuel count entries
  create_loop-IsStored n zero count entries enough unused = elim enough [ ]
  create_loop-IsStored zero (suc fuel) count entries enough unused =
      ends-unused fuel count entries unused
  create_loop-IsStored (suc n) (suc fuel) count entries enough unused =
      elim (Option-cases (lookup (key_at count) entries)) [
        | inl free ↦ ends-unused fuel count entries free
        | inr (x, there) ↦
            ends-collided fuel count entries x there (
              create_loop-IsStored n fuel (increment count) entries (ground (arith, enough)) unused)
      ]

  -- On a server that keeps revisions by name, if after some collisions, fewer than the fuel, the name
  -- is not in use: the create ends with a revision that has the given data and is on the server under
  -- the name of the last collision count. It was there before and the server is unchanged, or its
  -- name was unused and it was added.
  pub create_controller_revision-IsStored :
      (n fuel : ℕ) (count : ℤ) (entries : Dict Revision)
      → n < fuel
      → lookup (key_at (nth_count n count)) entries ≡ none
      → (x : Revision) × (last : ℤ) × (after : Dict Revision) × (create_controller_revision
            (on_store client)
            fuel
            parent
            revision
            (some count)
            entries
          ≡ some (ok x, some last, after))
        × IsStored entries x last after
  unfolding create_controller_revision
  create_controller_revision-IsStored = create_loop-IsStored
