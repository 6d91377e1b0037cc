-- ===== src/NodeSetSync/History.antt =====
-- The revisions of a NodeSet
-- (upstream/slurm-operator/internal/controller/nodeset/nodeset_history.go, and the revisions in
-- nodeset_sync.go).
pub mod Truncate
pub mod Stored
pub mod Unchanged
use slinky_on_openshift.Prelude.{
  suc, ◌+◌, ℕ, zero, suc, ◌-◌, ◌≤◌, Bool, true, false, not, ◌||◌, Option, none, some, List, [], ◌∷◌,
  String, leb, length, take, any, map, str_eq, if◌then◌else◌,
}
use slinky_on_openshift.Prelude.Dict.{Dict, lookup, insert}
use slinky_on_openshift.Prelude.Int.{ℤ, pos, negsuc, ◌+ℤ◌, pos_part, ltb_ℤ}
use slinky_on_openshift.Exec.{Error, message, Result, ok, err, panic, M, pure, raise, ◌>>=◌, ◌>>◌}
use slinky_on_openshift.Kube.{Pod, NodeSet}
use slinky_on_openshift.Utils.Pods.{key_func, get_revision, revision_hash_label}
use slinky_on_openshift.Naming.{is_pod_from_nodeset}
use slinky_on_openshift.HistoryControl.{get_controller_of}
use slinky_on_openshift.NodeSetSync.Patch.{get_patch}
use slinky_on_openshift.NodeSetSync.Reconciler.{Reconciler, Revision}

abbrev pub last_from : Revision → List Revision → Revision
last_from x [] = x
last_from x (y ∷ ys) = last_from y ys

-- `revisions[count-1]`, or none for an empty list
abbrev pub last : List Revision → Option Revision
last [] = none
last (x ∷ xs) = some (last_from x xs)

unfoldable pub next_revision : List Revision → ℤ
next_revision revisions = elim (last revisions) [
  | none ↦ pos 1
  | some revision ↦ revision.number +ℤ pos 1
]

-- `live[name]`, for the names of the two revisions and the hashes of the pods
abbrev pub is_live : Revision → Revision → List Pod → String → Bool
is_live current update pods name =
    str_eq current.name name
    || str_eq update.name name
    || any (λ pod. str_eq (get_revision pod.labels) name) pods

unfoldable pub non_live : Revision → Revision → List Pod → List Revision → List Revision
unfolding get_revision
non_live current update pods [] = []
non_live current update pods (x ∷ xs) =
    let rest = non_live current update pods xs in
    if not (is_live current update pods x.name) then x ∷ rest else rest

-- a limit that is not set is 0
abbrev pub history_limit : NodeSet → ℤ
history_limit nodeset = elim nodeset.revision_history_limit [ none ↦ pos 0 | some n ↦ n ]

-- The revisions that are deleted, oldest first, and whether a panic follows. A negative limit makes
-- the slice longer than the history: within its capacity, the entries behind the history are nil,
-- and the first of them panics; beyond it, the slice itself does.
unfoldable pub to_truncate :
    NodeSet → Revision → Revision → List Pod → List Revision → List Revision × Bool
unfolding non_live
to_truncate nodeset current update pods revisions =
    let history = non_live current update pods revisions in
    elim (history_limit nodeset) [
      | negsuc n ↦
          if leb (length history + suc n) (length revisions) then (history, true) else ([], true)
      | pos limit ↦
          if leb (length history) limit
          then ([], false)
          else (take (length history - limit) history, false)
    ]

module _ {S : Type 0} (r : Reconciler S) where
  unfoldable pub can_adopt : NodeSet → M S (Unit {0})
  can_adopt nodeset = r.kube.recheck_deletion_timestamp (
      r.kube.get_nodeset (key_func nodeset.namespace nodeset.name) >>= λ fresh.
      if str_eq fresh.uid nodeset.uid
      then pure fresh
      else raise (message "original NodeSet is gone"))

  unfoldable pub get_nodeset_pods : NodeSet → M S (List Pod)
  unfolding is_pod_from_nodeset can_adopt
  get_nodeset_pods nodeset s = elim (r.kube.selector_text nodeset.selector) [
    | err e ↦ (err e, s)
    | panic ↦ (panic, s)
    | ok _ ↦
        (r.kube.list_pods nodeset.namespace >>= λ pods.
        r.kube.claim_pods nodeset pods (is_pod_from_nodeset nodeset) (can_adopt nodeset))
          s
  ]

  unfoldable pub list_revisions : NodeSet → M S (List Revision)
  list_revisions nodeset s = elim (r.kube.selector_text nodeset.selector) [
    | err e ↦ (err e, s)
    | panic ↦ (panic, s)
    | ok _ ↦ r.history_control.list_controller_revisions nodeset s
  ]

  -- the loop over a list of calls that stops at the first error
  pub each : (Revision → M S (Unit {0})) → List Revision → M S (Unit {0})
  each f [] = pure tt
  each f (x ∷ xs) = f x >> each f xs

  unfoldable pub truncate_history : NodeSet → List Revision → Revision → Revision → M S (Unit {0})
  unfolding get_nodeset_pods to_truncate each
  truncate_history nodeset revisions current update = get_nodeset_pods nodeset >>= λ pods.
      let (history, panics) = to_truncate nodeset current update pods revisions in
      each r.history_control.delete_controller_revision history
      >> (λ s. if panics then (panic, s) else (ok tt, s))

  unfoldable pub add_annotations : Dict String → Dict String → Dict String
  add_annotations [] m = m
  add_annotations ((key, value) ∷ l) m = add_annotations l (insert key value m)

  abbrev or_empty : Option (Dict String) → Dict String
  or_empty none = []
  or_empty (some m) = m

  -- with the NodeSet's annotations besides its own
  abbrev pub annotated : NodeSet → Revision → Revision
  annotated nodeset cr = record cr {
    annotations = some (add_annotations (or_empty nodeset.annotations) (or_empty cr.annotations));
  }

  unfoldable pub new_revision : NodeSet → ℤ → ℤ → Result Revision
  unfolding get_patch add_annotations
  new_revision nodeset number collision_count = elim (get_patch r.kube.json nodeset) [
    | err e ↦ err e
    | panic ↦ panic
    | ok patch ↦ elim (r.kube.new_controller_revision nodeset patch number collision_count) [
      | err e ↦ err e
      | panic ↦ panic
      | ok cr ↦ ok (annotated nodeset cr)
    ]
  ]

  abbrev find_named : String → List Revision → Option Revision
  find_named name [] = none
  find_named name (x ∷ xs) = if str_eq x.name name then some x else find_named name xs

  abbrev pub with_current : NodeSet → List Revision → ℤ → Revision → Revision × Revision × ℤ
  with_current nodeset revisions collision_count update =
      elim (find_named nodeset.status.node_set_hash revisions) [
        | none ↦ (update, update, collision_count)
        | some current ↦ (current, update, collision_count)
      ]

  abbrev created :
      NodeSet → List Revision → Result Revision × ℤ × S → Result (Revision × Revision × ℤ) × S
  created nodeset revisions (ok update, count, s) =
      (ok (with_current nodeset revisions count update), s)
  created nodeset revisions (err e, count, s) = (err e, s)
  created nodeset revisions (panic, count, s) = (panic, s)

  abbrev pub count_of : Option ℤ → ℤ
  count_of none = pos 0
  count_of (some n) = n

  -- on the revisions as `SortControllerRevisions` leaves them
  unfoldable pub get_nodeset_revisions : NodeSet → List Revision → M S (Revision × Revision × ℤ)
  unfolding next_revision new_revision
  get_nodeset_revisions nodeset revisions s =
      let collision_count = count_of nodeset.status.collision_count in
      elim (new_revision nodeset (next_revision revisions) collision_count) [
        | err e ↦ (err e, s)
        | panic ↦ (panic, s)
        | ok update ↦ elim (last (r.kube.find_equal_revisions revisions update)) [
          | none ↦
              created nodeset revisions
                (r.history_control.create_controller_revision nodeset update collision_count s)
          | some equal ↦ elim (last revisions) [
            | none ↦ (panic, s)
            | some latest ↦
                if r.kube.equal_revision latest equal
                then (ok (with_current nodeset revisions collision_count latest), s)
                else (r.history_control.update_controller_revision equal update.number
                      >>= λ updated. pure (with_current nodeset revisions collision_count updated))
                    s
          ]
        ]
      ]

  -- A label is written to the labels as they are: into a nil map, this panics.
  unfoldable pub label_revision : Revision → M S (Unit {0})
  label_revision revision s = elim revision.labels [
    | none ↦ (panic, s)
    | some m ↦ elim (lookup revision_hash_label m) [
      | some v ↦ (ok tt, s)
      | none ↦
          r.kube.update_revision
            (record revision { labels = some (insert revision_hash_label revision.name m) }) s
    ]
  ]

  unfoldable pub orphans : List Revision → List Revision
  orphans [] = []
  orphans (x ∷ xs) =
      let rest = orphans xs in
      elim (get_controller_of x.owner_references) [ none ↦ x ∷ rest | some _ ↦ rest ]

  unfoldable pub do_adopt_orphan_revisions : NodeSet → List Revision → M S (Unit {0})
  unfolding each
  do_adopt_orphan_revisions nodeset revisions =
      each (λ x. r.history_control.adopt_controller_revision nodeset x >> pure tt) revisions

  abbrev cannot_adopt : Result (Unit {0}) × S → Result (Unit {0}) × S
  cannot_adopt (ok _, s) = (ok tt, s)
  cannot_adopt (err e, s) = (err (message "cannot adopt ControllerRevisions"), s)
  cannot_adopt (panic, s) = (panic, s)

  abbrev adopt_any : NodeSet → List Revision → M S (Unit {0})
  adopt_any nodeset [] s = (ok tt, s)
  adopt_any nodeset (x ∷ xs) s =
      ((λ s. cannot_adopt (can_adopt nodeset s)) >> do_adopt_orphan_revisions nodeset (x ∷ xs)) s

  unfoldable pub adopt_orphan_revisions : NodeSet → M S (Unit {0})
  unfolding list_revisions can_adopt each label_revision orphans do_adopt_orphan_revisions
  adopt_orphan_revisions nodeset = list_revisions nodeset >>= λ revisions.
      each label_revision revisions >> adopt_any nodeset (orphans revisions)
