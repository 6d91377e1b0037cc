-- ===== src/NodeSetSync/Reconciler.antt =====
-- What a NodeSetReconciler holds
-- (upstream/slurm-operator/internal/controller/nodeset/nodeset_controller.go): the interfaces of
-- its controls, and the packages of Kubernetes that it calls.
use slinky_on_openshift.Prelude.{ℕ, Bool, Option, none, some, List, String, get_elem?, length}
use slinky_on_openshift.Prelude.Dict.{Dict}
use slinky_on_openshift.Prelude.Int.{ℤ}
use slinky_on_openshift.Exec.{Result, ok, err, panic, M}
use slinky_on_openshift.Kube.{OwnerReference, Pod, NodeSet, Selector, Library}
use slinky_on_openshift.Utils.Batch.{Tally, slow_start_batch}
use slinky_on_openshift.Utils.KeyedStore.{KeyedStore, push}
use slinky_on_openshift.NodeSetSync.Patch.{GoJson}
use slinky_on_openshift.SlurmControl.Interface.{SlurmControlInterface}
use slinky_on_openshift.PodControl.Interface.{PodControlInterface}

-- `ControllerRevision`: what the operator reads of it, and the patch that it stores
pub record Revision : Type 0 where
  pub name : String
  pub namespace : String
  pub labels : Option (Dict String)
  pub annotations : Option (Dict String)
  pub owner_references : List OwnerReference
  pub number : ℤ
  pub patch : String

-- `HistoryControlInterface`; a create gives the collision count back beside the revision, also when
-- it fails
pub record HistoryControlInterface (S : Type 0) : Type 0 where
  pub list_controller_revisions : NodeSet → M S (List Revision)
  pub create_controller_revision : NodeSet → Revision → ℤ → S → Result Revision × ℤ × S
  pub update_controller_revision : Revision → ℤ → M S Revision
  pub delete_controller_revision : Revision → M S (Unit {0})
  pub adopt_controller_revision : NodeSet → Revision → M S Revision

-- `UIDTrackingControllerExpectations`
pub record Expectations (S : Type 0) : Type 0 where
  pub expect_creations : String → ℤ → M S (Unit {0})
  pub expect_deletions : String → List String → M S (Unit {0})
  pub set_expectations : String → M S (Unit {0})
  pub creation_observed : String → S → S
  pub deletion_observed : String → String → S → S
  pub satisfied_expectations : String → S → Bool
  pub delete_expectations : String → S → S

-- The API server and the packages of Kubernetes. `patch_pod` is `Patch(toUpdate, from)`.
pub record KubeClient (S : Type 0) : Type 0 where
  pub get_nodeset : String → M S NodeSet
  pub update_nodeset_status : NodeSet → M S (Unit {0})
  -- `retry.RetryOnConflict(retry.DefaultRetry, _)`
  pub retry_on_conflict : M S (Unit {0}) → M S (Unit {0})
  pub list_pods : String → M S (List Pod)
  pub patch_pod : Pod → Pod → M S (Unit {0})
  pub update_revision : Revision → M S (Unit {0})
  -- `PodControllerRefManager.ClaimPods`, with the filter and the check before an adoption
  pub claim_pods : NodeSet → List Pod → (Pod → Bool) → M S (Unit {0}) → M S (List Pod)
  -- `controller.RecheckDeletionTimestamp`, with the function that gets the object
  pub recheck_deletion_timestamp : M S NodeSet → M S (Unit {0})
  -- `LabelSelectorAsSelector` and the selector's text
  pub selector_text : Option Selector → Result String
  pub json : GoJson
  -- `history.NewControllerRevision` with the patch of the NodeSet, number and collision count
  pub new_controller_revision :
      NodeSet → (patch : String) → (number collision_count : ℤ) → Result Revision
  -- `history.FindEqualRevisions`, `EqualRevision` and `SortControllerRevisions`
  pub find_equal_revisions : List Revision → Revision → List Revision
  pub equal_revision : Revision → Revision → Bool
  pub sort_revisions : List Revision → List Revision
  pub warn_selecting_all : NodeSet → S → S
  -- `metav1.Now`
  pub now : S → ℤ

-- `durations` and `set_durations` reach the package's `durationStore` in the state. `order` is the
-- schedule of a batch's goroutines, `sort` is `sort.Sort`.
pub record Reconciler (S : Type 0) : Type 0 where
  pub library : Library
  pub sort : (Pod → Pod → Bool) → List Pod → List Pod
  pub order : List ℕ → List ℕ
  pub kube : KubeClient S
  pub pod_control : PodControlInterface S
  pub slurm_control : SlurmControlInterface S
  pub history_control : HistoryControlInterface S
  pub expectations : Expectations S
  pub durations : S → KeyedStore
  pub set_durations : KeyedStore → S → S

module _ {S : Type 0} where
  -- a call on `pods[i]`, where the batch gives an index within the slice
  abbrev pub at_pod : List Pod → (Pod → M S (Unit {0})) → ℕ → M S (Unit {0})
  at_pod pods f i s = elim (get_elem? pods i) [ none ↦ (panic, s) | some pod ↦ f pod s ]

module _ {S : Type 0} (r : Reconciler S) where
  -- `durationStore.Push`
  abbrev pub push_duration : String → ℤ → S → S
  push_duration key d s = r.set_durations (push key d (r.durations s)) s

  -- `SlowStartBatch(n, SlowStartInitialBatchSize, fn)`
  abbrev pub batch : ℕ → (ℕ → M S (Unit {0})) → M S Tally
  batch n fn = slow_start_batch r.order fn n 1

  -- `if _, err := SlowStartBatch(len(pods), …); err != nil { return err }`
  abbrev pub error_of : Result Tally × S → Result (Unit {0}) × S
  error_of (ok (n, none), s) = (ok tt, s)
  error_of (ok (n, some e), s) = (err e, s)
  error_of (err e, s) = (err e, s)
  error_of (panic, s) = (panic, s)

  unfoldable pub for_pods : List Pod → (Pod → M S (Unit {0})) → M S (Unit {0})
  for_pods pods f s = error_of (batch (length pods) (at_pod pods f) s)

  -- a batch over the first pods only
  unfoldable pub for_first_pods : ℕ → List Pod → (Pod → M S (Unit {0})) → M S (Unit {0})
  for_first_pods n pods f s = error_of (batch n (at_pod pods f) s)
