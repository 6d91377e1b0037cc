-- ===== src/EventHandler/Updates.antt =====
-- What an update is made of
-- (upstream/slurm-operator/internal/controller/nodeset/nodeset_eventhandler.go).
use slinky_on_openshift.Prelude.{
  Bool, true, false, Option, none, some, List, [], ◌∷◌, ◌++◌, if◌then◌else◌, ◌||◌, not, str_eq,
}
use slinky_on_openshift.Prelude.Int.{ℤ, pos}
use slinky_on_openshift.Kube.{OwnerReference, Pod, NodeSet}
use slinky_on_openshift.HistoryControl.{get_controller_of}
use slinky_on_openshift.EventHandler.{
  Call, Cache, labels_eq, controllers_eq, is_set, enqueue_nodeset_after, enqueue_all,
  old_controller, new_controller, available_later, resolve_controller_ref, get_pod_nodesets,
  delete_pod, update_pod,
}

-- A property of calls that holds of those to the queue and of a delete, and of calls behind calls.
module _ {ℓ} (cache : Cache) (P : List Call → Type ℓ) (P-nil : P [])
    (P-append : (a b : List Call) → P a → P b → P (a ++ b))
    (P-enqueue : (n : NodeSet) (d : ℤ) → P (enqueue_nodeset_after n d))
    (P-delete : (pod : Pod) → P (delete_pod cache pod)) where
  P-if : (b : Bool) (x y : List Call) → P x → P y → P (if b then x else y)
  P-if true x y px py = px
  P-if false x y px py = py

  pub P-enqueue_all : (ns : List NodeSet) → P (enqueue_all ns)
  P-enqueue_all [] = P-nil
  P-enqueue_all (n ∷ ns) =
      P-append (enqueue_nodeset_after n (pos 0)) (enqueue_all ns) (P-enqueue n (pos 0))
        (P-enqueue_all ns)

  P-old :
      (old : Pod) (changed : Bool) (ref : Option OwnerReference)
      → P (old_controller cache old changed ref)
  P-old old changed none = P-nil
  P-old old false (some ref) = P-nil
  P-old old true (some ref) =
      elim (resolve_controller_ref cache old.namespace ref)
        as (λ o. P (elim o [ none ↦ [] | some n ↦ enqueue_nodeset_after n (pos 0) ])) [
          | none ↦ P-nil
          | some n ↦ P-enqueue n (pos 0)
        ]

  P-new :
      (cur old : Pod) (changed : Bool) (ref : Option OwnerReference)
      → P (new_controller cache cur old changed ref)
  P-new cur old changed none = P-if changed _ [] (P-enqueue_all (get_pod_nodesets cache cur)) P-nil
  P-new cur old changed (some ref) =
      elim (resolve_controller_ref cache cur.namespace ref)
        as (λ o. P (elim o [
          | none ↦ []
          | some n ↦ enqueue_nodeset_after n (pos 0) ++ available_later cache cur old n
        ])) [
          | none ↦ P-nil
          | some n ↦
              P-append (enqueue_nodeset_after n (pos 0)) (available_later cache cur old n)
                (P-enqueue n (pos 0)) (P-if _ _ [] (P-enqueue n _) P-nil)
        ]

  pub P-update : (cur old : Pod) → P (update_pod cache cur old)
  unfolding update_pod
  P-update cur old =
      let label_changed = not (labels_eq cur.labels old.labels) in
      let cur_ref = get_controller_of cur.owner_references in
      let old_ref = get_controller_of old.owner_references in
      let ref_changed = not (controllers_eq cur_ref old_ref) in
      P-if (str_eq cur.resource_version old.resource_version) [] _ P-nil (
        P-if (is_set cur.deletion_timestamp) _ _
          (P-append (delete_pod cache cur) _ (P-delete cur)
            (P-if label_changed (delete_pod cache old) [] (P-delete old) P-nil))
          (P-append (old_controller cache old ref_changed old_ref) _ (P-old old ref_changed old_ref)
            (P-new cur old (label_changed || ref_changed) cur_ref)))
