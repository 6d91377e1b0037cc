-- ===== src/EventHandler/Owner.antt =====
-- Whose expectations an event lowers
-- (upstream/slurm-operator/internal/controller/nodeset/nodeset_eventhandler.go).
use slinky_on_openshift.Prelude.{
  ℕ, ◌+◌, ◌≡◌, ◌⊎◌, refl, sym, ap, ◌∙◌, inl, inr, Option-cases, Bool-cases, eq_iff, Bool, false,
  none, some, List, [], ◌∷◌, ◌++◌, String, arith, str_eq, if◌then◌else◌,
}
use text.Mathlib.TextPositions.{eq_refl}
use slinky_on_openshift.Utils.Pods.{key_func}
use slinky_on_openshift.HistoryControl.{get_controller_of}
use slinky_on_openshift.Kube.{Pod, NodeSet, OwnerReference}
use slinky_on_openshift.EventHandler.Updates.{P-update}
use slinky_on_openshift.EventHandler.Objects.{
  Object, a_pod, tombstone, another_type, as_pod, deleted_pod, on_create, on_update, on_delete,
}
use slinky_on_openshift.Prelude.{Option}
use slinky_on_openshift.EventHandler.{
  Call, creation_observed, deletion_observed, add_after, Cache, is_set, nodeset_key, enqueue_all,
  controller_nodeset, resolve_controller_ref, get_pod_nodesets, delete_pod, create_pod, update_pod,
}

-- how often the expected creations of a NodeSet are lowered
abbrev pub creations : String → List Call → ℕ
creations key [] = 0
creations key (creation_observed n ∷ calls) = (if str_eq n key then 1 else 0) + creations key calls
creations key (deletion_observed n p ∷ calls) = creations key calls
creations key (add_after r d ∷ calls) = creations key calls

creations-append :
    (key : String) (a b : List Call) → creations key (a ++ b) ≡ creations key a + creations key b
creations-append key [] b = omega arith
creations-append key (creation_observed n ∷ a) b = omega (arith, creations-append key a b)
creations-append key (deletion_observed n p ∷ a) b = creations-append key a b
creations-append key (add_after r d ∷ a) b = creations-append key a b

creations-enqueue_all : (key : String) (ns : List NodeSet) → creations key (enqueue_all ns) ≡ 0
creations-enqueue_all key [] = refl
creations-enqueue_all key (n ∷ ns) = creations-enqueue_all key ns

module _ (cache : Cache) (key : String) where
  -- the NodeSet with the key controls the pod
  abbrev pub is_controlled : Pod → Bool
  is_controlled pod = elim (controller_nodeset cache pod) [
    | none ↦ false
    | some nodeset ↦ str_eq (nodeset_key nodeset) key
  ]

  creations-delete : (pod : Pod) → creations key (delete_pod cache pod) ≡ 0
  unfolding delete_pod
  creations-delete pod = ground arith

  creations-create :
      (pod : Pod)
      → creations key (create_pod cache pod)
        ≡ (if is_set pod.deletion_timestamp then 0 else if is_controlled pod then 1 else 0)
  unfolding create_pod
  creations-create pod =
      ground (arith, creations-delete pod, creations-enqueue_all key (get_pod_nodesets cache pod))

  creations-update : (cur old : Pod) → creations key (update_pod cache cur old) ≡ 0
  creations-update =
      P-update cache (λ calls. creations key calls ≡ 0) refl
        (λ a b ha hb. omega (arith, creations-append key a b)) (λ n d. refl) creations-delete

  -- what the creation of an object lowers
  abbrev pub lowered_by : Option Pod → ℕ
  lowered_by none = 0
  lowered_by (some pod) =
      if is_set pod.deletion_timestamp then 0 else if is_controlled pod then 1 else 0

  creations-on_create :
      (o : Option Pod)
      → creations key (elim o [ none ↦ [] | some pod ↦ create_pod cache pod ]) ≡ lowered_by o
  creations-on_create none = refl
  creations-on_create (some pod) = creations-create pod

  creations-none :
      (f : Pod → List Call)
      → ((pod : Pod) → creations key (f pod) ≡ 0)
      → (o : Option Pod) → creations key (elim o [ none ↦ [] | some pod ↦ f pod ]) ≡ 0
  creations-none f h none = refl
  creations-none f h (some pod) = h pod

  creations-on_update : (object old : Object) → creations key (on_update cache object old) ≡ 0
  unfolding on_update
  creations-on_update (a_pod pod) old =
      creations-none (update_pod cache pod) (creations-update pod) (as_pod old)
  creations-on_update (tombstone object) old = refl
  creations-on_update another_type old = refl

  -- The NodeSet is in the cache under the name that the pod's controller has in the pod's namespace,
  -- and the controller is of its kind and version and has its UID.
  abbrev pub Controls : NodeSet → Pod → Type 0
  Controls nodeset pod =
      (ref : OwnerReference) × (get_controller_of pod.owner_references ≡ some ref)
      × (ref.kind ≡ "NodeSet")
      × (ref.api_version ≡ "slinky.slurm.net/v1alpha1")
      × (ref.uid ≡ nodeset.uid)
      × (cache.get_nodeset (key_func pod.namespace ref.name) ≡ some nodeset)

  -- The object is a pod that is not terminating, and a NodeSet with the key controls it.
  abbrev pub IsOwned : Object → Type 0
  IsOwned object =
      (pod : Pod) × (as_pod object ≡ some pod)
      × (is_set pod.deletion_timestamp ≡ false)
      × ((nodeset : NodeSet) × (nodeset_key nodeset ≡ key) × Controls nodeset pod)

  resolve-Controls :
      (namespace : String) (ref : OwnerReference) (nodeset : NodeSet)
      → resolve_controller_ref cache namespace ref ≡ some nodeset
      → (ref.kind ≡ "NodeSet")
        × (ref.api_version ≡ "slinky.slurm.net/v1alpha1")
        × (ref.uid ≡ nodeset.uid)
        × (cache.get_nodeset (key_func namespace ref.name) ≡ some nodeset)
  unfolding resolve_controller_ref
  resolve-Controls namespace ref nodeset h =
      let same_kind = eq_iff ref.kind "NodeSet" in
      let same_version = eq_iff ref.api_version "slinky.slurm.net/v1alpha1" in
      elim (Option-cases (cache.get_nodeset (key_func namespace ref.name))) [
        | inl e ↦ absurd (ground (arith, h, e))
        | inr (found, e) ↦
            let same_uid = eq_iff found.uid ref.uid in
            elim (Bool-cases (str_eq found.uid ref.uid)) [
              | inl y ↦
                  let it : found ≡ nodeset = ground (arith, h, e, y) in
                  let uid : ref.uid ≡ nodeset.uid = sym (same_uid.0 y) ∙ ap (λ n. n.uid) it in
                  (
                    ground (arith, h, same_kind),
                    ground (arith, h, same_version),
                    uid,
                    e ∙ ap some it,
                  )
              | inr n ↦ absurd (ground (arith, h, e, n))
            ]
      ]

  controller-of_Controls :
      (pod : Pod) (nodeset : NodeSet)
      → Controls nodeset pod
      → controller_nodeset cache pod ≡ some nodeset
  unfolding resolve_controller_ref
  controller-of_Controls pod nodeset (ref, owned, kind, version, uid, found) =
      rw (controller_nodeset, owned)
        (rw (kind, version) (rw (found, sym uid) (rw (eq_refl ref.uid) refl)))

  Controls-of_controller :
      (pod : Pod) (nodeset : NodeSet)
      → controller_nodeset cache pod ≡ some nodeset
      → Controls nodeset pod
  Controls-of_controller pod nodeset h =
      elim (Option-cases (get_controller_of pod.owner_references)) [
        | inl e ↦ absurd (ground (arith, h, e))
        | inr (ref, e) ↦
            let (kind, version, uid, found) =
              resolve-Controls pod.namespace ref nodeset (ground (arith, h, e)) in
            (ref, e, kind, version, uid, found)
      ]

  lowered_by-of_IsOwned : (object : Object) → IsOwned object → lowered_by (as_pod object) ≡ 1
  lowered_by-of_IsOwned object (pod, e, alive, (nodeset, k, controls)) =
      let c = controller-of_Controls pod nodeset controls in
      let same = (eq_iff (nodeset_key nodeset) key).1 k in ground (arith, e, alive, c, same)

  -- either by one or by none
  lowered_by-cases :
      (object : Object)
      → ((lowered_by (as_pod object) ≡ 1) × IsOwned object) ⊎ (lowered_by (as_pod object) ≡ 0)
  lowered_by-cases object = elim (Option-cases (as_pod object)) [
    | inl e ↦ inr (rw e refl)
    | inr (pod, e) ↦ elim (Bool-cases (is_set pod.deletion_timestamp)) [
      | inl gone ↦ inr (ground (arith, e, gone))
      | inr alive ↦ elim (Option-cases (controller_nodeset cache pod)) [
        | inl orphan ↦ inr (ground (arith, e, alive, orphan))
        | inr (nodeset, c) ↦ elim (Bool-cases (str_eq (nodeset_key nodeset) key)) [
          | inl same ↦
              let owned : IsOwned object = (
                pod,
                e,
                alive,
                (
                  nodeset,
                  (eq_iff (nodeset_key nodeset) key).0 same,
                  Controls-of_controller pod nodeset c,
                ),
              ) in
              inl (lowered_by-of_IsOwned object owned, owned)
          | inr other ↦ inr (ground (arith, e, alive, c, other))
        ]
      ]
    ]
  ]

  -- When the creation of an object is seen, the expected creations of a NodeSet's key are lowered
  -- exactly if the object is a pod that is not terminating and a NodeSet in the cache with the key
  -- controls it, by its kind, version, name and UID, and then by one. Neither an update nor a delete
  -- lowers any.
  pub creations_lem :
      (object old : Object)
      → (((creations key (on_create cache object) ≡ 1) × IsOwned object)
          ⊎ ((creations key (on_create cache object) ≡ 0) × (¬ IsOwned object)))
        × (creations key (on_update cache object old) ≡ 0)
        × (creations key (on_delete cache object) ≡ 0)
  unfolding on_create on_delete
  creations_lem object old =
      let count = creations-on_create (as_pod object) in
      (
        elim (lowered_by-cases object) [
          | inl (one, owned) ↦ inl (count ∙ one, owned)
          | inr nothing ↦
              inr (
                count ∙ nothing,
                λ owned. omega (arith, nothing, lowered_by-of_IsOwned object owned),
              )
        ],
        creations-on_update object old,
        creations-none (delete_pod cache) creations-delete (deleted_pod object),
      )
