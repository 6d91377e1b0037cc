-- ===== src/EventHandler/Wakes.antt =====
-- Which NodeSets an event wakes
-- (upstream/slurm-operator/internal/controller/nodeset/nodeset_eventhandler.go).
use slinky_on_openshift.Prelude.{
  ◌≡◌, refl, sym, eq_iff, ◌⊎◌, inl, inr, true, false, Bool-cases, Option-cases, none, some, List,
  [], ◌∷◌, ◌++◌, String, arith, str_eq, if◌then◌else◌,
}
use slinky_on_openshift.Kube.{OwnerReference, Pod, NodeSet}
use slinky_on_openshift.Utils.Pods.{key_func}
use slinky_on_openshift.Naming.{is_pod_from_nodeset}
use slinky_on_openshift.HistoryControl.{get_controller_of}
use slinky_on_openshift.SlurmControl.Nodes.{Node}
use slinky_on_openshift.SlurmControl.Status.{Json, PodInfo}
use slinky_on_openshift.EventHandler.Updates.{P-update}
use slinky_on_openshift.EventHandler.Objects.{
  Object, a_pod, tombstone, another_type, as_pod, deleted_pod, on_create, on_update, on_delete,
}
use slinky_on_openshift.Prelude.{Option}
use slinky_on_openshift.EventHandler.{
  created, Call, creation_observed, deletion_observed, add_after, Cache, controllers_eq, is_set,
  nodeset_key, pod_key, enqueue_nodeset, enqueue_all, resolve_controller_ref, controller_nodeset,
  is_selecting, selecting, by_name, available_later, get_pod_nodesets, delete_pod, create_pod,
  update_pod, generic, node_updated, states_eq,
}

-- the queue gets a request for the key
abbrev pub Adds : String → List Call → Type 0
Adds key [] = ⊥
Adds key (add_after request d ∷ calls) = (request ≡ key) ⊎ Adds key calls
Adds key (creation_observed n ∷ calls) = Adds key calls
Adds key (deletion_observed n p ∷ calls) = Adds key calls

-- behind each expectation that is lowered, its NodeSet is queued
abbrev pub Woken : List Call → Type 0
Woken [] = Unit {0}
Woken (add_after request d ∷ calls) = Woken calls
Woken (creation_observed key ∷ calls) = Adds key calls × Woken calls
Woken (deletion_observed key p ∷ calls) = Adds key calls × Woken calls

Adds-append_left : (key : String) (a b : List Call) → Adds key a → Adds key (a ++ b)
Adds-append_left key [] b h = elim h [ ]
Adds-append_left key (add_after r d ∷ a) b (inl e) = inl e
Adds-append_left key (add_after r d ∷ a) b (inr h) = inr (Adds-append_left key a b h)
Adds-append_left key (creation_observed n ∷ a) b h = Adds-append_left key a b h
Adds-append_left key (deletion_observed n p ∷ a) b h = Adds-append_left key a b h

Adds-append_right : (key : String) (a b : List Call) → Adds key b → Adds key (a ++ b)
Adds-append_right key [] b h = h
Adds-append_right key (add_after r d ∷ a) b h = inr (Adds-append_right key a b h)
Adds-append_right key (creation_observed n ∷ a) b h = Adds-append_right key a b h
Adds-append_right key (deletion_observed n p ∷ a) b h = Adds-append_right key a b h

Woken-append : (a b : List Call) → Woken a → Woken b → Woken (a ++ b)
Woken-append [] b ha hb = hb
Woken-append (add_after r d ∷ a) b ha hb = Woken-append a b ha hb
Woken-append (creation_observed n ∷ a) b ha hb =
    (Adds-append_left n a b ha.0, Woken-append a b ha.1 hb)
Woken-append (deletion_observed n p ∷ a) b ha hb =
    (Adds-append_left n a b ha.0, Woken-append a b ha.1 hb)

Woken-enqueue_all : (nodesets : List NodeSet) → Woken (enqueue_all nodesets)
Woken-enqueue_all [] = tt
Woken-enqueue_all (n ∷ ns) = Woken-enqueue_all ns

-- what the operator writes to the comment of a pod's node
abbrev pub info_of : Pod → PodInfo
info_of pod = record { namespace = pod.namespace; pod_name = pod.name }

module _ (cache : Cache) where
  Woken-delete : (pod : Pod) → Woken (delete_pod cache pod)
  unfolding delete_pod
  Woken-delete pod = elim (Option-cases (controller_nodeset cache pod)) [
    | inl e ↦ rw (e, delete_pod) tt
    | inr (nodeset, e) ↦ rw (e, delete_pod) (inl refl, tt)
  ]

  Woken-create : (pod : Pod) → Woken (create_pod cache pod)
  unfolding create_pod
  Woken-create pod =
      elim (is_set pod.deletion_timestamp)
        as (λ b. Woken (if b then delete_pod cache pod else created cache pod)) [
          | true ↦ Woken-delete pod
          | false ↦ elim (Option-cases (get_controller_of pod.owner_references)) [
            | inl e ↦ rw (e, created) (Woken-enqueue_all (get_pod_nodesets cache pod))
            | inr (ref, e) ↦ elim (Option-cases (resolve_controller_ref cache pod.namespace ref)) [
              | inl e' ↦ rw (e, e', created) tt
              | inr (nodeset, e') ↦ rw (e, e', created) (inl refl, tt)
            ]
          ]
        ]

  Woken-update : (pod old : Pod) → Woken (update_pod cache pod old)
  Woken-update = P-update cache Woken tt Woken-append (λ n d. tt) Woken-delete

  Woken-of :
      (f : Pod → List Call)
      → ((pod : Pod) → Woken (f pod))
      → (o : Option Pod) → Woken (elim o [ none ↦ [] | some pod ↦ f pod ])
  Woken-of f h none = tt
  Woken-of f h (some pod) = h pod

  Woken-on_update : (object old : Object) → Woken (on_update cache object old)
  unfolding on_update
  Woken-on_update (a_pod pod) old = Woken-of (update_pod cache pod) (Woken-update pod) (as_pod old)
  Woken-on_update (tombstone object) old = tt
  Woken-on_update another_type old = tt

  -- Whenever an event lowers an expectation of a NodeSet, it puts the NodeSet in the queue behind it,
  -- whatever the objects are that the event carries.
  pub events-Woken :
      (object old : Object)
      → Woken (on_create cache object)
        × Woken (on_update cache object old)
        × Woken (on_delete cache object)
  unfolding on_create on_delete
  events-Woken object old = (
    Woken-of (create_pod cache) Woken-create (as_pod object),
    Woken-on_update object old,
    Woken-of (delete_pod cache) Woken-delete (deleted_pod object),
  )

  resolve-uid :
      (namespace : String) (ref : OwnerReference) (n : NodeSet)
      → resolve_controller_ref cache namespace ref ≡ some n
      → n.uid ≡ ref.uid
  unfolding resolve_controller_ref
  resolve-uid namespace ref n h =
      elim (Option-cases (cache.get_nodeset (key_func namespace ref.name))) [
        | inl e ↦ ground (arith, e, h)
        | inr (m, e) ↦ ground (arith, e, h, eq_iff m.uid ref.uid)
      ]

  controllers_eq-false :
      (a b : OwnerReference) → str_eq b.uid a.uid ≡ false → controllers_eq (some a) (some b) ≡ false
  unfolding controllers_eq
  controllers_eq-false a b h = ground (arith, eq_iff a.uid b.uid, eq_iff b.uid a.uid, h)

  -- An update of a pod that is not terminating, to a new version in which another NodeSet controls
  -- it, puts the NodeSet that controlled it and the one that does in the queue.
  pub update_pod-wakes_both :
      (cur old : Pod) (old_ref cur_ref : OwnerReference) (before after : NodeSet)
      → str_eq cur.resource_version old.resource_version ≡ false
      → cur.deletion_timestamp ≡ none
      → get_controller_of old.owner_references ≡ some old_ref
      → get_controller_of cur.owner_references ≡ some cur_ref
      → resolve_controller_ref cache old.namespace old_ref ≡ some before
      → resolve_controller_ref cache cur.namespace cur_ref ≡ some after
      → str_eq before.uid after.uid ≡ false
      → Adds (nodeset_key before) (update_pod cache cur old)
        × Adds (nodeset_key after) (update_pod cache cur old)
  unfolding update_pod
  update_pod-wakes_both cur old old_ref cur_ref before after version alive e1 e2 e3 e4 other =
      let changed : controllers_eq (some cur_ref) (some old_ref) ≡ false =
        controllers_eq-false cur_ref old_ref (
          rw
            (
              sym (resolve-uid old.namespace old_ref before e3),
              sym (resolve-uid cur.namespace cur_ref after e4),
            )
            other) in
      let calls : update_pod cache cur old
          ≡ enqueue_nodeset before ++ enqueue_nodeset after ++ available_later cache cur old after =
        ground (arith, version, alive, e1, e2, changed, e3, e4) in
      rw calls (inl refl, inr (inl refl))

  Adds-enqueue_all_head :
      (n : NodeSet) (ns : List NodeSet) → Adds (nodeset_key n) (enqueue_all (n ∷ ns))
  Adds-enqueue_all_head n ns = inl refl

  -- a NodeSet of a list that selects the pod and has the prefix of its name
  abbrev pub Among : Pod → NodeSet → List NodeSet → Type 0
  Among pod n [] = ⊥
  Among pod n (m ∷ ms) = (n ≡ m) ⊎ Among pod n ms

  Adds-selected :
      (pod : Pod) (n : NodeSet) (ns : List NodeSet)
      → is_selecting cache pod n ≡ true
      → is_pod_from_nodeset n pod ≡ true
      → Among pod n ns
      → Adds (nodeset_key n) (enqueue_all (by_name pod (selecting cache pod ns)))
  Adds-selected pod n [] h k m = elim m [ ]
  Adds-selected pod n (x ∷ xs) h k (inl e) = rw (← e) (rw (h, k) (inl refl))
  Adds-selected pod n (x ∷ xs) h k (inr m) =
      let rest = Adds-selected pod n xs h k m in
      elim (Bool-cases (is_selecting cache pod x)) [
        | inr other ↦ rw other rest
        | inl picked ↦ elim (Bool-cases (is_pod_from_nodeset x pod)) [
          | inr other ↦ rw (picked, other) rest
          | inl named ↦ rw (picked, named) (inr rest)
        ]
      ]

  -- With a JSON reader that reads the mark of the pod back: a change of the states of a Slurm node whose
  -- comment is the mark of a pod in the cache wakes each NodeSet of the pod's namespace that selects
  -- the pod and whose name the pod's starts with.
  pub node_updated-wakes :
      (json : Json) (old new : Node) (pod : Pod) (n : NodeSet) (ns : List NodeSet)
      → json.parse (json.to_string (info_of pod)) ≡ info_of pod
      → new.comment ≡ some (json.to_string (info_of pod))
      → states_eq new.state old.state ≡ false
      → cache.get_pod (pod_key pod) ≡ some pod
      → cache.list_nodesets pod.namespace ≡ some ns
      → Among pod n ns
      → is_selecting cache pod n ≡ true
      → is_pod_from_nodeset n pod ≡ true
      → (i : PodInfo) × (node_updated json (some old) (some new) ≡ some i)
        × Adds (nodeset_key n) (generic cache i)
  unfolding generic node_updated get_pod_nodesets
  node_updated-wakes json old new pod n ns reads comment changed there listed among selects named =
      (
        info_of pod,
        rw (changed, comment, reads) refl,
        rw (there, generic, listed, get_pod_nodesets) (Adds-selected pod n ns selects named among),
      )
