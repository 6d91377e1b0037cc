-- ===== src/EventHandler.antt =====
-- The events of pods and of Slurm nodes, and the NodeSets that they wake
-- (upstream/slurm-operator/internal/controller/nodeset/nodeset_eventhandler.go). The handlers read a
-- cache, which they do not change, and call the expectations and the work queue: what they do is the
-- list of these calls, in order.
pub mod Wakes
pub mod Owner
pub mod Updates
pub mod Objects
use slinky_on_openshift.Prelude.{
  ℕ, Bool, true, false, not, ◌&&◌, ◌||◌, Option, none, some, List, [], ◌∷◌, ◌++◌, String, str_eq,
  if◌then◌else◌,
}
use slinky_on_openshift.Prelude.Dict.{Dict, lookup}
use slinky_on_openshift.Prelude.Int.{ℤ, pos, ltb_ℤ, ◌+ℤ◌, scale}
use slinky_on_openshift.Exec.{Result, ok, err, panic}
use slinky_on_openshift.Kube.{OwnerReference, Pod, NodeSet, Selector, Library}
use slinky_on_openshift.Utils.Pods.{key_func}
use slinky_on_openshift.NodeSetSync.Reconciler.{Expectations}
use slinky_on_openshift.Naming.{is_pod_from_nodeset}
use slinky_on_openshift.HistoryControl.{get_controller_of}
use slinky_on_openshift.SlurmControl.Nodes.{Node, NodeState, state_eq}
use slinky_on_openshift.SlurmControl.Status.{Json, PodInfo}

-- a call of the expectations, by the key of the NodeSet and that of the pod, or of the queue
pub data Call : Type 0 where
  creation_observed : (nodeset_key : String) → Call
  deletion_observed : (nodeset_key pod_key : String) → Call
  add_after : (request : String) (duration : ℤ) → Call

-- The reader's cache, and a selector that is neither empty nor an error (`LabelSelectorAsSelector`)
-- with its test on labels.
pub record Cache : Type 0 where
  pub get_nodeset : String → Option NodeSet
  pub list_nodesets : String → Option (List NodeSet)
  pub get_pod : String → Option Pod
  pub selector : Option Selector → Option (Option (Dict String) → Bool)
  pub library : Library

-- the calls in order, each on the expectations or on the queue
unfoldable pub perform :
    {S : Type 0} (expectations : Expectations S) (queue : String → ℤ → S → S) → List Call → S → S
perform expectations queue [] s = s
perform expectations queue (creation_observed key ∷ calls) s =
    perform expectations queue calls (expectations.creation_observed key s)
perform expectations queue (deletion_observed key pod ∷ calls) s =
    perform expectations queue calls (expectations.deletion_observed key pod s)
perform expectations queue (add_after request duration ∷ calls) s =
    perform expectations queue calls (queue request duration s)

-- `reflect.DeepEqual` on the labels, where nil and the empty map differ
abbrev has_entries : Dict String → Dict String → Bool
has_entries [] m = true
has_entries ((key, value) ∷ l) m = elim (lookup key m) [
  | none ↦ false
  | some v ↦ str_eq value v && has_entries l m
]

unfoldable pub labels_eq : Option (Dict String) → Option (Dict String) → Bool
labels_eq none none = true
labels_eq (some l) (some m) = has_entries l m && has_entries m l
labels_eq _ _ = false

abbrev bool_eq : Option Bool → Option Bool → Bool
bool_eq none none = true
bool_eq (some true) (some true) = true
bool_eq (some false) (some false) = true
bool_eq _ _ = false

-- `reflect.DeepEqual` on two controllers
unfoldable pub controllers_eq : Option OwnerReference → Option OwnerReference → Bool
controllers_eq none none = true
controllers_eq (some a) (some b) =
    str_eq a.api_version b.api_version
    && str_eq a.kind b.kind
    && str_eq a.name b.name
    && str_eq a.uid b.uid
    && bool_eq a.controller b.controller
    && bool_eq a.block_owner_deletion b.block_owner_deletion
controllers_eq _ _ = false

abbrev pub is_set : Option ℤ → Bool
is_set none = false
is_set (some t) = true

-- `kubecontroller.KeyFunc` and `kubecontroller.PodKey`
abbrev pub nodeset_key : NodeSet → String
nodeset_key nodeset = key_func nodeset.namespace nodeset.name

abbrev pub pod_key : Pod → String
pod_key pod = key_func pod.namespace pod.name

abbrev pub enqueue_nodeset_after : NodeSet → ℤ → List Call
enqueue_nodeset_after nodeset duration = add_after (nodeset_key nodeset) duration ∷ []

abbrev pub enqueue_nodeset : NodeSet → List Call
enqueue_nodeset nodeset = enqueue_nodeset_after nodeset (pos 0)

abbrev pub enqueue_all : List NodeSet → List Call
enqueue_all [] = []
enqueue_all (nodeset ∷ nodesets) = enqueue_nodeset nodeset ++ enqueue_all nodesets

-- a second, in nanoseconds
abbrev second : ℕ
second = 1000000000

abbrev pub by_name : Pod → List NodeSet → List NodeSet
by_name pod [] = []
by_name pod (nodeset ∷ nodesets) =
    let rest = by_name pod nodesets in
    if is_pod_from_nodeset nodeset pod then nodeset ∷ rest else rest

module _ (cache : Cache) where
  unfoldable pub resolve_controller_ref : String → OwnerReference → Option NodeSet
  resolve_controller_ref namespace ref =
      if not (str_eq ref.kind "NodeSet") || not (str_eq ref.api_version "slinky.slurm.net/v1alpha1")
      then none
      else elim (cache.get_nodeset (key_func namespace ref.name)) [
        | none ↦ none
        | some nodeset ↦ if str_eq nodeset.uid ref.uid then some nodeset else none
      ]

  abbrev pub is_selecting : Pod → NodeSet → Bool
  is_selecting pod nodeset = elim (cache.selector nodeset.selector) [
    | none ↦ false
    | some matches ↦ matches pod.labels
  ]

  abbrev pub selecting : Pod → List NodeSet → List NodeSet
  selecting pod [] = []
  selecting pod (nodeset ∷ nodesets) =
      let rest = selecting pod nodesets in if is_selecting pod nodeset then nodeset ∷ rest else rest

  unfoldable pub get_pod_nodesets : Pod → List NodeSet
  get_pod_nodesets pod = elim (cache.list_nodesets pod.namespace) [
    | none ↦ []
    | some nodesets ↦ selecting pod nodesets
  ]

  -- the NodeSet that controls a pod
  abbrev pub controller_nodeset : Pod → Option NodeSet
  controller_nodeset pod = elim (get_controller_of pod.owner_references) [
    | none ↦ none
    | some ref ↦ resolve_controller_ref pod.namespace ref
  ]

  unfoldable pub delete_pod : Pod → List Call
  unfolding resolve_controller_ref get_controller_of
  delete_pod pod = elim (controller_nodeset pod) [
    | none ↦ []
    | some nodeset ↦ deletion_observed (nodeset_key nodeset) (pod_key pod) ∷ enqueue_nodeset nodeset
  ]

  -- for a pod that is not being deleted
  abbrev pub created : Pod → List Call
  created pod = elim (get_controller_of pod.owner_references) [
    | none ↦ enqueue_all (get_pod_nodesets pod)
    | some ref ↦ elim (resolve_controller_ref pod.namespace ref) [
      | none ↦ []
      | some nodeset ↦ creation_observed (nodeset_key nodeset) ∷ enqueue_nodeset nodeset
    ]
  ]

  unfoldable pub create_pod : Pod → List Call
  unfolding delete_pod resolve_controller_ref get_controller_of get_pod_nodesets
  create_pod pod = if is_set pod.deletion_timestamp then delete_pod pod else created pod

  -- from the controllers on, for a pod that is not being deleted
  abbrev pub old_controller : Pod → Bool → Option OwnerReference → List Call
  old_controller old changed none = []
  old_controller old false (some ref) = []
  old_controller old true (some ref) = elim (resolve_controller_ref old.namespace ref) [
    | none ↦ []
    | some nodeset ↦ enqueue_nodeset nodeset
  ]

  abbrev pub available_later : Pod → Pod → NodeSet → List Call
  available_later cur old nodeset =
      if not (cache.library.is_pod_ready old)
        && cache.library.is_pod_ready cur
        && ltb_ℤ (pos 0) nodeset.min_ready_seconds
      then enqueue_nodeset_after nodeset (scale nodeset.min_ready_seconds second +ℤ pos second)
      else []

  abbrev pub new_controller : (cur old : Pod) → Bool → Option OwnerReference → List Call
  new_controller cur old changed (some ref) = elim (resolve_controller_ref cur.namespace ref) [
    | none ↦ []
    | some nodeset ↦ enqueue_nodeset nodeset ++ available_later cur old nodeset
  ]
  new_controller cur old changed none = if changed then enqueue_all (get_pod_nodesets cur) else []

  unfoldable pub update_pod : (cur old : Pod) → List Call
  unfolding delete_pod resolve_controller_ref get_controller_of get_pod_nodesets labels_eq
      controllers_eq
  update_pod cur old =
      let label_changed = not (labels_eq cur.labels old.labels) in
      let cur_ref = get_controller_of cur.owner_references in
      let old_ref = get_controller_of old.owner_references in
      let ref_changed = not (controllers_eq cur_ref old_ref) in
      if str_eq cur.resource_version old.resource_version
      then []
      else if is_set cur.deletion_timestamp
      then delete_pod cur ++ (if label_changed then delete_pod old else [])
      else old_controller old ref_changed old_ref
        ++ new_controller cur old (label_changed || ref_changed) cur_ref

  -- `Generic`, the event of a Slurm node that stands for this pod
  unfoldable pub generic : PodInfo → List Call
  unfolding get_pod_nodesets is_pod_from_nodeset
  generic info = elim (cache.get_pod (key_func info.namespace info.pod_name)) [
    | none ↦ []
    | some pod ↦ enqueue_all (by_name pod (get_pod_nodesets pod))
  ]

-- The functions that `SetEventHandler` gives to the informer of nodes: what each sends, and nothing
-- for an object that is no node.
abbrev pod_info_of : Json → Node → PodInfo
pod_info_of json node = json.parse (elim node.comment [ none ↦ "" | some c ↦ c ])

abbrev pub states_eq : List NodeState → List NodeState → Bool
states_eq [] [] = true
states_eq (s ∷ ss) (t ∷ ts) = state_eq s t && states_eq ss ts
states_eq _ _ = false

unfoldable pub node_added : Json → Option Node → Option PodInfo
node_added json none = none
node_added json (some node) = some (pod_info_of json node)

unfoldable pub node_updated : Json → (old new : Option Node) → Option PodInfo
node_updated json (some old) (some new) =
    if states_eq new.state old.state then none else some (pod_info_of json new)
node_updated json _ _ = none

unfoldable pub node_deleted : Json → Option Node → Option PodInfo
node_deleted json none = none
node_deleted json (some node) = some (pod_info_of json node)
