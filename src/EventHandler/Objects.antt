-- ===== src/EventHandler/Objects.antt =====
-- What an event carries, and which handler it comes to
-- (upstream/slurm-operator/internal/controller/nodeset/nodeset_eventhandler.go).
use slinky_on_openshift.Prelude.{Option, none, some, List, []}
use slinky_on_openshift.Kube.{Pod}
use slinky_on_openshift.EventHandler.{Call, Cache, create_pod, update_pod, delete_pod}

-- the object of an event: a pod, the marker of a deletion that was missed, with the last object that
-- was known, or anything else
pub data Object : Type 0 where
  a_pod : Pod → Object
  tombstone : Object → Object
  another_type : Object

-- `obj.(*corev1.Pod)`
abbrev pub as_pod : Object → Option Pod
as_pod (a_pod pod) = some pod
as_pod (tombstone object) = none
as_pod another_type = none

-- the pod of a deletion
abbrev pub deleted_pod : Object → Option Pod
deleted_pod (a_pod pod) = some pod
deleted_pod (tombstone object) = as_pod object
deleted_pod another_type = none

module _ (cache : Cache) where
  unfoldable pub on_create : Object → List Call
  on_create object = elim (as_pod object) [ none ↦ [] | some pod ↦ create_pod cache pod ]

  unfoldable pub on_update : (cur old : Object) → List Call
  on_update cur old = elim (as_pod cur) [
    | none ↦ []
    | some cur_pod ↦ elim (as_pod old) [
      | none ↦ []
      | some old_pod ↦ update_pod cache cur_pod old_pod
    ]
  ]

  unfoldable pub on_delete : Object → List Call
  on_delete object = elim (deleted_pod object) [ none ↦ [] | some pod ↦ delete_pod cache pod ]
