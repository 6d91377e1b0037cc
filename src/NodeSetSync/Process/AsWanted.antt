-- ===== src/NodeSetSync/Process/AsWanted.antt =====
-- A NodeSet that is as wanted is left alone
-- (upstream/slurm-operator/internal/controller/nodeset/nodeset_sync.go).
use mathlib.Core.Logic.Or
use mathlib.Core.List.{Mem, Perm}
use mathlib.Core.List.Perm
use slinky_on_openshift.Prelude.{◌≡◌, true, List, String, str_eq}
use slinky_on_openshift.Prelude.Dict.{Dict}
use slinky_on_openshift.Kube.{Pod}
use slinky_on_openshift.Utils.Pods.{get_revision}
use slinky_on_openshift.NodeSetSync.Reconciler.{Reconciler}
use slinky_on_openshift.NodeSetSync.Process.Settled.{Settled}

-- each pod of a list has the revision
abbrev pub HasRevision : String → List Pod → Type 0
HasRevision hash pods = (pod : Pod) → Mem pod pods → str_eq (get_revision pod.labels) hash ≡ true
