-- ===== src/NodeSetSync/Status.antt =====
-- upstream/slurm-operator/internal/controller/nodeset/nodeset_sync_status.go. The `int32` counts are
-- at most the number of pods in the list, so they stand as numbers.
pub mod Counts
use slinky_on_openshift.Prelude.{
  ℕ, suc, ◌+◌, Bool, true, false, not, ◌&&◌, Option, none, some, List, [], ◌∷◌, ◌++◌, String, ◌==◌,
  str_eq, if◌then◌else◌,
}
use slinky_on_openshift.Prelude.Int.{ℤ, pos, negsuc, ◌+ℤ◌, scale, ltb_ℤ}
use slinky_on_openshift.Exec.{
  Error, not_found, Result, ok, err, panic, M, pure, raise, ◌>>=◌, ◌>>◌, new_aggregate,
}
use slinky_on_openshift.Kube.{Pod, NodeSet, NodeSetStatus, Library}
use slinky_on_openshift.Utils.Math.{clamp}
use slinky_on_openshift.Utils.Pods.{
  key_func, is_created, is_running_and_ready, is_terminating, is_healthy, get_revision,
}
use slinky_on_openshift.SlurmControl.Status.{SlurmNodeStatus}
use slinky_on_openshift.NodeSetSync.Reconciler.{Reconciler, Revision, push_duration, for_pods}
use slinky_on_openshift.NodeSetSync.Update.{minus}
use slinky_on_openshift.NodeSetSync.ScaleIn.{is_not_found}

pub record ReplicaStatus : Type 0 where
  pub replicas : ℕ
  pub ready : ℕ
  pub available : ℕ
  pub unavailable : ℤ
  pub current : ℕ
  pub updated : ℕ

abbrev pub no_replicas : ReplicaStatus
no_replicas = record {
  replicas = 0;
  ready = 0;
  available = 0;
  unavailable = pos 0;
  current = 0;
  updated = 0;
}

abbrev one_if : Bool → ℕ
one_if true = 1
one_if false = 0

module _ (k : Library) (nodeset : NodeSet) (now : ℤ) (current_hash update_hash : String) where
  -- one round of the loop
  unfoldable pub count_pod : Pod → ReplicaStatus → ReplicaStatus
  unfolding is_created is_running_and_ready is_terminating get_revision
  count_pod pod status =
      let ready = is_running_and_ready k pod in
      let live = is_created pod && not (is_terminating pod) in
      let pod_hash = get_revision pod.labels in
      record status {
        replicas = status.replicas + one_if (is_created pod);
        ready = status.ready + one_if ready;
        available =
            status.available
            + one_if (ready && k.is_pod_available pod nodeset.min_ready_seconds now);
        current = status.current + one_if (live && str_eq pod_hash current_hash);
        updated = status.updated + one_if (live && str_eq pod_hash update_hash);
      }

  unfoldable pub count_pods : List Pod → ReplicaStatus → ReplicaStatus
  unfolding count_pod
  count_pods [] status = status
  count_pods (pod ∷ pods) status = count_pods pods (count_pod pod status)

  unfoldable pub calculate_replica_status : List Pod → ReplicaStatus
  unfolding count_pods
  calculate_replica_status pods =
      let status = count_pods pods no_replicas in
      record status {
        unavailable =
            clamp (minus (pos status.replicas) (pos status.available)) (pos 0)
              (pos status.replicas);
      }

unfoldable pub new_status :
    NodeSet → ReplicaStatus → SlurmNodeStatus → ℤ → String → String → NodeSetStatus
new_status nodeset replicas slurm collision_count hash selector = record {
  replicas = pos replicas.replicas;
  updated_replicas = pos replicas.updated;
  ready_replicas = pos replicas.ready;
  available_replicas = pos replicas.available;
  unavailable_replicas = replicas.unavailable;
  slurm_idle = pos slurm.idle;
  slurm_allocated = pos (slurm.allocated + slurm.mixed);
  slurm_down = pos slurm.down;
  slurm_drain = pos slurm.drain;
  observed_generation = nodeset.generation;
  node_set_hash = hash;
  collision_count = some collision_count;
  selector = selector;
  conditions = [] ++ nodeset.status.conditions;
}

-- When the NodeSet is queued again after a status update, if at all: after `MinReadySeconds` and a
-- second, or after ten seconds.
unfoldable pub requeue_after : NodeSet → ReplicaStatus → SlurmNodeStatus → Option ℤ
requeue_after nodeset replicas slurm =
    if not (ltb_ℤ nodeset.min_ready_seconds (pos 0)) && not (replicas.ready == replicas.available)
    then some (scale nodeset.min_ready_seconds 1000000000 +ℤ pos 1000000000)
    else if not (slurm.total == replicas.replicas)
    then some (pos 10000000000)
    else none

module _ {S : Type 0} (r : Reconciler S) where
  unfoldable pub update_nodeset_status : NodeSet → NodeSetStatus → M S (Unit {0})
  update_nodeset_status nodeset status = r.kube.retry_on_conflict λ s.
      let (res, s1) = r.kube.get_nodeset (key_func nodeset.namespace nodeset.name) s in
      elim res [
        | ok to_update ↦ r.kube.update_nodeset_status (record to_update { status = status }) s1
        | err e ↦ ((if is_not_found e then ok tt else err e), s1)
        | panic ↦ (panic, s1)
      ]

  abbrev requeue : String → Option ℤ → S → S
  requeue key none s = s
  requeue key (some d) s = push_duration r key d s

  -- The comparison with the old status is between a struct and a pointer to one, which
  -- `DeepEqual` never finds equal, so no update is skipped.
  unfoldable pub sync_nodeset_status :
      NodeSet → List Pod → Revision → Revision → ℤ → String → M S (Unit {0})
  unfolding calculate_replica_status new_status requeue_after update_nodeset_status
  sync_nodeset_status nodeset pods current_revision update_revision collision_count hash s =
      elim (r.kube.selector_text nodeset.selector) [
        | panic ↦ (panic, s)
        | err e ↦ (err e, s)
        | ok selector ↦
            let replicas =
              calculate_replica_status r.library nodeset (r.kube.now s)
                (get_revision current_revision.labels) (get_revision update_revision.labels) pods in
            (r.slurm_control.calculate_node_status nodeset pods >>= λ slurm.
            update_nodeset_status nodeset
              (new_status nodeset replicas slurm collision_count hash selector)
            >> (λ s1. (
              ok tt,
              requeue (key_func nodeset.namespace nodeset.name)
                  (requeue_after nodeset replicas slurm) s1,
            )))
              s
      ]

  unfoldable pub sync_slurm_status_pod : NodeSet → Pod → M S (Unit {0})
  unfolding is_healthy
  sync_slurm_status_pod nodeset pod =
      if not (is_healthy r.library pod)
      then pure tt
      else r.slurm_control.update_node_with_pod_info nodeset pod

  unfoldable pub sync_slurm_status : NodeSet → List Pod → M S (Unit {0})
  unfolding for_pods sync_slurm_status_pod
  sync_slurm_status nodeset pods = for_pods r pods (sync_slurm_status_pod nodeset)

  abbrev aggregated : Option Error → Result (Unit {0})
  aggregated none = ok tt
  aggregated (some e) = err e

  -- `if err != nil { errors = append(errors, err) }`
  abbrev pub with_error : List Error → Result (Unit {0}) → Option (List Error)
  with_error errors (ok _) = some errors
  with_error errors (err e) = some (errors ++ (e ∷ []))
  with_error errors panic = none

  -- A failure of the first half does not stop the second.
  unfoldable pub sync_status :
      NodeSet → List Pod → Revision → Revision → ℤ → String → List Error → M S (Unit {0})
  unfolding sync_slurm_status sync_nodeset_status
  sync_status nodeset pods current_revision update_revision collision_count hash errors s =
      let (r1, s1) = sync_slurm_status nodeset pods s in
      elim (with_error errors r1) [
        | none ↦ (panic, s1)
        | some errors1 ↦
            let (r2, s2) =
              sync_nodeset_status nodeset pods current_revision update_revision collision_count hash
                s1 in
            elim (with_error errors1 r2) [
              | none ↦ (panic, s2)
              | some errors2 ↦ (aggregated (new_aggregate errors2), s2)
            ]
      ]
