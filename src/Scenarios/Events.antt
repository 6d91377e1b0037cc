-- ===== src/Scenarios/Events.antt =====
-- The theorems on events, and on what a scale-out expects of them.
use slinky_on_openshift.Prelude.{
  ◌⊎◌, ◌≡◌, refl, inl, suc, true, false, none, some, [], ◌∷◌, if◌then◌else◌, arith, str_eq,
}
use slinky_on_openshift.Utils.Batch.{slow_start_batch}
use slinky_on_openshift.NodeSetSync.Reconciler.{for_pods}
use text.Mathlib.TextPositions.{eq_refl}
use slinky_on_openshift.Prelude.{Bool, String}
use slinky_on_openshift.Prelude.Dict.{lookup, delete, lookup-delete}
use slinky_on_openshift.NodeSetSync.ScaleIn.{scale_in_pod}
use slinky_on_openshift.NodeSetSync.ScaleIn.Awaited.{Awaited, scale_in_pod-Awaited}
use slinky_on_openshift.NodeSetSync.Reconciler.{Reconciler}
use slinky_on_openshift.Utils.Pods.{is_running_and_ready}
use slinky_on_openshift.Scenarios.World.{called, World}
use slinky_on_openshift.Utils.Math.{clamp}
use slinky_on_openshift.Naming.{
  is_pod_from_nodeset, get_persistent_volume_claims, new_nodeset_pod, update_storage, init_identity,
  update_identity,
}
use slinky_on_openshift.Utils.Pods.{set_revision}
use slinky_on_openshift.Prelude.Dict.{insert}
use slinky_on_openshift.Prelude.Int.{pos, ◌+ℤ◌, ◌≤ℤ◌}
use slinky_on_openshift.Kube.{Pod, NodeSet}
use slinky_on_openshift.Utils.Pods.{key_func}
use slinky_on_openshift.HistoryControl.{get_controller_of}
use slinky_on_openshift.PodControl.Owners.{nodeset_owner}
use slinky_on_openshift.SlurmControl.Nodes.{drain}
use slinky_on_openshift.SlurmControl.Status.{Json, PodInfo}
use slinky_on_openshift.EventHandler.{
  Cache, update_pod, generic, node_updated, nodeset_key, resolve_controller_ref,
}
use slinky_on_openshift.EventHandler.Wakes.{
  Adds, Woken, info_of, events-Woken, update_pod-wakes_both, node_updated-wakes,
}
use slinky_on_openshift.EventHandler.Owner.{creations, IsOwned, creations_lem}
use slinky_on_openshift.EventHandler.Objects.{a_pod, tombstone, on_create, on_update, on_delete}
use slinky_on_openshift.NodeSetSync.ScaleOut.{do_pod_scale_out}
use slinky_on_openshift.NodeSetSync.ScaleOut.Expected.{Tracks, see_all}
use slinky_on_openshift.NodeSetSync.ScaleOut.Composed.{with_pods, scale_out-settles}
use slinky_on_openshift.PodControl.Operations.{PodClient, create_nodeset_pod}
use slinky_on_openshift.PodControl.Operations.Counted.{IsCounted}
use slinky_on_openshift.Exec.{ok}
use slinky_on_openshift.Scenarios.World.{
  ready_pod, a_pod_client, a_nodeset, a_library, a_ref, fresh, a_reconciler, drained_node,
  same_order,
}

-- a pod of the NodeSet, and another NodeSet that its old version was controlled by
abbrev owned_pod : Pod
owned_pod = record ready_pod { owner_references = a_ref (nodeset_owner a_nodeset) ∷ [] }

abbrev b_nodeset : NodeSet
b_nodeset = record a_nodeset { name = "b"; uid = "other-uid" }

abbrev old_pod : Pod
old_pod = record ready_pod {
  resource_version = "old";
  owner_references = a_ref (nodeset_owner b_nodeset) ∷ [];
}

abbrev a_cache : Cache
a_cache = record {
  get_nodeset = λ key. if str_eq key "ns/b" then some b_nodeset else some a_nodeset;
  list_nodesets = λ namespace. some (a_nodeset ∷ []);
  get_pod = λ key. some owned_pod;
  selector = λ s. some (λ labels. true);
  library = a_library;
}

abbrev a_json : Json
a_json = record { to_string = λ info. "{}"; parse = λ text. info_of owned_pod }

creations_example :
    let created = creations "ns/a" (on_create a_cache (a_pod owned_pod)) in
    (((created ≡ 1) × IsOwned a_cache "ns/a" (a_pod owned_pod))
      ⊎ ((created ≡ 0) × (¬ IsOwned a_cache "ns/a" (a_pod owned_pod))))
    × (creations "ns/a" (on_update a_cache (a_pod owned_pod) (a_pod old_pod)) ≡ 0)
    × (creations "ns/a" (on_delete a_cache (a_pod owned_pod)) ≡ 0)
creations_example = creations_lem a_cache "ns/a" (a_pod owned_pod) (a_pod old_pod)

-- a deletion that was missed
events-Woken_example :
    Woken (on_create a_cache (tombstone (a_pod owned_pod)))
    × Woken (on_update a_cache (tombstone (a_pod owned_pod)) (a_pod old_pod))
    × Woken (on_delete a_cache (tombstone (a_pod owned_pod)))
events-Woken_example = events-Woken a_cache (tombstone (a_pod owned_pod)) (a_pod old_pod)

update_pod-wakes_both_example :
    Adds "ns/b" (update_pod a_cache owned_pod old_pod)
    × Adds "ns/a" (update_pod a_cache owned_pod old_pod)
unfolding get_controller_of resolve_controller_ref key_func
update_pod-wakes_both_example =
    update_pod-wakes_both a_cache owned_pod old_pod (a_ref (nodeset_owner b_nodeset))
      (a_ref (nodeset_owner a_nodeset)) b_nodeset a_nodeset refl refl refl refl refl refl refl

node_updated-wakes_example :
    let old = drained_node in
    let new = record drained_node { state = drain ∷ []; comment = some "{}" } in
    (i : PodInfo) × (node_updated a_json (some old) (some new) ≡ some i)
    × Adds (nodeset_key a_nodeset) (generic a_cache i)
unfolding is_pod_from_nodeset
node_updated-wakes_example =
    node_updated-wakes a_cache a_json drained_node
      (record drained_node { state = drain ∷ []; comment = some "{}" }) owned_pod a_nodeset
      (a_nodeset ∷ []) refl refl refl refl refl (inl refl) refl refl

-- a server that counts the pods that it creates
abbrev counting_client : PodClient World
counting_client = record a_pod_client {
  create_pod = λ p w. (ok tt, record w { calls = "create" ∷ w.calls; made = suc w.made });
}

tracks : Tracks a_reconciler.expectations a_nodeset (λ w. w.expected) (λ w. w.made)
unfolding ◌+ℤ◌
tracks = record { expected = λ n w. (refl, refl, refl); lowered = λ w. (ground arith, refl) }

counted : IsCounted (λ w. w.expected) (λ w. w.made) counting_client
counted = record {
  claims = record {
    got = λ namespace name w. (refl, refl);
    created = λ claim w. (inl refl, refl);
    updated = λ claim w. (refl, refl);
    told = λ n pod claim e w. refl;
    warned = λ n name w. refl;
  };
  made = λ pod w. (refl, refl, omega arith);
  told = λ verb n pod res w. refl;
  told_failed = λ n e w. refl;
  told_created = λ n pod w. refl;
}

-- two pods more, with none there to uncordon
scale_out-settles_example :
    (let r = with_pods a_reconciler counting_client in
      see_all r.expectations a_cache
        (λ request d w. w)
        (owned_pod ∷ owned_pod ∷ [])
        (do_pod_scale_out r a_nodeset [] (pos 2) "new" fresh).1).expected
    ≤ℤ pos 0
unfolding for_pods slow_start_batch do_pod_scale_out clamp get_controller_of resolve_controller_ref
    key_func create_nodeset_pod get_persistent_volume_claims insert new_nodeset_pod set_revision
    update_storage init_identity update_identity
scale_out-settles_example =
    scale_out-settles a_reconciler counting_client a_nodeset (λ w. w.expected) (λ w. w.made) tracks
      counted a_cache (λ request d w. w) (λ request d w. refl) [] (pos 2) "new" fresh fresh
      (owned_pod ∷ owned_pod ∷ []) same_order refl
      ((refl, (a_nodeset, refl, refl)), ((refl, (a_nodeset, refl, refl)), tt)) refl

-- the nodes of the pods are drained
abbrev on_drained : Reconciler World
on_drained = record a_reconciler {
  slurm_control = record a_reconciler.slurm_control {
    is_node_drained = λ n p. called "drained?" true;
  };
}

abbrev is_awaited : World → String → Bool
is_awaited w key = elim (lookup key w.awaited) [ none ↦ false | some b ↦ true ]

awaited-deleted :
    (w : World) (key : String)
    → is_awaited (record w { awaited = delete key w.awaited }) key ≡ false
awaited-deleted w key = rw (is_awaited, lookup-delete key key w.awaited, eq_refl key) refl

scale_in_pod-Awaited_example :
    Awaited on_drained a_nodeset ready_pod (record fresh { awaited = ("ns/a-0", true) ∷ [] })
unfolding key_func scale_in_pod is_running_and_ready lookup
scale_in_pod-Awaited_example =
    scale_in_pod-Awaited on_drained "ns/a" a_nodeset ready_pod is_awaited
      (λ w. awaited-deleted w "ns/a-0") (λ w. refl)
      (record fresh { awaited = ("ns/a-0", true) ∷ [] }) (λ e. cc) refl
