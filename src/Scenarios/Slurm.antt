-- ===== src/Scenarios/Slurm.antt =====
-- The theorems on the Slurm nodes behind the pods.
use slinky_on_openshift.Clusters.{Clusters, new_clusters, add_client}
use slinky_on_openshift.Prelude.{
  ℕ, ◌≡◌, refl, true, Option, none, some, List, [], ◌∷◌, String, arith, ◌==◌, if◌then◌else◌,
}
use slinky_on_openshift.Exec.{ok, M, message, raise}
use slinky_on_openshift.Prelude.Dict.{Dict, lookup}
use slinky_on_openshift.Utils.Pods.{key_func}
use slinky_on_openshift.Utils.Batch.{slow_start_batch}
use slinky_on_openshift.Utils.Batch.Attempts.{Attempted, slow_start_batch-Attempted}
use slinky_on_openshift.SlurmControl.Nodes.{Node, idle, has_state, drain, undrain, SlurmClient}
use slinky_on_openshift.Naming.{get_node_name}
use slinky_on_openshift.SlurmControl.Client.{tolerating, lookup_client}
use slinky_on_openshift.SlurmControl.Drain.{with_prefix, make_node_drain, make_node_undrain}
use slinky_on_openshift.SlurmControl.Drain.Reasons.{make_node_undrain-of_drain}
use slinky_on_openshift.SlurmControl.Status.{no_nodes, count_nodes, is_listed}
use slinky_on_openshift.SlurmControl.Status.Counts.{
  count_if, base_states, listed_base, listed_drain, count_nodes_lem,
}
use slinky_on_openshift.SlurmControl.Deadlines.{get_node_deadlines}
use slinky_on_openshift.SlurmControl.Deadlines.Latest.{
  job_ends, Deadlines, get_node_deadlines-Deadlines,
}
use slinky_on_openshift.Scenarios.World.{
  ready_pod, a_nodeset, World, fresh, called, drained_node, a_job, a_client, the_clusters,
  same_order,
}

-- The state of a server is its node, and an update takes effect at once.
abbrev one_node : SlurmClient Node
one_node = record {
  get_node = λ name node. (ok node, node);
  list_nodes = λ node. (ok (node ∷ []), node);
  list_nodes_refreshed = λ node. (ok (node ∷ []), node);
  update_node = λ n msg node. elim msg.state [
    | none ↦ (ok tt, node)
    | some state ↦ (ok tt, record node { state = state ∷ node.state; reason = msg.reason })
  ];
  list_jobs = λ node. (ok [], node);
}

abbrev one_cluster : Dict (SlurmClient Node)
one_cluster = ("ns/slurm", one_node) ∷ []

abbrev calm_node : Node
calm_node = record drained_node { state = idle ∷ []; reason = none }

make_node_undrain_example :
    let reason : String = "Pod (ns/a-0) is uncordoned" in
    let (res, s2) =
      make_node_drain one_cluster a_nodeset ready_pod "Pod (ns/a-0) is cordoned" calm_node in
    (res ≡ ok tt)
    × ((node' : Node) × ((one_node.get_node (get_node_name ready_pod) s2).0 ≡ ok node')
        × (has_state node' drain ≡ true)
        × (make_node_undrain one_cluster a_nodeset ready_pod reason s2
            ≡ tolerating tt
                (one_node.update_node node' (record {
                  comment = none;
                  state = some undrain;
                  reason = some (with_prefix reason);
                }))
                s2))
unfolding lookup_client lookup key_func has_state
make_node_undrain_example =
    make_node_undrain-of_drain one_cluster a_nodeset ready_pod one_node "Pod (ns/a-0) is cordoned"
      "Pod (ns/a-0) is uncordoned" calm_node calm_node calm_node refl refl refl
      (λ msg h. rw h (refl, refl))

count_nodes_example :
    let r = count_nodes (ready_pod ∷ []) (drained_node ∷ []) no_nodes in
    (r.total ≡ count_if (is_listed (ready_pod ∷ [])) (drained_node ∷ []))
    × (base_states r ≡ count_if (listed_base (ready_pod ∷ [])) (drained_node ∷ []))
    × (r.drain ≡ count_if (listed_drain (ready_pod ∷ [])) (drained_node ∷ []))
count_nodes_example = count_nodes_lem (ready_pod ∷ []) (drained_node ∷ [])

abbrev single_name : String → Option (List String)
single_name s = some (s ∷ [])

get_node_deadlines_example :
    Deadlines single_name
      (the_clusters drained_node)
      a_nodeset
      (ready_pod ∷ [])
      (job_ends single_name (a_job ∷ []))
      (get_node_deadlines single_name
        (the_clusters drained_node)
        a_nodeset
        (ready_pod ∷ [])
        fresh).0
unfolding lookup_client lookup key_func
get_node_deadlines_example =
    get_node_deadlines-Deadlines single_name (the_clusters drained_node) a_nodeset (ready_pod ∷ [])
      (a_client drained_node) (a_job ∷ []) fresh fresh refl refl

-- the third of five calls fails
abbrev third_fails : ℕ → M World (Unit {0})
third_fails i = if i == 2 then raise (message "third") else called "call" tt

slow_start_batch_example :
    Attempted third_fails 1 5 0 0 fresh (slow_start_batch (λ l. l) third_fails 5 1 fresh)
slow_start_batch_example =
    slow_start_batch-Attempted third_fails (λ l. l) same_order 5 1 fresh (omega arith)

abbrev replaced : Clusters
replaced = (add_client "ns/slurm" 2 (add_client "ns/slurm" 1 new_clusters).1).1
