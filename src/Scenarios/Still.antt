-- ===== src/Scenarios/Still.antt =====
-- Servers whose calls all succeed and leave the state alone, whatever the state is.
use slinky_on_openshift.Prelude.{true, false, [], ◌∷◌}
use slinky_on_openshift.Prelude.Int.{pos}
use slinky_on_openshift.Exec.{ok, err, not_found}
use slinky_on_openshift.Utils.KeyedStore.{new_store, greater}
use slinky_on_openshift.SlurmControl.Status.{no_nodes}
use slinky_on_openshift.SlurmControl.Nodes.{Node, SlurmClient}
use slinky_on_openshift.Sort.{insertion_sort}
use slinky_on_openshift.NodeSetSync.Reconciler.{Reconciler, Expectations}
use slinky_on_openshift.PodControl.Operations.{PodClient}
use slinky_on_openshift.HistoryControl.{RevisionClient}
use slinky_on_openshift.Scenarios.World.{a_json, a_nodeset, a_library, a_revision, a_ref, ready_pod}

abbrev pub still_expectations : {S : Type 0} → Expectations S
still_expectations = record {
  expect_creations = λ key n s. (ok tt, s);
  expect_deletions = λ key keys s. (ok tt, s);
  set_expectations = λ key s. (ok tt, s);
  creation_observed = λ key s. s;
  deletion_observed = λ key pod s. s;
  satisfied_expectations = λ key s. true;
  delete_expectations = λ key s. s;
}

-- all calls succeed, and leave the server alone
abbrev pub a_still_reconciler : {S : Type 0} → Reconciler S
a_still_reconciler = record {
  library = a_library;
  sort = insertion_sort;
  order = λ l. l;
  kube = record {
    get_nodeset = λ key s. (ok a_nodeset, s);
    update_nodeset_status = λ n s. (ok tt, s);
    retry_on_conflict = λ m. m;
    list_pods = λ n s. (ok [], s);
    patch_pod = λ p q s. (ok tt, s);
    update_revision = λ x s. (ok tt, s);
    claim_pods = λ n pods f m s. (ok pods, s);
    recheck_deletion_timestamp = λ m s. (ok tt, s);
    selector_text = λ s. ok "";
    json = a_json;
    new_controller_revision = λ n patch m c. ok (record (a_revision "new" m) { patch = patch });
    find_equal_revisions = λ l x. [];
    equal_revision = λ x y. false;
    sort_revisions = λ l. l;
    warn_selecting_all = λ n s. s;
    now = λ s. pos 9;
  };
  pod_control = record {
    create_nodeset_pod = λ n p s. (ok tt, s);
    update_nodeset_pod = λ n p s. (ok tt, s);
    delete_nodeset_pod = λ n p s. (ok tt, s);
    pod_pvcs_match_retention_policy = λ n p s. (ok true, s);
    update_pod_pvcs_for_retention_policy = λ n p s. (ok tt, s);
    is_pod_pvcs_stale = λ n p s. (ok false, s);
  };
  slurm_control = record {
    get_node_names = λ n pods s. (ok [], s);
    calculate_node_status = λ n pods s. (ok no_nodes, s);
    update_node_with_pod_info = λ n p s. (ok tt, s);
    make_node_drain = λ n p reason s. (ok tt, s);
    make_node_undrain = λ n p reason s. (ok tt, s);
    is_node_drain = λ n p s. (ok false, s);
    is_node_drained = λ n p s. (ok false, s);
    get_node_deadlines = λ n pods s. (ok (new_store greater), s);
  };
  history_control = record {
    list_controller_revisions = λ n s. (ok [], s);
    create_controller_revision = λ n x c s. (ok x, c, s);
    update_controller_revision = λ x n s. (ok x, s);
    delete_controller_revision = λ x s. (ok tt, s);
    adopt_controller_revision = λ n x s. (ok x, s);
  };
  expectations = still_expectations;
  durations = λ s. new_store greater;
  set_durations = λ d s. s;
}

abbrev pub still_pods : {S : Type 0} → PodClient S
still_pods = record {
  claims = record {
    get_claim = λ namespace name s. (err not_found, s);
    create_claim = λ claim s. (ok tt, s);
    update_claim = λ claim s. (ok tt, s);
    record_claim_event = λ n p claim e s. s;
    record_conflicting_controller = λ n name s. s;
  };
  create_pod = λ p s. (ok tt, s);
  delete_pod = λ namespace name s. (ok tt, s);
  update_pod = λ p s. (ok tt, s);
  get_pod = λ namespace name s. (ok ready_pod, s);
  record_pod_event = λ verb n p res s. s;
  record_failed_create = λ n e s. s;
  record_created = λ n p s. s;
  record_failed_delete = λ n e s. s;
  record_deleted = λ n name s. s;
  new_controller_ref = a_ref;
  order = λ claims. claims;
  retry_on_conflict = λ m. m;
}

abbrev pub still_revisions : {S : Type 0} → RevisionClient S
still_revisions = record {
  list_revisions = λ namespace selector s. (ok [], s);
  create_revision = λ x s. (ok x, s);
  get_revision = λ namespace name s. (err not_found, s);
  update_revision = λ x s. (ok x, s);
  delete_revision = λ x s. (ok tt, s);
  hash = λ x count. "";
  revision_name = λ parent hash. parent;
  retry_on_conflict = λ m. m;
}

abbrev pub still_slurm : {S : Type 0} → Node → SlurmClient S
still_slurm node = record {
  get_node = λ name s. (ok node, s);
  list_nodes = λ s. (ok (node ∷ []), s);
  list_nodes_refreshed = λ s. (ok (node ∷ []), s);
  update_node = λ n msg s. (ok tt, s);
  list_jobs = λ s. (ok [], s);
}
