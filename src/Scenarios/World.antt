-- ===== src/Scenarios/World.antt =====
-- The world that the scenarios run in, and what answers from it.
mod Objects
use mathlib.Core.List.{Perm}
use mathlib.Core.List.Perm
use slinky_on_openshift.Prelude.{
  ℕ, suc, Bool, true, false, Option, none, some, List, [], ◌∷◌, String, if◌then◌else◌,
}
use slinky_on_openshift.Prelude.Dict.{Dict, delete}
use slinky_on_openshift.Prelude.Int.{ℤ, pos, negsuc, ◌+ℤ◌, eqb_ℤ}
use slinky_on_openshift.Exec.{not_found, conflict, ok, err, M}
use slinky_on_openshift.Kube.{OwnerReference}
use slinky_on_openshift.Utils.KeyedStore.{KeyedStore, new_store, greater}
use slinky_on_openshift.SlurmControl.Nodes.{Node, idle, drain, Job, SlurmClient}
use slinky_on_openshift.SlurmControl.Drain.{with_prefix}
use slinky_on_openshift.SlurmControl.Status.{no_nodes}
use slinky_on_openshift.NodeSetSync.Patch.{
  GoJson, Fields, object, text, no_fields, field, get_field, object_at,
}
use slinky_on_openshift.NodeSetSync.Reconciler.{Reconciler, Revision}
use slinky_on_openshift.PodControl.Owners.{nodeset_owner, Owner}
use slinky_on_openshift.PodControl.Operations.{PodClient}
use slinky_on_openshift.HistoryControl.{RevisionClient}
use slinky_on_openshift.Sort.{insertion_sort}
pub use Objects.*

-- what has been called, the store of durations, the expected creations, the pods made
-- and the pods whose deletion is expected
pub record World : Type 0 where
  pub calls : List String
  pub durations : KeyedStore
  pub expected : ℤ
  pub made : ℕ
  pub awaited : Dict Bool

abbrev pub fresh : World
fresh = record {
  calls = [];
  durations = new_store greater;
  expected = pos 0;
  made = 0;
  awaited = [];
}

abbrev pub called : {A : Type 0} → String → A → M World A
called name a w = (ok a, record w { calls = name ∷ w.calls })

-- drained by the operator, and idle or still working
abbrev pub drained_node : Node
drained_node = record {
  name = some "a-0";
  state = idle ∷ drain ∷ [];
  comment = none;
  reason = some (with_prefix "Pod (ns/a-0) has been cordoned");
}

abbrev pub foreign_node : Node
foreign_node = record drained_node { reason = some "bad disk" }

abbrev pub a_job : Job
a_job = record {
  running = true;
  nodes = some "a-0";
  start_time = some (pos 100);
  time_limit = some (pos 10);
  infinite = none;
}

abbrev pub a_client : Node → SlurmClient World
a_client node = record {
  get_node = λ name. called "get node" node;
  list_nodes = called "list nodes" (node ∷ []);
  list_nodes_refreshed = called "list nodes" (node ∷ []);
  update_node = λ n msg. called "update node" tt;
  list_jobs = λ w. (ok (a_job ∷ []), w);
}

abbrev pub the_clusters : Node → Dict (SlurmClient World)
the_clusters node = ("ns/slurm", a_client node) ∷ []

abbrev pub a_ref : Owner → OwnerReference
a_ref o = record {
  api_version = o.api_version;
  kind = o.kind;
  name = o.name;
  uid = o.uid;
  controller = some true;
  block_owner_deletion = some true;
}

abbrev pub a_revision : String → ℤ → Revision
a_revision name number = record {
  name = name;
  labels = some (("controller.kubernetes.io/hash", name) ∷ []);
  annotations = none;
  number = number;
  patch = name;
  namespace = "ns";
  owner_references = a_ref (nodeset_owner a_nodeset) ∷ [];
}

-- the hostname of a template is all that is printed and read
abbrev hostname_of : Option Fields → String
hostname_of none = ""
hostname_of (some m) = elim (get_field "hostname" m) [ some (text t) ↦ t | _ ↦ "" ]

abbrev template_at : Fields → Option Fields
template_at m = elim (object_at "spec" m) [ none ↦ none | some spec ↦ object_at "template" spec ]

abbrev with_hostname : String → Fields
with_hostname t =
    let template = object (field "hostname" (text t) no_fields) in
    field "spec" (object (field "template" template no_fields)) no_fields

abbrev pub a_json : GoJson
a_json = record {
  marshal_nodeset = λ n. some n.template.hostname;
  unmarshal = λ t. some (with_hostname t);
  marshal = λ m. some (hostname_of (template_at m));
}

-- no node is ever drained, and expectations are never satisfied
abbrev pub a_reconciler : Reconciler World
a_reconciler = record {
  library = a_library;
  sort = insertion_sort;
  order = λ l. l;
  kube = record {
    get_nodeset = λ key. called "get" a_nodeset;
    update_nodeset_status = λ n. called "status" tt;
    retry_on_conflict = λ m. m;
    list_pods = λ n. called "list" (ready_pod ∷ []);
    patch_pod = λ p q. called "patch" tt;
    update_revision = λ x. called "label" tt;
    claim_pods = λ n pods f m. called "claim" pods;
    recheck_deletion_timestamp = λ m. called "recheck" tt;
    selector_text = λ s. ok "";
    json = a_json;
    new_controller_revision = λ n patch m c. ok (record (a_revision "new" m) { patch = patch });
    find_equal_revisions = λ l x. [];
    equal_revision = λ x y. false;
    sort_revisions = λ l. l;
    warn_selecting_all = λ n w. w;
    now = λ w. pos 9;
  };
  pod_control = record {
    create_nodeset_pod =
        λ n p w. (ok tt, record w { calls = "create" ∷ w.calls; made = suc w.made });
    update_nodeset_pod = λ n p. called "update" tt;
    delete_nodeset_pod = λ n p. called "delete" tt;
    pod_pvcs_match_retention_policy = λ n p. called "match" true;
    update_pod_pvcs_for_retention_policy = λ n p. called "retain" tt;
    is_pod_pvcs_stale = λ n p. called "stale?" false;
  };
  slurm_control = record {
    get_node_names = λ n pods. called "names" [];
    calculate_node_status = λ n pods. called "count" no_nodes;
    update_node_with_pod_info = λ n p. called "mark" tt;
    make_node_drain = λ n p reason. called "drain" tt;
    make_node_undrain = λ n p reason. called "undrain" tt;
    is_node_drain = λ n p. called "drain?" false;
    is_node_drained = λ n p. called "drained?" false;
    get_node_deadlines = λ n pods. called "deadlines" (new_store greater);
  };
  history_control = record {
    list_controller_revisions = λ n. called "revisions" [];
    create_controller_revision = λ n x c w. (ok x, c, w);
    update_controller_revision = λ x n. called "renumber" x;
    delete_controller_revision = λ x. called "delete revision" tt;
    adopt_controller_revision = λ n x. called "adopt" x;
  };
  expectations = record {
    expect_creations = λ key n w. (ok tt, record w { calls = "expect" ∷ w.calls; expected = n });
    expect_deletions = λ key keys. called "expect" tt;
    set_expectations = λ key. called "set" tt;
    creation_observed = λ key w. record w { expected = w.expected +ℤ negsuc 0 };
    deletion_observed = λ key pod w. record w { awaited = delete pod w.awaited };
    satisfied_expectations = λ key w. false;
    delete_expectations = λ key w. w;
  };
  durations = λ w. w.durations;
  set_durations = λ d w. record w { durations = d };
}

-- the reference that `NewControllerRef` makes
abbrev pub a_pod_client : PodClient World
a_pod_client = record {
  claims = record {
    get_claim = λ namespace name w. (err not_found, w);
    create_claim = λ claim. called "create claim" tt;
    update_claim = λ claim. called "update claim" tt;
    record_claim_event = λ n p claim e w. w;
    record_conflicting_controller = λ n name w. w;
  };
  create_pod = λ p. called "create" tt;
  delete_pod = λ namespace name. called "delete" tt;
  update_pod = λ p. called "update" tt;
  get_pod = λ namespace name. called "get" ready_pod;
  record_pod_event = λ verb n p res w. w;
  record_failed_create = λ n e w. w;
  record_created = λ n p w. w;
  record_failed_delete = λ n e w. w;
  record_deleted = λ n name w. w;
  new_controller_ref = a_ref;
  order = λ claims. claims;
  retry_on_conflict = λ m. m;
}

-- no world at all is needed for a permutation of the schedule
pub same_order : (l : List ℕ) → Perm l l
same_order l = Perm.refl l

-- The server's revisions by key, with the count as the hash.
abbrev pub a_revision_client : RevisionClient (Dict Revision)
a_revision_client = record {
  list_revisions = λ namespace selector entries. (ok [], entries);
  create_revision = λ x entries. (ok x, entries);
  get_revision = λ namespace name entries. (err not_found, entries);
  update_revision = λ x entries. (err conflict, entries);
  delete_revision = λ x entries. (ok tt, entries);
  hash = λ x count. if eqb_ℤ count (pos 0) then "first" else "second";
  revision_name = λ parent hash. hash;
  retry_on_conflict = λ m. m;
}

-- a server on which the first name is in use for other data
abbrev pub taken_names : Dict Revision
taken_names = ("ns/first", record (a_revision "first" (pos 1)) { patch = "other" }) ∷ []
