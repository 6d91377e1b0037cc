-- ===== src/Scenarios/World/Objects.antt =====
-- The objects of the scenarios, and what they read of Kubernetes' packages.
use slinky_on_openshift.Prelude.{
  Bool, true, false, Option, none, some, [], ◌∷◌, String, str_eq, if◌then◌else◌,
}
use slinky_on_openshift.Prelude.Int.{ℤ, pos, eqb_ℤ}
use slinky_on_openshift.Kube.{
  Pod, PodPhase, Claim, NodeSet, NodeSetStatus, PodTemplate, Library, running, pending,
  rolling_update, retain, delete_claims, IntOrString, int_value,
}

abbrev is_phase_running : PodPhase → Bool
is_phase_running running = true
is_phase_running _ = false

abbrev pub a_pod : String → PodPhase → Pod
a_pod name phase = record {
  name = name;
  generate_name = "";
  namespace = "ns";
  uid = "pod-uid";
  resource_version = "1";
  labels = some (("controller.kubernetes.io/hash", "new") ∷ []);
  annotations = some [];
  owner_references = [];
  finalizers = [];
  creation_timestamp = pos 7;
  deletion_timestamp = none;
  node_name = "host";
  hostname = "";
  subdomain = "";
  volumes = [];
  phase = phase;
  conditions = [];
}

abbrev pub ready_pod : Pod
ready_pod = a_pod "a-0" running

abbrev pub waiting_pod : Pod
waiting_pod = a_pod "a-2" pending

abbrev pub old_pod : Pod
old_pod = record ready_pod { name = "a-1"; labels = none }

abbrev pub cordoned_pod : Pod
cordoned_pod = record ready_pod {
  annotations = some (("nodeset.slinky.slurm.net/pod-cordon", "true") ∷ []);
}

abbrev pub a_template : PodTemplate
a_template = record {
  labels = none;
  annotations = none;
  finalizers = [];
  node_name = "";
  hostname = "";
  subdomain = "";
  volumes = [];
}

abbrev pub a_status : NodeSetStatus
a_status = record {
  replicas = pos 0;
  updated_replicas = pos 0;
  ready_replicas = pos 0;
  available_replicas = pos 0;
  unavailable_replicas = pos 0;
  slurm_idle = pos 0;
  slurm_allocated = pos 0;
  slurm_down = pos 0;
  slurm_drain = pos 0;
  observed_generation = pos 0;
  node_set_hash = "old";
  collision_count = none;
  selector = "";
  conditions = [];
}

abbrev pub a_claim : Claim
a_claim = record {
  name = "spool";
  namespace = "";
  labels = none;
  owner_references = [];
  deletion_timestamp = none;
}

abbrev pub a_nodeset : NodeSet
a_nodeset = record {
  name = "a";
  namespace = "ns";
  uid = "nodeset-uid";
  generation = pos 1;
  annotations = none;
  deletion_timestamp = none;
  cluster_name = "slurm";
  service_name = "a";
  replicas = some (pos 1);
  selector = none;
  template = a_template;
  volume_claim_templates = a_claim ∷ [];
  update_strategy = rolling_update;
  rolling_update_max_unavailable = some (some (int_value (pos 1)));
  revision_history_limit = some (pos 1);
  retention_policy = some (record { when_deleted = delete_claims; when_scaled = retain });
  min_ready_seconds = pos 0;
  status = a_status;
}

abbrev scaled : Option IntOrString → Option ℤ
scaled (some (int_value n)) = some n
scaled _ = none

abbrev format : ℤ → String
format t = if eqb_ℤ t (pos 5) then "five" else "other"

abbrev parse : String → Option ℤ
parse s = if str_eq s "five" then some (pos 5) else none

abbrev pub a_library : Library
a_library = record {
  is_pod_ready = λ pod. is_phase_running pod.phase;
  is_pod_available = λ pod min_ready now. is_phase_running pod.phase;
  parse_time = parse;
  format_time = format;
  scaled_value = λ v total up. scaled v;
  pod_from_template = λ t n. ready_pod;
  add_tolerations = λ p. p;
}
