-- ===== src/Kube.antt =====
-- The parts of the Kubernetes objects that the operator reads or writes, and of its own resources
-- (upstream/slurm-operator/api/v1alpha1). An optional pointer, and a map that can be nil, is an
-- `Option`. A time is a number of nanoseconds since Go's zero Time, which is `pos 0`.
use slinky_on_openshift.Prelude.{Bool, Option, none, some, List, String}
use slinky_on_openshift.Prelude.Dict.{Dict, lookup}
use slinky_on_openshift.Prelude.Int.{ℤ}

pub data PodPhase : Type 0 where
  no_phase pending running succeeded failed unknown : PodPhase

pub record OwnerReference : Type 0 where
  pub api_version : String
  pub kind : String
  pub name : String
  pub uid : String
  pub controller : Option Bool
  pub block_owner_deletion : Option Bool

-- `claim_name` is that of a PersistentVolumeClaim source, if the volume has one
pub record Volume : Type 0 where
  pub name : String
  pub claim_name : Option String

pub record Condition : Type 0 where
  pub is_ready_condition : Bool
  pub is_true : Bool
  pub last_transition_time : ℤ

pub record Pod : Type 0 where
  pub name : String
  pub generate_name : String
  pub namespace : String
  pub uid : String
  pub resource_version : String
  pub labels : Option (Dict String)
  pub annotations : Option (Dict String)
  pub owner_references : List OwnerReference
  pub finalizers : List String
  pub creation_timestamp : ℤ
  pub deletion_timestamp : Option ℤ
  pub node_name : String
  pub hostname : String
  pub subdomain : String
  pub volumes : List Volume
  pub phase : PodPhase
  pub conditions : List Condition

pub record Claim : Type 0 where
  pub name : String
  pub namespace : String
  pub labels : Option (Dict String)
  pub owner_references : List OwnerReference
  pub deletion_timestamp : Option ℤ

pub data UpdateStrategyType : Type 0 where
  rolling_update on_delete no_strategy other_strategy : UpdateStrategyType

pub data RetentionPolicyType : Type 0 where
  retain delete_claims other_policy : RetentionPolicyType

pub record RetentionPolicy : Type 0 where
  pub when_deleted : RetentionPolicyType
  pub when_scaled : RetentionPolicyType

-- `intstr.IntOrString`
pub data IntOrString : Type 0 where
  int_value : ℤ → IntOrString
  string_value : String → IntOrString

pub record Selector : Type 0 where
  pub match_labels : Dict String
  pub match_expressions : List String

pub record PodTemplate : Type 0 where
  pub labels : Option (Dict String)
  pub annotations : Option (Dict String)
  pub finalizers : List String
  pub node_name : String
  pub hostname : String
  pub subdomain : String
  pub volumes : List Volume

pub record NodeSetStatus : Type 0 where
  pub replicas : ℤ
  pub updated_replicas : ℤ
  pub ready_replicas : ℤ
  pub available_replicas : ℤ
  pub unavailable_replicas : ℤ
  pub slurm_idle : ℤ
  pub slurm_allocated : ℤ
  pub slurm_down : ℤ
  pub slurm_drain : ℤ
  pub observed_generation : ℤ
  pub node_set_hash : String
  pub collision_count : Option ℤ
  pub selector : String
  pub conditions : List String

pub record NodeSet : Type 0 where
  pub name : String
  pub namespace : String
  pub uid : String
  pub generation : ℤ
  pub annotations : Option (Dict String)
  pub deletion_timestamp : Option ℤ
  pub cluster_name : String
  pub service_name : String
  pub replicas : Option ℤ
  pub selector : Option Selector
  pub template : PodTemplate
  pub volume_claim_templates : List Claim
  pub update_strategy : UpdateStrategyType
  pub rolling_update_max_unavailable : Option (Option IntOrString)
  pub revision_history_limit : Option ℤ
  pub retention_policy : Option RetentionPolicy
  pub min_ready_seconds : ℤ
  pub status : NodeSetStatus

pub record ClusterStatus : Type 0 where
  pub is_ready : Bool
  pub conditions : List String

-- `secret_ref` is that of the specification's token
pub record Cluster : Type 0 where
  pub name : String
  pub namespace : String
  pub deletion_timestamp : Option ℤ
  pub server : String
  pub secret_ref : String
  pub status : ClusterStatus

-- `m[k]` on a map that may be nil, where the zero value is the empty string
abbrev pub get_string : String → Option (Dict String) → String
get_string k none = ""
get_string k (some m) = elim (lookup k m) [ none ↦ "" | some v ↦ v ]

-- What the operator uses of Kubernetes' own packages and of Go's time formats.
pub record Library : Type 0 where
  -- `podutil.IsPodReady`
  pub is_pod_ready : Pod → Bool
  -- `podutil.IsPodAvailable(pod, minReadySeconds, now)`
  pub is_pod_available : Pod → ℤ → ℤ → Bool
  -- `time.Parse(time.RFC3339, _)`, none on an error
  pub parse_time : String → Option ℤ
  -- `Time.Format(time.RFC3339)`
  pub format_time : ℤ → String
  -- `intstr.GetScaledValueFromIntOrPercent(_, total, roundUp)`, none on an error
  pub scaled_value : Option IntOrString → ℤ → Bool → Option ℤ
  -- `controller.GetPodFromTemplate` and `metav1.NewControllerRef`
  pub pod_from_template : PodTemplate → NodeSet → Pod
  -- `daemonutil.AddOrUpdateDaemonPodTolerations`, which writes to fields not modelled here
  pub add_tolerations : Pod → Pod
