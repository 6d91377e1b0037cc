-- ===== src/SlurmControl/Status.antt =====
-- The counts of Slurm node states, the names of the nodes, and the pod's mark on its node
-- (upstream/slurm-operator/internal/controller/nodeset/slurmcontrol/slurmcontrol.go, and
-- internal/utils/podinfo/podinfo.go). The counts are at most the number of nodes listed, which is
-- far below 2^31, so they stand as numbers. `json.Marshal` and `json.Unmarshal` of a `PodInfo` are
-- the parameter `Json`.
pub mod Counts
use slinky_on_openshift.Prelude.{
  ℕ, ◌+◌, Bool, true, false, Option, none, some, List, [], ◌∷◌, String, any, map, str_eq,
  if◌then◌else◌,
}
use slinky_on_openshift.Prelude.Dict.{Dict}
use slinky_on_openshift.Exec.{Result, ok, err, panic, M, pure, ◌>>=◌}
use slinky_on_openshift.Kube.{NodeSet, Pod}
use slinky_on_openshift.Naming.{get_node_name}
use slinky_on_openshift.SlurmControl.Nodes.{
  NodeState, allocated, down, error, future, idle, mixed, unknown, completing, drain, fail, invalid,
  invalid_reg, maintenance, not_responding, undrain, Node, has_state, SlurmClient,
}
use slinky_on_openshift.SlurmControl.Client.{
  tolerate_error, tolerate, tolerating, lookup_client, with_node,
}

pub record SlurmNodeStatus : Type 0 where
  pub total : ℕ
  pub allocated : ℕ
  pub down : ℕ
  pub error : ℕ
  pub future : ℕ
  pub idle : ℕ
  pub mixed : ℕ
  pub unknown : ℕ
  pub completing : ℕ
  pub drain : ℕ
  pub fail : ℕ
  pub invalid : ℕ
  pub invalid_reg : ℕ
  pub maintenance : ℕ
  pub not_responding : ℕ
  pub undrain : ℕ

abbrev pub no_nodes : SlurmNodeStatus
no_nodes = record {
  total = 0;
  allocated = 0;
  down = 0;
  error = 0;
  future = 0;
  idle = 0;
  mixed = 0;
  unknown = 0;
  completing = 0;
  drain = 0;
  fail = 0;
  invalid = 0;
  invalid_reg = 0;
  maintenance = 0;
  not_responding = 0;
  undrain = 0;
}

-- the first `switch`: at most one base state is counted
unfoldable pub count_base_state : Node → SlurmNodeStatus → SlurmNodeStatus
count_base_state node s =
    if has_state node NodeState.allocated
    then record s { allocated = s.allocated + 1 }
    else if has_state node NodeState.down
    then record s { down = s.down + 1 }
    else if has_state node NodeState.error
    then record s { error = s.error + 1 }
    else if has_state node NodeState.future
    then record s { future = s.future + 1 }
    else if has_state node NodeState.idle
    then record s { idle = s.idle + 1 }
    else if has_state node NodeState.mixed
    then record s { mixed = s.mixed + 1 }
    else if has_state node NodeState.unknown
    then record s { unknown = s.unknown + 1 }
    else s

abbrev pub one_if : Bool → ℕ
one_if true = 1
one_if false = 0

-- the flag states, each on its own
unfoldable pub count_flag_states : Node → SlurmNodeStatus → SlurmNodeStatus
count_flag_states node s = record s {
  completing = s.completing + one_if (has_state node NodeState.completing);
  drain = s.drain + one_if (has_state node NodeState.drain);
  fail = s.fail + one_if (has_state node NodeState.fail);
  invalid = s.invalid + one_if (has_state node NodeState.invalid);
  invalid_reg = s.invalid_reg + one_if (has_state node NodeState.invalid_reg);
  maintenance = s.maintenance + one_if (has_state node NodeState.maintenance);
  not_responding = s.not_responding + one_if (has_state node NodeState.not_responding);
  undrain = s.undrain + one_if (has_state node NodeState.undrain);
}

abbrev pub name_of : Node → String
name_of node = elim node.name [ none ↦ "" | some n ↦ n ]

-- `podNodeNameSet.Has(nodeName)`
unfoldable pub is_listed : List Pod → Node → Bool
is_listed pods node = any (λ pod. str_eq (get_node_name pod) (name_of node)) pods

-- the loop over the nodes
unfoldable pub count_nodes : List Pod → List Node → SlurmNodeStatus → SlurmNodeStatus
unfolding is_listed
count_nodes pods [] s = s
count_nodes pods (node ∷ nodes) s = count_nodes pods nodes (
    if is_listed pods node
    then count_flag_states node (count_base_state node (record s { total = s.total + 1 }))
    else s)

unfoldable pub listed_names : List Pod → List Node → List String
listed_names pods [] = []
listed_names pods (node ∷ nodes) =
    let rest = listed_names pods nodes in if is_listed pods node then name_of node ∷ rest else rest

pub record PodInfo : Type 0 where
  pub namespace : String
  pub pod_name : String

-- `to_string` is `ToString`; `parse` is `ParseIntoPodInfo` into an empty `PodInfo`, which keeps
-- what was read before an error
pub record Json : Type 0 where
  pub to_string : PodInfo → String
  pub parse : String → PodInfo

module _ {S : Type 0} (clusters : Dict (SlurmClient S)) where
  unfoldable pub get_node_names : NodeSet → List Pod → M S (List String)
  unfolding lookup_client listed_names
  get_node_names nodeset pods s = elim (lookup_client clusters nodeset) [
    | none ↦ (ok [], s)
    | some client ↦ (client.list_nodes >>= λ nodes. pure (listed_names pods nodes)) s
  ]

  unfoldable pub calculate_node_status : NodeSet → List Pod → M S SlurmNodeStatus
  unfolding lookup_client tolerate_error
  calculate_node_status nodeset pods s = elim (lookup_client clusters nodeset) [
    | none ↦ (ok no_nodes, s)
    | some client ↦
        tolerating no_nodes
          (client.list_nodes_refreshed >>= λ nodes. pure (count_nodes pods nodes no_nodes)) s
  ]

  -- two values are `Equal` if they marshal to the same text
  unfoldable pub update_node_with_pod_info : Json → NodeSet → Pod → M S (Unit {0})
  unfolding lookup_client tolerate_error
  update_node_with_pod_info json nodeset pod = with_node clusters tt nodeset pod λ client node.
      let info : PodInfo = record { namespace = pod.namespace; pod_name = pod.name } in
      let old = json.parse (elim node.comment [ none ↦ "" | some c ↦ c ]) in
      if str_eq (json.to_string old) (json.to_string info)
      then pure tt
      else tolerating tt (
          client.update_node node
            (record { comment = some (json.to_string info); state = none; reason = none }))
