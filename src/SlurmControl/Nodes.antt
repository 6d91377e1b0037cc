-- ===== src/SlurmControl/Nodes.antt =====
-- The objects of the Slurm REST API that the operator reads and writes, and the client
-- (types of `slurm-client`, used by
-- upstream/slurm-operator/internal/controller/nodeset/slurmcontrol/slurmcontrol.go).
use slinky_on_openshift.Prelude.{ℕ, Bool, Option, List, String, any, ◌==◌, str_eq}
use slinky_on_openshift.Prelude.Int.{ℤ}
use slinky_on_openshift.Exec.{M}

pub data NodeState : Type 0 where
  allocated down error future idle mixed unknown : NodeState
  completing drain fail invalid invalid_reg maintenance not_responding undrain : NodeState
  other_state : String → NodeState

abbrev index : NodeState → ℕ
index allocated = 0
index down = 1
index error = 2
index future = 3
index idle = 4
index mixed = 5
index unknown = 6
index completing = 7
index drain = 8
index fail = 9
index invalid = 10
index invalid_reg = 11
index maintenance = 12
index not_responding = 13
index undrain = 14
index (other_state s) = 15

-- two states of the API are the same text
abbrev pub state_eq : NodeState → NodeState → Bool
state_eq (other_state s) (other_state t) = str_eq s t
state_eq s t = index s == index t

pub record Node : Type 0 where
  pub name : Option String
  pub state : List NodeState
  pub comment : Option String
  pub reason : Option String

-- `node.GetStateAsSet().Has(state)`
unfoldable pub has_state : Node → NodeState → Bool
has_state node state = any (λ s. state_eq s state) node.state

-- `Number` and `Infinite` of the start time and the time limit, where they are set
pub record Job : Type 0 where
  pub running : Bool
  pub nodes : Option String
  pub start_time : Option ℤ
  pub time_limit : Option ℤ
  pub infinite : Option Bool

pub record UpdateNodeMsg : Type 0 where
  pub comment : Option String
  pub state : Option NodeState
  pub reason : Option String

pub record SlurmClient (S : Type 0) : Type 0 where
  pub get_node : String → M S Node
  pub list_nodes : M S (List Node)
  pub list_nodes_refreshed : M S (List Node)
  pub update_node : Node → UpdateNodeMsg → M S (Unit {0})
  pub list_jobs : M S (List Job)
