-- ===== src/Operator/Shared.antt =====
-- The two controllers over one state: `main` gives both the same registry of Slurm clients, from which
-- the Slurm control of the NodeSets takes its client at each call
-- (upstream/slurm-operator/cmd/manager/main.go and
-- upstream/slurm-operator/internal/controller/nodeset/nodeset_controller.go).
pub mod Asked
use slinky_on_openshift.Prelude.{ℕ, Option, List, [], ◌∷◌, String}
use slinky_on_openshift.Prelude.Dict.{Dict}
use slinky_on_openshift.Clusters.{Clusters}
use slinky_on_openshift.SlurmControl.Nodes.{SlurmClient}
use slinky_on_openshift.SlurmControl.Status.{Json}
use slinky_on_openshift.SlurmControl.Interface.{SlurmControlInterface, new_slurm_control}
use slinky_on_openshift.PodControl.Operations.{PodClient}
use slinky_on_openshift.PodControl.Interface.{new_pod_control}
use slinky_on_openshift.HistoryControl.{RevisionClient}
use slinky_on_openshift.HistoryControl.Interface.{new_history_control}
use slinky_on_openshift.NodeSetSync.Reconciler.{Reconciler, Expectations}

-- The API server, as the two controls use it, and the new expectations, which the event handler of
-- pods shares. `connect` gives the client that a number in the registry stands for.
pub record Parts (S : Type 0) : Type 0 where
  pub pods : PodClient S
  pub revisions : RevisionClient S
  pub fuel : ℕ
  pub expectations : Expectations S
  pub registry : S → Clusters
  pub connect : ℕ → SlurmClient S
  pub expand : String → Option (List String)
  pub json : Json

module _ {S : Type 0} where
  -- the clients of the registry
  unfoldable pub connected : (ℕ → SlurmClient S) → Dict ℕ → Dict (SlurmClient S)
  connected connect [] = []
  connected connect ((name, client) ∷ clients) = (name, connect client) ∷ connected connect clients

  -- the operator's Slurm control, for the registry as it is
  abbrev pub control_at : Parts S → S → SlurmControlInterface S
  control_at parts s =
      new_slurm_control parts.expand parts.json (connected parts.connect (parts.registry s).clients)

  -- the operator's Slurm control, which reads the registry at each call
  abbrev pub shared_slurm_control : Parts S → SlurmControlInterface S
  shared_slurm_control parts = record {
    get_node_names = λ nodeset pods s. (control_at parts s).get_node_names nodeset pods s;
    calculate_node_status =
        λ nodeset pods s. (control_at parts s).calculate_node_status nodeset pods s;
    update_node_with_pod_info =
        λ nodeset pod s. (control_at parts s).update_node_with_pod_info nodeset pod s;
    make_node_drain =
        λ nodeset pod reason s. (control_at parts s).make_node_drain nodeset pod reason s;
    make_node_undrain =
        λ nodeset pod reason s. (control_at parts s).make_node_undrain nodeset pod reason s;
    is_node_drain = λ nodeset pod s. (control_at parts s).is_node_drain nodeset pod s;
    is_node_drained = λ nodeset pod s. (control_at parts s).is_node_drained nodeset pod s;
    get_node_deadlines = λ nodeset pods s. (control_at parts s).get_node_deadlines nodeset pods s;
  }

  -- the controls that `SetupWithManager` gives to the reconciler of NodeSets
  abbrev pub set_up : Parts S → Reconciler S → Reconciler S
  set_up parts r = record r {
    history_control = new_history_control parts.fuel parts.revisions;
    pod_control = new_pod_control parts.pods;
    slurm_control = shared_slurm_control parts;
    expectations = parts.expectations;
  }
