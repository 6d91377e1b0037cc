-- ===== src/SlurmControl/Client.antt =====
-- `tolerateError`, `lookupClient` and the start that the operations share
-- (upstream/slurm-operator/internal/controller/nodeset/slurmcontrol/slurmcontrol.go).
use slinky_on_openshift.Prelude.{
  Bool, true, false, ◌||◌, Option, none, some, String, str_eq, if◌then◌else◌,
}
use slinky_on_openshift.Prelude.Dict.{Dict, lookup}
use slinky_on_openshift.Exec.{Error, status_text, message, Result, ok, err, panic, M}
use slinky_on_openshift.Kube.{NodeSet, Pod}
use slinky_on_openshift.Utils.Pods.{key_func}
use slinky_on_openshift.Naming.{get_node_name}
use slinky_on_openshift.SlurmControl.Nodes.{Node, SlurmClient}

abbrev tolerated_text : String → Bool
tolerated_text t = str_eq t "Not Found" || str_eq t "No Content"

unfoldable pub tolerate_error : Option Error → Bool
tolerate_error none = true
tolerate_error (some (status_text t)) = tolerated_text t
tolerate_error (some (message t)) = tolerated_text t
tolerate_error (some _) = false

-- `if err != nil { if tolerateError(err) { return value, nil }; return err }`
abbrev pub tolerate {ℓ} : {A : Type ℓ} → A → Result A → Result A
tolerate a (ok b) = ok b
tolerate a (err e) = if tolerate_error (some e) then ok a else err e
tolerate a panic = panic

abbrev pub tolerating : {S A : Type 0} → A → M S A → M S A
tolerating a m s = (tolerate a (m s).0, (m s).1)

module _ {S : Type 0} (clusters : Dict (SlurmClient S)) where
  unfoldable pub lookup_client : NodeSet → Option (SlurmClient S)
  lookup_client nodeset = lookup (key_func nodeset.namespace nodeset.cluster_name) clusters

  -- A client that is missing, or a node that the server does not have, gives `a`; any other error
  -- of the read is returned.
  abbrev pub with_node : {A : Type 0} → A → NodeSet → Pod → (SlurmClient S → Node → M S A) → M S A
  with_node a nodeset pod f s = elim (lookup_client nodeset) [
    | none ↦ (ok a, s)
    | some client ↦
        let (r, s') = client.get_node (get_node_name pod) s in
        elim r [
          | ok node ↦ f client node s'
          | err e ↦ ((if tolerate_error (some e) then ok a else err e), s')
          | panic ↦ (panic, s')
        ]
  ]
