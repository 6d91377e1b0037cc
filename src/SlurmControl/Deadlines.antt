-- ===== src/SlurmControl/Deadlines.antt =====
-- When the running jobs end that use the pods' nodes
-- (upstream/slurm-operator/internal/controller/nodeset/slurmcontrol/slurmcontrol.go).
-- `hostlist.Expand` is the parameter `expand`. Times are nanoseconds since Go's zero Time.
pub mod Latest
use slinky_on_openshift.Prelude.{
  Bool, true, false, Option, none, some, List, [], ◌∷◌, String, any, ◌-◌, ◌^◌, str_eq,
  if◌then◌else◌,
}
use slinky_on_openshift.Prelude.Dict.{Dict}
use slinky_on_openshift.Prelude.Int.{ℤ, pos, ◌+ℤ◌, scale, wrap_int64}
use slinky_on_openshift.Exec.{Result, ok, err, panic, message, M, pure, raise, ◌>>=◌}
use slinky_on_openshift.Kube.{NodeSet, Pod}
use slinky_on_openshift.Naming.{get_node_name}
use slinky_on_openshift.Utils.TimeStore.{TimeStore, new_time_store, greater, push_time}
use slinky_on_openshift.SlurmControl.Nodes.{Job, SlurmClient}
use slinky_on_openshift.SlurmControl.Client.{lookup_client}

abbrev or_0 : Option ℤ → ℤ
or_0 none = pos 0
or_0 (some n) = n

abbrev is_infinite : Option Bool → Bool
is_infinite (some true) = true
is_infinite _ = false

-- `time.Unix(n, 0)`, where the epoch is 62135596800 s after the zero Time
abbrev unix : ℤ → ℤ
unix n = scale (n +ℤ pos 62135596800) 1000000000

-- a product of an `int64`, and `infiniteDuration`
unfoldable pub time_limit : Job → ℤ
time_limit job =
    if is_infinite job.infinite
    then pos (2 ^ 63 - 1)
    else wrap_int64 (scale (or_0 job.time_limit) 60000000000)

unfoldable pub deadline : Job → ℤ
unfolding time_limit
deadline job = unix (or_0 job.start_time) +ℤ time_limit job

abbrev pub nodes_of : Job → String
nodes_of job = elim job.nodes [ none ↦ "" | some n ↦ n ]

-- `slurmNodeNamesSet.Has(name)`
abbrev pub is_node_of : List Pod → String → Bool
is_node_of pods name = any (λ pod. str_eq (get_node_name pod) name) pods

unfoldable pub push_names : List String → ℤ → TimeStore → TimeStore
push_names [] d ts = ts
push_names (name ∷ names) d ts = push_names names d (push_time name d ts)

module _ (expand : String → Option (List String)) (pods : List Pod) where
  unfoldable pub push_jobs : List Job → TimeStore → Option TimeStore
  unfolding push_names
  push_jobs [] ts = some ts
  push_jobs (job ∷ jobs) ts = elim job.running [
    | false ↦ push_jobs jobs ts
    | true ↦ elim (expand (nodes_of job)) [
      | none ↦ none
      | some names ↦ elim (any (is_node_of pods) names) [
        | false ↦ push_jobs jobs ts
        | true ↦ push_jobs jobs (push_names names (deadline job) ts)
      ]
    ]
  ]

module _ {S : Type 0} (expand : String → Option (List String))
    (clusters : Dict (SlurmClient S)) where
  unfoldable pub get_node_deadlines : NodeSet → List Pod → M S TimeStore
  unfolding lookup_client push_jobs
  get_node_deadlines nodeset pods s = elim (lookup_client clusters nodeset) [
    | none ↦ (ok (new_time_store greater), s)
    | some client ↦
        let (r, s') = client.list_jobs s in
        elim r [
          | err e ↦ (err e, s')
          | panic ↦ (panic, s')
          | ok jobs ↦ elim (push_jobs expand pods jobs (new_time_store greater)) [
            | none ↦ (err (message "hostlist"), s')
            | some ts ↦ (ok ts, s')
          ]
        ]
  ]
