-- ===== src/Clusters.antt =====
-- The Slurm clients of the clusters (upstream/slurm-operator/internal/resources/clusters.go). A
-- client is a pointer, which a number stands for; the calls that start and stop clients are kept.
-- Each operation holds the lock, and so is one step.
pub mod Running
use slinky_on_openshift.Prelude.{
  ℕ, Bool, true, false, ◌||◌, Option, none, some, List, [], ◌∷◌, String,
}
use slinky_on_openshift.Prelude.Dict.{Dict, lookup, insert, delete}

pub data Call : Type 0 where
  start stop : ℕ → Call

-- the latest call first
pub record Clusters : Type 0 where
  pub clients : Dict ℕ
  pub calls : List Call

abbrev pub new_clusters : Clusters
new_clusters = record { clients = []; calls = [] }

unfoldable pub get : String → Clusters → Option ℕ
get name c = lookup name c.clients

unfoldable pub has : List String → Clusters → Bool
has [] c = false
has (name ∷ names) c =
    let rest = has names c in elim (lookup name c.clients) [ none ↦ rest | some _ ↦ true ]

unfoldable pub add : String → ℕ → Clusters → Bool × Clusters
add name client c = elim (lookup name c.clients) [
  | some _ ↦ (false, c)
  | none ↦ (true, record { clients = insert name client c.clients; calls = start client ∷ c.calls })
]

unfoldable pub remove : String → Clusters → Bool × Clusters
remove name c = elim (lookup name c.clients) [
  | none ↦ (false, c)
  | some client ↦ (true, record { clients = delete name c.clients; calls = stop client ∷ c.calls })
]

-- `Add`, which replaces a client; `Remove` is `remove` under the lock
unfoldable pub add_client : String → ℕ → Clusters → Bool × Clusters
unfolding add remove
add_client name client c = add name client (remove name c).1
