-- ===== src/Operator/Runtime.antt =====
-- What the programs take of Go's `flag` and of the controller runtime, and how they end
-- (upstream/slurm-operator/cmd).
use slinky_on_openshift.Prelude.{Bool, Option, none, some, List, String}
use slinky_on_openshift.Prelude.Int.{ℤ}
use slinky_on_openshift.Exec.{Result, ok, err, panic, M}

-- the value that the command line gives for a flag, if it does
pub record CommandLine : Type 0 where
  pub text : String → Option String
  pub bool : String → Option Bool
  pub int : String → Option ℤ

-- `flag.StringVar`, `flag.BoolVar` and `flag.IntVar`
abbrev pub or_default : {A : Type 0} → Option A → A → A
or_default none default = default
or_default (some a) default = a

pub record TlsConfig : Type 0 where
  pub next_protos : List String

-- `ctrl.Options`, in the fields that a program sets; the webhook server's own TLS options are none for
-- a program that has no such server
pub record ManagerOptions : Type 0 where
  pub metrics_bind_address : String
  pub tls_opts : List (TlsConfig → TlsConfig)
  pub webhook_tls_opts : Option (List (TlsConfig → TlsConfig))
  pub health_probe_bind_address : String
  pub leader_election : Bool
  pub leader_election_id : String
  pub leader_election_release_on_cancel : Bool

-- where the requests of a controller come from
pub data Source : Type 0 where
  for_clusters for_nodesets owned_pods watched_pods watched_secrets event_channel : Source

-- what `NewControllerManagedBy` is given
pub record Controller : Type 0 where
  pub name : String
  pub sources : List Source
  pub max_concurrent_reconciles : ℤ

-- The controller runtime: `NewManager`, `Complete` of a controller, `SetupWebhookWithManager` of a
-- type, and the calls of the manager.
pub record Runtime (S : Type 0) : Type 0 where
  pub new_manager : ManagerOptions → M S (Unit {0})
  pub complete : Controller → M S (Unit {0})
  pub set_up_webhook : String → M S (Unit {0})
  pub add_healthz_check : String → M S (Unit {0})
  pub add_readyz_check : String → M S (Unit {0})
  pub start : M S (Unit {0})

-- `os.Exit(1)` behind every error
pub data Exit : Type 0 where
  returned failed panicked : Exit

abbrev pub exit_of : {S : Type 0} → Result (Unit {0}) × S → Exit × S
exit_of (ok _, s) = (returned, s)
exit_of (err e, s) = (failed, s)
exit_of (panic, s) = (panicked, s)
