-- ===== src/Operator/Manager.antt =====
-- The program of the controllers (upstream/slurm-operator/cmd/manager/main.go).
use slinky_on_openshift.Prelude.{Bool, true, false, not, none, List, [], ◌∷◌, String, if◌then◌else◌}
use slinky_on_openshift.Exec.{◌>>◌}
use slinky_on_openshift.Operator.Runtime.{
  CommandLine, or_default, TlsConfig, ManagerOptions, Runtime, Exit, exit_of,
}
use slinky_on_openshift.Operator.Controllers.{set_up_cluster, set_up_nodeset}

pub record Flags : Type 0 where
  pub enable_leader_election : Bool
  pub probe_addr : String
  pub secure_metrics : Bool
  pub enable_http2 : Bool

unfoldable pub parse_flags : CommandLine → Flags
parse_flags line = record {
  probe_addr = or_default (line.text "health-probe-bind-address") ":8081";
  enable_leader_election = or_default (line.bool "leader-elect") false;
  secure_metrics = or_default (line.bool "metrics-secure") false;
  enable_http2 = or_default (line.bool "enable-http2") false;
}

abbrev pub disable_http2 : TlsConfig → TlsConfig
disable_http2 c = record c { next_protos = "http/1.1" ∷ [] }

abbrev pub tls_opts : Flags → List (TlsConfig → TlsConfig)
tls_opts flags = if not flags.enable_http2 then disable_http2 ∷ [] else []

unfoldable pub manager_options : Flags → ManagerOptions
manager_options flags = record {
  metrics_bind_address = "";
  tls_opts = tls_opts flags;
  webhook_tls_opts = none;
  health_probe_bind_address = flags.probe_addr;
  leader_election = flags.enable_leader_election;
  leader_election_id = "0033bda7.slinky.slurm.net";
  leader_election_release_on_cancel = true;
}

-- the channel of events is made here, and so is not nil
unfoldable pub main : {S : Type 0} → Runtime S → CommandLine → S → Exit × S
unfolding parse_flags manager_options set_up_cluster
main runtime line s = exit_of (
    (runtime.new_manager (manager_options (parse_flags line))
        >> set_up_cluster runtime line true
        >> set_up_nodeset runtime line
        >> runtime.add_healthz_check "healthz"
        >> runtime.add_readyz_check "readyz"
        >> runtime.start)
      s)
