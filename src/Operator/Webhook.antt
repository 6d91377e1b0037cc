-- ===== src/Operator/Webhook.antt =====
-- The program of the admission webhooks (upstream/slurm-operator/cmd/webhook/main.go).
use slinky_on_openshift.Prelude.{Bool, true, false, not, some, List, [], ◌∷◌, String, if◌then◌else◌}
use slinky_on_openshift.Exec.{◌>>◌}
use slinky_on_openshift.Operator.Runtime.{
  CommandLine, or_default, TlsConfig, ManagerOptions, Runtime, Exit, exit_of,
}

pub record Flags : Type 0 where
  pub enable_leader_election : Bool
  pub probe_addr : String
  pub secure_metrics : Bool
  pub enable_http2 : Bool

unfoldable pub parse_flags : CommandLine → Flags
parse_flags line = record {
  probe_addr = or_default (line.text "health-probe-bind-address") ":8081";
  enable_leader_election = or_default (line.bool "leader-elect") false;
  secure_metrics = or_default (line.bool "metrics-secure") false;
  enable_http2 = or_default (line.bool "enable-http2") false;
}

abbrev pub disable_http2 : TlsConfig → TlsConfig
disable_http2 c = record c { next_protos = "http/1.1" ∷ [] }

abbrev pub tls_opts : Flags → List (TlsConfig → TlsConfig)
tls_opts flags = if not flags.enable_http2 then disable_http2 ∷ [] else []

unfoldable pub manager_options : Flags → ManagerOptions
manager_options flags = record {
  metrics_bind_address = "0";
  tls_opts = tls_opts flags;
  webhook_tls_opts = some (tls_opts flags);
  health_probe_bind_address = flags.probe_addr;
  leader_election = flags.enable_leader_election;
  leader_election_id = "0033bda7.slinky.slurm.net";
  leader_election_release_on_cancel = true;
}

unfoldable pub main : {S : Type 0} → Runtime S → CommandLine → S → Exit × S
unfolding parse_flags manager_options
main runtime line s = exit_of (
    (runtime.new_manager (manager_options (parse_flags line))
        >> runtime.add_healthz_check "healthz"
        >> runtime.add_readyz_check "readyz"
        >> runtime.set_up_webhook "Cluster"
        >> runtime.set_up_webhook "NodeSet"
        >> runtime.start)
      s)
