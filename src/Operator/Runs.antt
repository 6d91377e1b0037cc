-- ===== src/Operator/Runs.antt =====
-- Which calls the two programs make, and how they end (upstream/slurm-operator/cmd).
use slinky_on_openshift.Prelude.{
  Bool, true, false, none, some, List, [], ◌∷◌, String, any, if◌then◌else◌,
}
use slinky_on_openshift.Exec.{message, ok, err, M}
use slinky_on_openshift.Operator.Runtime.{
  CommandLine, or_default, TlsConfig, ManagerOptions, Controller, Runtime, Exit, returned, failed,
}
use slinky_on_openshift.Operator.Controllers.{cluster_controller, nodeset_controller}
use slinky_on_openshift.Operator.Manager
use slinky_on_openshift.Operator.Webhook

-- the calls of the controller runtime
pub data Call : Type 0 where
  new_manager : ManagerOptions → Call
  complete : Controller → Call
  set_up_webhook healthz readyz : String → Call
  start : Call

abbrev attempt : (Call → Bool) → Call → M (List Call) (Unit {0})
attempt fails call calls = ((if fails call then err (message "failed") else ok tt), call ∷ calls)

-- a runtime that keeps its calls, the latest first, and in which some calls fail
abbrev pub logged : (Call → Bool) → Runtime (List Call)
logged fails = record {
  new_manager = λ options. attempt fails (new_manager options);
  complete = λ controller. attempt fails (complete controller);
  set_up_webhook = λ name. attempt fails (set_up_webhook name);
  add_healthz_check = λ name. attempt fails (healthz name);
  add_readyz_check = λ name. attempt fails (readyz name);
  start = attempt fails start;
}

-- calls in their order, up to the first that fails
abbrev pub until : (Call → Bool) → List Call → List Call → List Call
until fails [] calls = calls
until fails (call ∷ rest) calls =
    let all = until fails rest (call ∷ calls) in if fails call then call ∷ calls else all

abbrev pub exit_for : (Call → Bool) → List Call → Exit
exit_for fails calls = if any fails calls then failed else returned

-- without the flag for HTTP/2, a server is to negotiate HTTP/1.1 only
abbrev pub http1_unless : CommandLine → List (TlsConfig → TlsConfig)
http1_unless line =
    if or_default (line.bool "enable-http2") false
    then []
    else (λ c. record c { next_protos = "http/1.1" ∷ [] }) ∷ []

-- the metrics server of the manager stands on the default address; it has no webhook server
abbrev pub manager_settings : CommandLine → ManagerOptions
manager_settings line = record {
  metrics_bind_address = "";
  tls_opts = http1_unless line;
  webhook_tls_opts = none;
  health_probe_bind_address = or_default (line.text "health-probe-bind-address") ":8081";
  leader_election = or_default (line.bool "leader-elect") false;
  leader_election_id = "0033bda7.slinky.slurm.net";
  leader_election_release_on_cancel = true;
}

-- the webhook program has no metrics server
abbrev pub webhook_settings : CommandLine → ManagerOptions
webhook_settings line = record (manager_settings line) {
  metrics_bind_address = "0";
  webhook_tls_opts = some (http1_unless line);
}

abbrev pub manager_calls : CommandLine → List Call
manager_calls line =
    new_manager (manager_settings line)
    ∷ complete (cluster_controller line)
    ∷ complete (nodeset_controller line)
    ∷ healthz "healthz"
    ∷ readyz "readyz"
    ∷ start
    ∷ []

abbrev pub webhook_calls : CommandLine → List Call
webhook_calls line =
    new_manager (webhook_settings line)
    ∷ healthz "healthz"
    ∷ readyz "readyz"
    ∷ set_up_webhook "Cluster"
    ∷ set_up_webhook "NodeSet"
    ∷ start
    ∷ []

abbrev pub configured : List (TlsConfig → TlsConfig) → TlsConfig → TlsConfig
configured [] c = c
configured (option ∷ options) c = configured options (option c)

-- what the two programs negotiate: anything with the flag, and HTTP/1.1 without it
abbrev pub protocols : CommandLine → TlsConfig → List String
protocols line c =
    if or_default (line.bool "enable-http2") false then c.next_protos else "http/1.1" ∷ []
