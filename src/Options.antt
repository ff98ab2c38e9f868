-- ===== src/Options.antt =====
-- cmd/main.go: the flags, the environment over them, and the options of the manager that they make.
use aergia_controller.Base.{
  String, Bool, true, false, not, List, [], ◌∷◌, ◌++◌, ℤ, pos, if◌then◌else◌,
}

-- The variables that `flag.Parse` fills.
pub record Flags : Type 0 where
  pub metrics_addr : String
  pub secure_metrics : Bool
  pub enable_http2 : Bool
  pub enable_leader_election : Bool
  pub debug : Bool
  pub refresh_interval : ℤ
  pub unidler_http_port : ℤ
  pub dry_run : Bool
  pub selectors_file : String
  pub skip_hit_check : Bool
  pub cli_cron : String
  pub service_cron : String
  pub prometheus_address : String
  pub prometheus_check_interval : String
  pub pod_check_interval : String
  pub enable_cli_idler : Bool
  pub enable_service_idler : Bool
  pub verified_unidling : Bool
  pub verified_secret : String
  pub default_http_response_code : ℤ

-- The defaults of the flags.
abbrev pub default_flags : Flags
default_flags = record {
  metrics_addr = "0";
  secure_metrics = true;
  enable_http2 = false;
  enable_leader_election = false;
  debug = false;
  refresh_interval = pos 30;
  unidler_http_port = pos 5000;
  dry_run = false;
  selectors_file = "resources/selectors.yaml";
  skip_hit_check = false;
  cli_cron = "5,35 * * * *";
  service_cron = "0 */4 * * *";
  prometheus_address = "http://monitoring-kube-prometheus-prometheus.monitoring.svc:9090";
  prometheus_check_interval = "4h";
  pod_check_interval = "4h";
  enable_cli_idler = true;
  enable_service_idler = true;
  verified_unidling = false;
  verified_secret = "super-secret-string";
  default_http_response_code = pos 404;
}

-- The helpers of machinery/utils/variables: the value of a variable of the environment, or else
-- the default that is given.
pub record Variables : Type 0 where
  pub get_env : String → String → String
  pub get_env_bool : String → Bool → Bool
  pub get_env_int : String → ℤ → ℤ

-- The environment over the flags.
unfoldable pub with_env : Variables → Flags → Flags
with_env v f = record f {
  selectors_file = v.get_env "SELECTORS_YAML_FILE" f.selectors_file;
  verified_unidling = v.get_env_bool "VERIFIED_UNIDLING" f.verified_unidling;
  verified_secret = v.get_env "VERIFY_SECRET" f.verified_secret;
  default_http_response_code =
      v.get_env_int "DEFAULT_HTTP_RESPONSE_CODE" f.default_http_response_code;
  dry_run = v.get_env_bool "DRY_RUN" f.dry_run;
  unidler_http_port = v.get_env_int "UNIDLER_PORT" f.unidler_http_port;
  cli_cron = v.get_env "CLI_CRON" f.cli_cron;
  service_cron = v.get_env "SERVICE_CRON" f.service_cron;
  enable_service_idler = v.get_env_bool "ENABLE_SERVICE_IDLER" f.enable_service_idler;
  enable_cli_idler = v.get_env_bool "ENABLE_CLI_IDLER" f.enable_cli_idler;
  pod_check_interval = v.get_env "POD_CHECK_INTERVAL" f.pod_check_interval;
  prometheus_address = v.get_env "PROMETHEUS_ADDRESS" f.prometheus_address;
  prometheus_check_interval = v.get_env "PROMETHEUS_CHECK_INTERVAL" f.prometheus_check_interval;
}

-- `tls.Config`, and the options that are applied to it.
pub record TlsConfig : Type 0 where
  pub next_protos : List String

unfoldable pub disable_http2 : TlsConfig → TlsConfig
disable_http2 c = record c { next_protos = "http/1.1" ∷ [] }

unfoldable pub new_tls_opts : Bool → List (TlsConfig → TlsConfig)
new_tls_opts enable_http2 = [] ++ (if not enable_http2 then disable_http2 ∷ [] else [])

-- `filtered` is a `FilterProvider`.
pub record MetricsOptions : Type 0 where
  pub bind_address : String
  pub secure_serving : Bool
  pub tls_opts : List (TlsConfig → TlsConfig)
  pub filtered : Bool

unfoldable pub metrics_server_options : Flags → MetricsOptions
unfolding new_tls_opts
metrics_server_options f = record {
  bind_address = f.metrics_addr;
  secure_serving = f.secure_metrics;
  tls_opts = new_tls_opts f.enable_http2;
  filtered = f.secure_metrics;
}

pub record ManagerOptions : Type 0 where
  pub metrics : MetricsOptions
  pub leader_election : Bool
  pub leader_election_id : String
