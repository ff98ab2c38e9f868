-- ===== src/Tests/Samples.antt =====
-- What the runs start from.
use aergia_controller.Base.{true, false, none, some, List, [], ◌∷◌, pos, ◌==◌, if◌then◌else◌}
use aergia_controller.Stdlib.{Stdlib}
use aergia_controller.Kube.{Namespace, Deployment, Pod, Ingress}
use aergia_controller.World.{Metrics, World}
use aergia_controller.Idler.Config.{IdlerSelector, Idler}
use aergia_controller.Unidler.Config.{Unidler, Request}
use aergia_controller.Unidler.Response.{Exchange, new_writer}
use aergia_controller.Tests.Memory.{Store, memory}

-- A pattern matches itself, and the code of a message is one byte.
abbrev pub stdlib : Stdlib
stdlib = record {
  match_string = λ p a. some (p == a);
  parse_duration = λ s. if s == "4h" then some (pos 14400000000000) else none;
  duration_string = λ d. "4h0m0s";
  hmac_sha256 = λ secret msg. if msg == "main" then 171 ∷ [] else 18 ∷ [];
  url_hostname = λ u. if u == "bad" then none else some "example.com";
  status_text = λ c. "Forbidden";
  template_error = λ f. none;
  getenv = λ k. "";
}

abbrev pub no_metrics : Metrics
no_metrics = record {
  request_count = λ p. 0;
  request_duration = [];
  allowed_requests = 0;
  verification_requests = 0;
  verification_required = 0;
  blocked_requests = 0;
  no_namespace_requests = 0;
  unidle_events = 0;
  service_idle_events = 0;
  cli_idle_events = 0;
}

abbrev pub main_namespace : Namespace
main_namespace = record {
  name = "main";
  labels =
      ("idling.amazee.io/force-scaled", "true")
      ∷ ("project-idle", "1")
      ∷ ("environment-idle", "1")
      ∷ ("environment-type", "development")
      ∷ [];
  annotations = [];
}

abbrev pub nginx : Deployment
nginx = record {
  namespace = "main";
  name = "nginx";
  labels = ("idling.amazee.io/watch", "true") ∷ [];
  annotations = [];
  replicas = some (pos 3);
  match_labels = [];
  containers = record { env = ("CRONJOBS", "* * * * * drush cron") ∷ [] } ∷ [];
}

-- As the idler leaves it.
abbrev pub idled_nginx : Deployment
idled_nginx = record nginx {
  labels = ("idling.amazee.io/watch", "true") ∷ ("idling.amazee.io/idled", "true") ∷ [];
  annotations = ("idling.amazee.io/unidle-replicas", "3") ∷ [];
  replicas = some (pos 0);
}

abbrev pub main_ingress : Ingress
main_ingress = record {
  namespace = "main";
  name = "nginx";
  labels = [];
  annotations =
      ("nginx.ingress.kubernetes.io/custom-http-errors", "404")
      ∷ ("idling.amazee.io/ip-block-list", "10.0.0.9")
      ∷ [];
  hosts = "example.com" ∷ [];
}

abbrev pub build : Pod
build = record { namespace = "main"; name = "lagoon-build"; phase = "Running"; start_time = none }

-- One namespace with a deployment and an ingress, and the pods that are given.
abbrev pub store_of : Deployment → List Pod → Store
store_of d pods = record {
  namespaces = main_namespace ∷ [];
  deployments = d ∷ [];
  ingresses = main_ingress ∷ [];
  pods = pods;
  output = "0\n";
  clock = 86400000000000;
}

abbrev pub world_of : Store → World memory
world_of s = record { cluster = s; metrics = no_metrics; locks = []; goroutines = [] }

abbrev pub world : World memory
world = world_of (store_of nginx [])

abbrev pub building_world : World memory
building_world = world_of (store_of nginx (build ∷ []))

abbrev pub idled_world : World memory
idled_world = record (world_of (store_of idled_nginx [])) { locks = "main" ∷ "dev" ∷ [] }

abbrev pub selector : IdlerSelector
selector = record { name = "idling.amazee.io/watch"; operator = "="; values = "true" ∷ [] }

abbrev pub idler : Idler
idler = record {
  pod_check_interval = pos 14400000000000;
  dry_run = false;
  debug = false;
  selectors = record {
    labels = record {
      project_name = "project";
      environment_name = "environment";
      project_idling = "project-idle";
      environment_idling = "environment-idle";
      environment_type = "environment-type";
    };
    service_name = "lagoon.sh/service";
    cli = record {
      skip_build_check = false;
      skip_cron_check = false;
      skip_process_check = false;
      namespace = [];
      builds = [];
      deployments = [];
      pods = [];
    };
    service = record {
      skip_build_check = false;
      skip_hit_check = false;
      skip_ingress_patch = false;
      namespace = [];
      builds = [];
      deployments = selector ∷ [];
      pods = [];
      ingress = [];
    };
  };
  prometheus_check_interval = pos 14400000000000;
}

abbrev pub dry_idler : Idler
dry_idler = record idler { dry_run = true }

abbrev pub unidler : Unidler
unidler = record {
  refresh_interval = pos 30;
  unidler_http_port = pos 5000;
  debug = false;
  verified_unidling = true;
  verified_secret = "secret";
  allowed_user_agents = none;
  blocked_user_agents = some ("bot" ∷ []);
  allowed_ips = none;
  blocked_ips = none;
  default_http_response_code = pos 503;
}

-- A request with the name of its namespace signed.
abbrev pub request : Request
request = record {
  headers =
      ("X-Namespace", "main")
      ∷ ("X-Ingress-Name", "nginx")
      ∷ ("X-Code", "503")
      ∷ ("User-Agent", "browser")
      ∷ ("X-Aergia-Verifier", "AB")
      ∷ [];
  query = [];
  proto_major = pos 1;
  proto_minor = pos 1;
}

abbrev pub exchange : Exchange memory
exchange = record { world = world; writer = new_writer }
