-- ===== src/World/Registry.antt =====
-- The registration of the metrics of internal/handlers/metrics/metrics.go when the program is loaded.
use aergia_controller.Base.{
  String, ◌<>◌, ◌≡◌, refl, List, [], ◌∷◌, ◌++◌, map, ◌==◌, contains, if◌then◌else◌,
}
use aergia_controller.World.{returned, Action, modify, gets, panic, ◌>>=◌, ◌>>◌, for_each}

-- A collector under its whole name, with the names of its labels.
pub record Collector : Type 0 where
  pub fq_name : String
  pub labels : List String

-- The names that are registered: with the default registry of the Prometheus client, and with that
-- of controller-runtime, which is the one that is served.
pub record Registries : Type 0 where
  pub client : List String
  pub runtime : List String

-- `BuildFQName` of a name with a namespace and a subsystem.
abbrev http_name : String → String
http_name name = "default_http_backend_http_" <> name

abbrev counter : String → Collector
counter name = record { fq_name = name; labels = [] }

abbrev request_counter : Collector
request_counter = record { fq_name = http_name "request_count_total"; labels = "proto" ∷ [] }

abbrev request_histogram : Collector
request_histogram = record {
  fq_name = http_name "request_duration_milliseconds";
  labels = "proto" ∷ [];
}

-- The counters that are made by `promauto`, in the order of the file.
abbrev auto_counters : List Collector
auto_counters =
    counter "aergia_allowed_requests"
    ∷ counter "aergia_verification_requests"
    ∷ counter "aergia_verification_required_requests"
    ∷ counter "aergia_blocked_by_block_list"
    ∷ counter "aergia_no_namespace"
    ∷ counter "aergia_unidling_events"
    ∷ counter "aergia_idling_events"
    ∷ counter "aergia_cli_idling_events"
    ∷ []

-- A name that is registered already makes `MustRegister` panic.
unfoldable pub register_client : Collector → Action Registries (Unit {0})
register_client c = do
  there ← gets (λ r. contains r.client c.fq_name)
  if there
      then panic "duplicate metrics collector registration attempted"
      else modify (λ r. record r { client = r.client ++ c.fq_name ∷ [] })

unfoldable pub register_runtime : Collector → Action Registries (Unit {0})
register_runtime c = do
  there ← gets (λ r. contains r.runtime c.fq_name)
  if there
      then panic "duplicate metrics collector registration attempted"
      else modify (λ r. record r { runtime = r.runtime ++ c.fq_name ∷ [] })

-- The package is loaded: `promauto` registers its counters with the client, and `init` all of them
-- with controller-runtime.
unfoldable pub load_metrics : Action Registries (Unit {0})
unfolding register_client register_runtime
load_metrics = do
  for_each auto_counters register_client
  for_each (request_counter ∷ request_histogram ∷ auto_counters) register_runtime

-- Nothing is registered twice where the names are free.
test_load_metrics : load_metrics (record { client = []; runtime = [] }) ≡ (
  returned tt,
  record {
    client = map Collector.fq_name auto_counters;
    runtime = map Collector.fq_name (request_counter ∷ request_histogram ∷ auto_counters);
  },
)
unfolding load_metrics for_each ◌>>=◌ ◌==◌
test_load_metrics = refl
