-- ===== src/Lib.antt =====
-- A verification library for the aergia controller, which idles the environments of a Kubernetes
-- cluster that nobody visits and scales them up again at the first request.
--
-- The program and its parts. Two cron jobs idle environments. The service idler
-- (internal/handlers/idler/service.go and service-kubernetes.go) looks at every selected namespace; if
-- no build runs, the pods are old enough and Prometheus has counted no hits, it adds the code 503 and
-- a middleware to the ingresses, so that the ingress controller sends visitors to aergia, and scales the
-- deployments to zero, with their numbers of replicas saved in an annotation. The cli idler (cli.go and
-- cli-kubernetes.go) scales the cli deployments without cron jobs and processes to zero. The unidler
-- (internal/handlers/unidler) is the default backend of the ingress controller: its handler answers
-- visitors with a page, checks their addresses, agents and signature and starts a goroutine that scales
-- the namespace up and takes the ingress annotations back. The reconciler (internal/controllers) does
-- the one or the other where a label of a namespace asks for it.
--
-- The files.
--   Base, Strings     shared helpers: Boolean tests, maps of labels, and Go's Split, Join, Itoa, Atoi,
--                     ParseBool, hex and TrimSpace as far as the program uses them, with their laws.
--   Kube              the Kubernetes objects with the fields that the program reads or patches, and
--                     the record Cluster of all that it calls and does not implement: the API server,
--                     Prometheus, the clock, polling, exec. Kube.Lawful names what the theorems rely
--                     on: an accepted merge patch merges (RFC 7386) and a refused one changes nothing.
--                     A cluster of which this holds is called lawful.
--   Stdlib            regular expressions, durations, HMAC-SHA256, URLs, templates and the environment,
--                     as a record of functions.
--   World             the state: cluster, counters (internal/handlers/metrics/metrics.go), the keys of
--                     the lock map, the goroutines started. An action returns or panics.
--                     World.Keeps has a rule for each way to build actions, by which a relation of
--                     states before and after is proved of a whole handler; World.Changed applies it
--                     to deployments, and World.Each has loops over them
--                     or over ingresses.
--                     World.Returns has the rules by which an action does not panic, World.Leads those
--                     by which it returns with something known of the state behind it, and World.Ends
--                     those for what is known behind it however it ends.
--                     World.Registry is the registration of the metrics.
--   Idler             Config and Exec are handler.go, Helpers is helpers.go, Checks, Patches and Service
--                     are service.go and service-kubernetes.go, Cli is cli.go and cli-kubernetes.go.
--                     `service_idler` is ServiceIdler, `kubernetes_service_idler` is
--                     KubernetesServiceIdler, `idle_deployments` is idleDeployments,
--                     `patch_all_ingress` is patchIngress, `cli_idler` is CLIIdler, `kubernetes_cli` is
--                     kubernetesCLI, `exec_pod` is execPod.
--   Unidler           Helpers, Restrictions and Checks are the files of these names, Unidle is Unidle
--                     of unidler.go, Requests and Handler are handler.go, Response is the
--                     http.ResponseWriter. `ingress_handler` is ingressHandler, `verify_request` is
--                     verifyRequest, `generic_error` is genericError, `check_access` is checkAccess.
--                     Server is Run: its address and routes. Locking has the lock of a namespace as the steps of
--                     calls that overlap.
--   Controllers       `reconcile` is Reconcile of idling_controller.go, `watch` its SetupWithManager,
--                     with the filter of predicates.go.
--   Options           the flags of cmd/main.go, the environment over them, the options of the manager.
--   Main              `main` is main of cmd/main.go: the exits, and the parts and cron jobs that it starts
--                     with. Main.Events has what the started program then does, by events: a cron job
--                     fires, a request or an event of a namespace arrives, an unidling that a request has
--                     started runs.
--   Tests             a cluster in memory that satisfies the laws, and runs of the model on it.
-- The directories below a component hold its theorems, and Walk and Whole the traversal that they share.
--
-- Bounds. Numbers of replicas, codes and intervals are integers; Atoi has the range of a 64-bit int, and
-- the sum of hits wraps around at 64 bits. Every loop of the program is over a list and is structural
-- recursion, so there is no fuel, but for the digits of a number, where the fuel is above the number.
-- The poll of apimachinery is one step of the cluster.
--
-- Not modelled: log lines, but for the nil pointers that some of them read; the parsing of the command
-- line, whose result is an argument of `main`; a selectors file that holds null alone; a deployment
-- without a selector, which the API server refuses and hasRunningPod would panic on; the buckets of
-- the histogram; contexts and their timeouts; events that overlap, but for what they do to the lock
-- (Unidler.Locking): Handler and Main.Events have each event handled as a whole before the next one.
pub mod Base
pub mod Strings
pub mod Kube
pub mod World
pub mod Stdlib
pub mod Idler
pub mod Unidler
pub mod Controllers
pub mod Options
pub mod Main
pub mod Tests
