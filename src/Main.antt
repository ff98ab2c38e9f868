-- ===== src/Main.antt =====
-- cmd/main.go: what makes the program exit before it runs, and the
-- unidler, the idler and the cron jobs that it runs with. Log lines are left out.
pub mod Settings
pub mod Events
pub mod DryRun
pub mod Restorable
pub mod Visits
pub mod Locks
use aergia_controller.Base.{
  ℕ, ◌≡◌, String, ◌<>◌, Bool, true, false, not, Option, none, some, List, [], ◌∷◌, ◌++◌, ℤ, pos,
  if◌then◌else◌,
}
use aergia_controller.Stdlib.{Stdlib}
use aergia_controller.Kube.{Result, ok, err}
use aergia_controller.Options.{Flags, Variables, with_env, ManagerOptions, metrics_server_options}
use aergia_controller.World.{on_reply, on_error}
use aergia_controller.Idler.Config.{Selectors, Idler}
use aergia_controller.Unidler.Config.{Unidler}
use aergia_controller.Unidler.Server.{run}
use aergia_controller.Unidler.Helpers.{read_slice_from_file}

-- The interval; what does not parse is taken for a number of hours.
unfoldable pub parse_pod_check_interval : Stdlib → String → Option ℤ
parse_pod_check_interval L interval = elim (L.parse_duration interval) [
  | some d ↦ some d
  | none ↦ L.parse_duration (interval <> "h")
]

-- What the program calls and does not implement. `open_file` gives the content of a file, or the
-- error of opening it; `decode` reads YAML, and is taken to give an error for a null document;
-- `add_func` gives the error for a cron definition, if there is one. Of the other calls there is
-- only the error that they may give: that of `new_manager` includes that of `GetConfigOrDie`, which
-- exits with status 1 as well.
pub record Platform : Type 0 where
  pub open_file : String → Result String
  pub decode : String → Result Selectors
  pub new_manager : ManagerOptions → Option String
  pub new_client : String → Option String
  pub add_func : String → Option String
  pub setup_with_manager : Option String
  pub start_manager : Option String
  pub listen_and_serve : String → Option String

pub data Task : Type 0 where
  run_cli_idler : Task
  run_service_idler : Task

pub record Job : Type 0 where
  pub schedule : String
  pub task : Task

-- What runs once the cron jobs are started.
pub record Program : Type 0 where
  pub unidler : Unidler
  pub idler : Idler
  pub jobs : List Job

-- A step of the start gives a value, or the program exits with a status.
pub data Start {ℓ} (A : Type ℓ) : Type ℓ where
  goes : A → Start A
  exits : ℕ → Start A

infixl 5 ◌>>=◌
abbrev pub ◌>>=◌ {ℓ κ} : {A : Type ℓ} {B : Type κ} → Start A → (A → Start B) → Start B
goes a >>= f = f a
exits n >>= f = exits n

-- `if err != nil { …; os.Exit(1) }`
abbrev or_exit {ℓ} : {A : Type ℓ} → Option A → Start A
or_exit (some a) = goes a
or_exit none = exits 1

abbrev exit_on : Option String → Start (Unit {0})
exit_on none = goes tt
exit_on (some e) = exits 1

abbrev to_option {ℓ} : {A : Type ℓ} → Result A → Option A
to_option (ok a) = some a
to_option (err e) = none

unfoldable pub read_selectors : Platform → String → Result Selectors
unfolding on_reply
read_selectors P selectors_file =
    on_reply (P.open_file selectors_file)
      (λ file. on_reply (P.decode file) (λ selectors. ok selectors) (λ e. err e)) (λ e. err e)

-- The flag turns the check off; it does not turn it on.
unfoldable pub override_hit_check : Bool → Selectors → Selectors
override_hit_check skip_hit_check s =
    if skip_hit_check
    then record s { service = record s.service { skip_hit_check = skip_hit_check } }
    else s

-- A list file; nil if it cannot be read.
unfoldable pub read_list : Platform → String → Option (List String)
unfolding read_slice_from_file
read_list P path = read_slice_from_file (to_option (P.open_file path))

unfoldable pub new_unidler : Platform → Flags → Unidler
unfolding read_list
new_unidler P f = record {
  refresh_interval = f.refresh_interval;
  unidler_http_port = f.unidler_http_port;
  debug = f.debug;
  verified_unidling = f.verified_unidling;
  verified_secret = f.verified_secret;
  allowed_user_agents = read_list P "/lists/allowedagents";
  blocked_user_agents = read_list P "/lists/blockedagents";
  allowed_ips = read_list P "/lists/allowedips";
  blocked_ips = read_list P "/lists/blockedips";
  default_http_response_code = f.default_http_response_code;
}

-- A job whose definition cannot be read is logged and left out.
unfoldable pub add_job : Platform → Bool → String → Task → List Job
unfolding on_error
add_job P enabled schedule task =
    if enabled
    then on_error (P.add_func schedule) (λ _. []) (record { schedule = schedule; task = task } ∷ [])
    else []

unfoldable pub cron_jobs : Platform → Flags → List Job
unfolding add_job
cron_jobs P f =
    add_job P f.enable_cli_idler f.cli_cron run_cli_idler
    ++ add_job P f.enable_service_idler f.service_cron run_service_idler

-- All that comes before the cron jobs are started.
unfoldable pub prepare : Stdlib → Platform → Flags → Start Program
unfolding parse_pod_check_interval read_selectors override_hit_check metrics_server_options
    new_unidler cron_jobs
prepare L P f = do
  pod_check_interval ← or_exit (parse_pod_check_interval L f.pod_check_interval)
  prometheus_check_interval ← or_exit (L.parse_duration f.prometheus_check_interval)
  selectors ← or_exit (to_option (read_selectors P f.selectors_file))
  _ ← exit_on (
      P.new_manager (record {
        metrics = metrics_server_options f;
        leader_election = f.enable_leader_election;
        leader_election_id = "aergia-unidler-leader-election-helper";
      }))
  _ ← exit_on (P.new_client f.prometheus_address)
  goes (record {
    unidler = new_unidler P f;
    idler = record {
      pod_check_interval = pod_check_interval;
      dry_run = f.dry_run;
      debug = f.debug;
      selectors = override_hit_check f.skip_hit_check selectors;
      prometheus_check_interval = prometheus_check_interval;
    };
    jobs = cron_jobs P f;
  })

-- How the start ends: with a status, or with the cron jobs and the unidler started.
pub data Ending : Type 0 where
  refused : ℕ → Ending
  ran : Program → Ending

-- After the start of the cron jobs.
unfoldable pub manage : Platform → ℕ
unfolding on_error
manage P = on_error P.setup_with_manager (λ _. 1) (on_error P.start_manager (λ _. 1) 0)

-- The status of a program that has been started: that of the manager, or that of the server where
-- it cannot listen, whichever ends first.
pub data Exits (P : Platform) (p : Program) : ℕ → Type 0 where
  managed : Exits P p (manage P)
  unserved : (status : ℕ) → run P.listen_and_serve p.unidler ≡ some status → Exits P p status

unfoldable pub main : Stdlib → Platform → Variables → Flags → Ending
unfolding prepare with_env
main L P v flags = elim (prepare L P (with_env v flags)) [
  | exits status ↦ refused status
  | goes program ↦ ran program
]
