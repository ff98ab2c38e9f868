-- ===== src/Tests/Starting.antt =====
-- A program that is started, and some of what it then does.
use mathlib.Core.List.{Memᴰ}
use aergia_controller.Base.{
  ℕ, ◌≡◌, ◌↔◌, refl, sym, Bool, Bool-cases, inl, inr, lookup, true, false, none, some, [], ◌∷◌, pos,
  ◌==◌, if◌then◌else◌,
}
use aergia_controller.Kube.{Deployment, ok, err}
use aergia_controller.World.{World}
use aergia_controller.World.Changed.{Changed}
use aergia_controller.Unidler.Unidle.OnlyUnidles.{IsUnidled}
use aergia_controller.Unidler.Locking.{Steps}
use aergia_controller.Unidler.Locking.Interleavings.{locking}
use aergia_controller.Controllers
use aergia_controller.Controllers.{watch, reconcile}
use aergia_controller.Options.{default_flags, Variables}
use aergia_controller.Main.{Platform, run_cli_idler, run_service_idler, Program, refused, ran, main}
use aergia_controller.Main.Settings.{HasFault, main_refused}
use aergia_controller.Main.Events.{
  run_task, after_request, fires, requested, reconciled, done, next,
}
use aergia_controller.Main.DryRun.{main_dry}
use aergia_controller.Main.Restorable.{IsRestorable, AllRestorable, Events-AllRestorable}
use aergia_controller.Main.Locks.Whole.{Events-Steps}
use aergia_controller.Tests.Memory.{find, deployment_at, memory}
use aergia_controller.Tests.Memory.Laws.{memory-IsLawful}
use aergia_controller.Tests.Samples.{stdlib, nginx, world, idler, dry_idler, request}

-- Only the variable of a dry run is set.
abbrev variables : Variables
variables = record {
  get_env = λ k d. d;
  get_env_bool = λ k d. if k == "DRY_RUN" then true else d;
  get_env_int = λ k d. d;
}

abbrev platform : Platform
platform = record {
  open_file = λ f.
      if f == "resources/selectors.yaml"
      then ok "labels: {}"
      else if f == "/lists/blockedagents"
      then ok "bot\n"
      else err "no such file";
  decode = λ t. ok idler.selectors;
  new_manager = λ o. none;
  new_client = λ a. none;
  add_func = λ s. none;
  setup_with_manager = none;
  start_manager = none;
  listen_and_serve = λ a. some "server closed";
}

abbrev program : Program
program = record {
  unidler = record {
    refresh_interval = pos 30;
    unidler_http_port = pos 5000;
    debug = false;
    verified_unidling = false;
    verified_secret = "super-secret-string";
    allowed_user_agents = none;
    blocked_user_agents = some ("bot" ∷ []);
    allowed_ips = none;
    blocked_ips = none;
    default_http_response_code = pos 404;
  };
  idler = dry_idler;
  jobs =
      record { schedule = "5,35 * * * *"; task = run_cli_idler }
      ∷ record { schedule = "0 */4 * * *"; task = run_service_idler }
      ∷ [];
}

started : main stdlib platform variables default_flags ≡ ran program
unfolding main ◌==◌
started = refl

-- No file can be opened.
abbrev bare : Platform
bare = record platform { open_file = λ f. err "no such file" }

main_refused_example :
    (main stdlib bare variables default_flags ≡ refused 1)
    ↔ ((◌≡◌ {A = ℕ} 1 1) × HasFault stdlib bare variables default_flags)
main_refused_example = main_refused stdlib bare variables default_flags 1

abbrev after_job : World memory
after_job = (run_task memory stdlib program run_service_idler world).1

main_dry_example :
    Changed memory IsUnidled world (reconcile memory stdlib dry_idler "main" after_job).1
main_dry_example =
    main_dry memory memory-IsLawful (λ c s ns name. refl) stdlib program platform variables
      default_flags started (unfold ◌==◌ in refl) world _
      (next world after_job _
        (next world world after_job (done world) (
          fires (record { schedule = "0 */4 * * *"; task = run_service_idler }) world
            (Memᴰ.tail (Memᴰ.head refl))))
        (reconciled Controllers.update "main" after_job (unfold watch in refl)))

Events-Steps_example :
    Steps (locking world) (locking (after_request memory stdlib program "/" request world))
Events-Steps_example =
    Events-Steps memory stdlib program memory-IsLawful world _
      (next world world _ (done world) (requested "/" request world))

-- The same program, not for a dry run.
abbrev idling_program : Program
idling_program = record program { idler = idler }

found_nginx : (is : Deployment → Bool) (d : Deployment) → find is (nginx ∷ []) ≡ ok d → nginx ≡ d
unfolding find
found_nginx is d e = elim (Bool-cases (is nginx)) [
  | inl f ↦ cc (rw f at e)
  | inr f ↦ absurd (cc (rw f at e))
]

nginx-IsRestorable : IsRestorable nginx
unfolding lookup ◌==◌
nginx-IsRestorable e = absurd (cc)

world-AllRestorable : AllRestorable memory world
world-AllRestorable = record {
  at = λ ns name d e. rw (sym (found_nginx (deployment_at ns name) d e)) nginx-IsRestorable;
}

abbrev after_pass : World memory
after_pass = (run_task memory stdlib idling_program run_service_idler world).1

Events-AllRestorable_example :
    AllRestorable memory (reconcile memory stdlib idler "main" after_pass).1
Events-AllRestorable_example =
    Events-AllRestorable memory memory-IsLawful (λ c s ns name. refl) stdlib idling_program world _
      (next world after_pass _
        (next world world after_pass (done world) (
          fires (record { schedule = "0 */4 * * *"; task = run_service_idler }) world
            (Memᴰ.tail (Memᴰ.head refl))))
        (reconciled Controllers.update "main" after_pass (unfold watch in refl)))
      world-AllRestorable
