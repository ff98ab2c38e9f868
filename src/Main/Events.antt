-- ===== src/Main/Events.antt =====
-- What a started program does: its cron jobs fire, requests and namespaces to reconcile arrive, and
-- the unidlings that requests have started run. Each event is handled as a whole before the next.
use mathlib.Core.List.{Memᴰ}
use aergia_controller.Base.{String, ◌≡◌, some, List, [], ◌∷◌, ◌==◌, if◌then◌else◌}
use aergia_controller.Stdlib.{Stdlib}
use aergia_controller.Kube.{Namespace, Cluster}
use aergia_controller.World.{World, Action}
use aergia_controller.Idler.Service.{service_idler}
use aergia_controller.Idler.Cli.{cli_idler}
use aergia_controller.Unidler.Config.{Request}
use aergia_controller.Unidler.Unidle.{unidle}
use aergia_controller.Unidler.Response.{new_writer}
use aergia_controller.Unidler.Server.{serve_http}
use aergia_controller.Controllers
use aergia_controller.Controllers.{watch, reconcile}
use aergia_controller.Main.{Task, run_cli_idler, run_service_idler, Job, Program}

-- One goroutine of the namespace is at its end.
unfoldable pub drop_goroutine : String → List Namespace → List Namespace
drop_goroutine name [] = []
drop_goroutine name (g ∷ gs) =
    let rest = drop_goroutine name gs in if g.name == name then gs else g ∷ rest

module _ (K : Cluster) (L : Stdlib) (p : Program) where
  -- The function that a cron job calls.
  unfoldable pub run_task : Task → Action (World K) (Unit {0})
  run_task run_cli_idler = cli_idler K p.idler
  run_task run_service_idler = service_idler K L p.idler

  -- A request, with the world behind its answer.
  unfoldable pub after_request : String → Request → World K → World K
  after_request url_path r w =
      (serve_http K L p.unidler url_path r (record { world = w; writer = new_writer })).1.world

  -- A goroutine runs to its end.
  unfoldable pub after_goroutine : Namespace → World K → World K
  after_goroutine ns w =
      let w' = (unidle K ns w).1 in record w' { goroutines = drop_goroutine ns.name w'.goroutines }

  pub data Event : World K → World K → Type 0 where
    fires : (j : Job) (w : World K) → Memᴰ j p.jobs → Event w (run_task j.task w).1
    requested :
        (url_path : String) (r : Request) (w : World K) → Event w (after_request url_path r w)
    reconciled :
        (e : Controllers.Event) (name : String) (w : World K)
        → watch e name ≡ some name
        → Event w (reconcile K L p.idler name w).1
    unidled : (ns : Namespace) (w : World K) → Memᴰ ns w.goroutines → Event w (after_goroutine ns w)

  pub data Events : World K → World K → Type 0 where
    done : (w : World K) → Events w w
    next : (u v w : World K) → Events u v → Event v w → Events u w
