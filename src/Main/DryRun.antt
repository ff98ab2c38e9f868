-- ===== src/Main/DryRun.antt =====
-- A program that is started for a dry run.
use aergia_controller.Base.{String, ◌≡◌, refl, ◌∙◌, ap, Bool, true, inl, arith}
use aergia_controller.Stdlib.{Stdlib}
use aergia_controller.Kube.{Namespace, Result, Cluster}
use aergia_controller.Kube.Lawful.{IsLawful}
use aergia_controller.World.{World}
use aergia_controller.World.Keeps.{Keeps, Keeps-modify}
use aergia_controller.World.Changed.{Changed, Changed-IsPreorder, patch_namespace-Changed}
use aergia_controller.Idler.Service.{kubernetes_service_idler}
use aergia_controller.Idler.Service.DryRun.{service_idler_dry, kubernetes_service_idler_dry}
use aergia_controller.Idler.Cli.OnlyScales.{cli_idler_dry}
use aergia_controller.Unidler.Config.{Request}
use aergia_controller.Unidler.Unidle.{unidle}
use aergia_controller.Unidler.Unidle.OnlyUnidles.{IsUnidled, unidle-Changed}
use aergia_controller.Unidler.Response.{Exchange, new_writer, set_header, write}
use aergia_controller.Unidler.Server.{serve_http}
use aergia_controller.Unidler.Server.Walk.{serve_http-Keeps}
use aergia_controller.Unidler.Handler.Locks.{ingress_handler_locks}
use aergia_controller.Controllers.Walk.{reconcile-Keeps}
use aergia_controller.Options.{Flags, Variables}
use aergia_controller.Main.{Platform, Task, run_cli_idler, run_service_idler, Program, ran, main}
use aergia_controller.Main.Events.{
  run_task, after_request, after_goroutine, Event, fires, requested, reconciled, unidled, Events,
  done, next,
}

-- The flag, with the variable of the environment over it.
dry_run-main :
    (L : Stdlib) (P : Platform) (v : Variables) (flags : Flags) (p : Program)
    → main L P v flags ≡ ran p
    → p.idler.dry_run ≡ v.get_env_bool "DRY_RUN" flags.dry_run
unfolding main
dry_run-main L P v flags p e = ground arith

module _ (K : Cluster) (law : IsLawful K)
    (quiet : (condition : K.State → Result Bool) (s : K.State) (ns name : String)
      → K.get_deployment (K.poll condition s).0 ns name ≡ K.get_deployment s ns name)
    (L : Stdlib) (p : Program) where
  abbrev R : World K → World K → Type 0
  R = Changed K IsUnidled

  same-Changed : (w w' : World K) → w'.cluster ≡ w.cluster → R w w'
  same-Changed w w' e = record { at = λ ns name. inl (ap (λ c. K.get_deployment c ns name) e) }

  abbrev ClusterSame : Exchange K → Exchange K → Type 0
  ClusterSame x y = y.world.cluster ≡ x.world.cluster

  served-Same :
      (url_path : String) (r : Request) → Keeps ClusterSame (serve_http K L p.unidler url_path r)
  served-Same url_path r =
      serve_http-Keeps K L p.unidler {R = ClusterSame}
        (record { reflexive = λ x. refl; transitive = λ x y z e f. f ∙ e })
        (λ k v. unfold set_header in Keeps-modify _ (λ x. refl))
        (λ b. unfold write in Keeps-modify _ (λ x. refl)) r
        (λ path. record { at = λ x. (ingress_handler_locks K L p.unidler law path r x).0 }) url_path

  pub request-Changed :
      (url_path : String) (r : Request) (w : World K) → R w (after_request K L p url_path r w)
  unfolding after_request
  request-Changed url_path r w =
      same-Changed w _ ((served-Same url_path r).at (record { world = w; writer = new_writer }))

  unidle-Keeps : (ns : Namespace) → Keeps R (unidle K ns)
  unidle-Keeps ns = record { at = unidle-Changed K law quiet ns }

  module _ (dry : p.idler.dry_run ≡ true) where
    service-Changed :
        (ns : Namespace) (project : String) (fi fs : Bool)
        → Keeps R (kubernetes_service_idler K L p.idler ns project fi fs)
    service-Changed ns project fi fs = record {
      at = λ w.
          same-Changed w _
            (ap World.cluster (kubernetes_service_idler_dry K L p.idler dry ns project fi fs w));
    }

    task-Changed : (t : Task) (w : World K) → R w (run_task K L p t w).1
    unfolding run_task
    task-Changed run_cli_idler w =
        same-Changed w _ (ap World.cluster (cli_idler_dry K p.idler w dry))
    task-Changed run_service_idler w =
        same-Changed w _ (ap World.cluster (service_idler_dry K L p.idler dry w))

    Event-Changed : (v w : World K) → Event K L p v w → R v w
    Event-Changed v _ (fires j _ m) = task-Changed j.task v
    Event-Changed v _ (requested path r _) = request-Changed path r v
    Event-Changed v _ (reconciled e name _ _) =
        (reconcile-Keeps K L p.idler (Changed-IsPreorder K IsUnidled)
            (patch_namespace-Changed K IsUnidled law) service-Changed unidle-Keeps name).at
          v
    Event-Changed v _ (unidled ns _ m) =
        let whole = unidle-Changed K law quiet ns v in
        unfold after_goroutine in record { at = whole.at }

    Events-Changed : (u w : World K) → Events K L p u w → R u w
    Events-Changed u _ (done _) = (Changed-IsPreorder K IsUnidled).reflexive u
    Events-Changed u _ (next _ v w before event) =
        (Changed-IsPreorder K IsUnidled).transitive u v w (Events-Changed u v before)
          (Event-Changed v w event)

  -- A program that is started with its flag of a dry run set, or the variable DRY_RUN over it,
  -- idles nothing: whatever sequence of cron jobs, requests, reconciled namespaces and unidlings it
  -- handles, one after another, over a lawful cluster, each deployment is as it was or was unidled,
  -- if nothing else changes deployments while it polls.
  pub main_dry :
      (P : Platform) (v : Variables) (flags : Flags)
      → main L P v flags ≡ ran p
      → v.get_env_bool "DRY_RUN" flags.dry_run ≡ true
      → (u w : World K) → Events K L p u w
      → Changed K IsUnidled u w
  main_dry P v flags e dry = Events-Changed (dry_run-main L P v flags p e ∙ dry)
