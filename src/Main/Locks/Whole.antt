-- ===== src/Main/Locks/Whole.antt =====
-- Every event of a started program, as steps of the interleaved model of the lock.
use aergia_controller.Base.{String, ◌≡◌, refl, Bool, ℤ}
use aergia_controller.Stdlib.{Stdlib}
use aergia_controller.Kube.{Namespace, Deployment, Patch, Cluster}
use aergia_controller.Kube.Lawful.{IsLawful}
use aergia_controller.World.{World, patch_namespace}
use aergia_controller.World.Keeps.{
  IsPreorder, Keeps, Keeps-pure, Keeps-deref, Keeps-bind, Keeps-if, Keeps-modify,
}
use aergia_controller.Idler.Config.{Idler}
use aergia_controller.Idler.Service.{idle_deployment, patch_all_ingress, kubernetes_service_idler}
use aergia_controller.Idler.Service.Walk.{
  Keeps-read, patch_all_ingress-Keeps, kubernetes_service_idler-Keeps, service_idler-Keeps,
}
use aergia_controller.Idler.Cli.{scale_cli}
use aergia_controller.Idler.Cli.Walk.{cli_idler-Keeps}
use aergia_controller.Unidler.Config.{Request}
use aergia_controller.Unidler.Unidle.Locks.{
  LocksSame, LocksSame-IsPreorder, patch_deployment-LocksSame, patch_ingress-LocksSame,
  patch_namespace-LocksSame, count-LocksSame,
}
use aergia_controller.Unidler.Response.{Exchange, set_header, write_header, write}
use aergia_controller.Unidler.Handler.{start_unidle}
use aergia_controller.Unidler.Handler.Walk.{Within, IsKept}
use aergia_controller.Unidler.Handler.Whole.{allow_verified-Keeps, ingress_handler-Keeps}
use aergia_controller.Unidler.Handler.Locks.{world-write_header}
use aergia_controller.Unidler.Server.Walk.{serve_http-Keeps}
use aergia_controller.Unidler.Locking.{Steps}
use aergia_controller.Unidler.Locking.Interleavings.{locking, start_unidle-Steps}
use aergia_controller.Controllers.{reconcile}
use aergia_controller.Controllers.Walk.{reconcile-Keeps}
use aergia_controller.Main.{Task, run_cli_idler, run_service_idler, Program}
use aergia_controller.Main.Events.{
  run_task, after_request, Event, fires, requested, reconciled, unidled, Events, done, next,
}
use aergia_controller.Main.Locks.{
  Stepped, Stepped-IsPreorder, same-Stepped, unidle-Stepped, after_goroutine-Stepped,
}

module _ (K : Cluster) (L : Stdlib) (h : Idler) where
  P : IsPreorder (LocksSame K)
  P = LocksSame-IsPreorder K

  idle_deployment-LocksSame :
      (fi fs : Bool) (d : Deployment) → Keeps (LocksSame K) (idle_deployment K L h fi fs d)
  unfolding idle_deployment
  idle_deployment-LocksSame fi fs d =
      search
        (
          patch_deployment-LocksSame K,
          Keeps-pure P,
          Keeps-read K P,
          Keeps-deref P,
          Keeps-bind P,
          Keeps-if,
        )
        depth 10

  ingress-LocksSame : (ns : Namespace) → Keeps (LocksSame K) (patch_all_ingress K L h ns)
  ingress-LocksSame =
      patch_all_ingress-Keeps K L h P (patch_ingress-LocksSame K) (patch_namespace-LocksSame K)
        (count-LocksSame K)

  service-LocksSame :
      (ns : Namespace) (project : String) (fi fs : Bool)
      → Keeps (LocksSame K) (kubernetes_service_idler K L h ns project fi fs)
  service-LocksSame =
      kubernetes_service_idler-Keeps K L h P ingress-LocksSame idle_deployment-LocksSame

  scale_cli-LocksSame : (d : Deployment) → Keeps (LocksSame K) (scale_cli K h d)
  unfolding scale_cli
  scale_cli-LocksSame d =
      search (patch_deployment-LocksSame K, count-LocksSame K, Keeps-pure P, Keeps-bind P, Keeps-if)
        depth 9

module _ (K : Cluster) (L : Stdlib) (p : Program) where
  task-Stepped : (t : Task) (w : World K) → Stepped K w (run_task K L p t w).1
  unfolding run_task
  task-Stepped run_cli_idler w =
      same-Stepped K w _ (
        (cli_idler-Keeps K p.idler (LocksSame-IsPreorder K) (scale_cli-LocksSame K L p.idler)).at w)
  task-Stepped run_service_idler w = same-Stepped K w _ (
      (service_idler-Keeps K L p.idler (LocksSame-IsPreorder K) (ingress-LocksSame K L p.idler)
          (idle_deployment-LocksSame K L p.idler)).at
        w)

  patch_namespace-Stepped : (ns : String) (q : Patch) → Keeps (Stepped K) (patch_namespace K ns q)
  patch_namespace-Stepped ns q = record {
    at = λ w. same-Stepped K w _ ((patch_namespace-LocksSame K ns q).at w);
  }

  service-Stepped :
      (ns : Namespace) (project : String) (fi fs : Bool)
      → Keeps (Stepped K) (kubernetes_service_idler K L p.idler ns project fi fs)
  service-Stepped ns project fi fs = record {
    at = λ w. same-Stepped K w _ ((service-LocksSame K L p.idler ns project fi fs).at w);
  }

  reconcile-Stepped : (name : String) → Keeps (Stepped K) (reconcile K L p.idler name)
  reconcile-Stepped =
      reconcile-Keeps K L p.idler (Stepped-IsPreorder K) patch_namespace-Stepped service-Stepped
        (unidle-Stepped K)

  -- Of exchanges.
  abbrev R : Exchange K → Exchange K → Type 0
  R x y = Stepped K x.world y.world

  same_world : (w w' : World K) → w' ≡ w → Stepped K w w'
  same_world w w' e = same-Stepped K w w' (rw e (record { locks = refl; goroutines = refl }))

  R-IsKept : IsKept K L p.unidler R
  R-IsKept = record {
    order = record {
      reflexive = λ x. (Stepped-IsPreorder K).reflexive x.world;
      transitive = λ x y z. (Stepped-IsPreorder K).transitive x.world y.world z.world;
    };
    header = λ k v. unfold set_header in Keeps-modify _ (λ x. same_world x.world x.world refl);
    body = λ b. unfold write in Keeps-modify _ (λ x. same_world x.world x.world refl);
    counted = λ f. record { at = λ w r. same-Stepped K w _ ((count-LocksSame K f).at w) };
  }

  start-Stepped :
      (name : String) (ns : Namespace)
      → ns.name ≡ name
      → Keeps (Within K R) (start_unidle K L p.unidler name ns)
  start-Stepped name ns e = record {
    at = λ w r. rw (← e) (record { steps = start_unidle-Steps K L p.unidler ns w });
  }

  status-Stepped : (code : ℤ) → Keeps R (write_header K code)
  status-Stepped code = record {
    at = λ x. same_world x.world _ (world-write_header K L p.unidler code x);
  }

  module _ (law : IsLawful K) where
    request-Stepped :
        (path : String) (r : Request) (w : World K) → Stepped K w (after_request K L p path r w)
    unfolding after_request
    request-Stepped path r w =
        (serve_http-Keeps K L p.unidler R-IsKept.order R-IsKept.header R-IsKept.body r
            (ingress_handler-Keeps K L p.unidler R-IsKept r
              (λ name ns i e _ _.
                allow_verified-Keeps K L p.unidler R-IsKept name ns (start-Stepped name ns e))
              status-Stepped law.named)
            path).at
          _

    Event-Stepped : (v w : World K) → Event K L p v w → Stepped K v w
    Event-Stepped v _ (fires j _ m) = task-Stepped j.task v
    Event-Stepped v _ (requested path r _) = request-Stepped path r v
    Event-Stepped v _ (reconciled e name _ _) = (reconcile-Stepped name).at v
    Event-Stepped v _ (unidled ns _ m) = after_goroutine-Stepped K L p ns v m

    Events-Stepped : (u w : World K) → Events K L p u w → Stepped K u w
    Events-Stepped u _ (done _) = (Stepped-IsPreorder K).reflexive u
    Events-Stepped u _ (next _ v w before event) =
        (Stepped-IsPreorder K).transitive u v w (Events-Stepped u v before)
          (Event-Stepped v w event)

    -- What a started program does to the locks and the running unidlings, by any sequence of cron
    -- jobs, requests, reconciled namespaces and unidlings that end, each handled as a whole, is a
    -- sequence of steps of the interleaved model of the lock, if the cluster is lawful.
    pub Events-Steps : (u w : World K) → Events K L p u w → Steps (locking u) (locking w)
    Events-Steps u w events = (Events-Stepped u w events).steps
