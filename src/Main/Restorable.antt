-- ===== src/Main/Restorable.antt =====
-- What is always known of a deployment that is labelled as idled.
use aergia_controller.Base.{String, ◌≡◌, refl, sym, ◌∙◌, Bool, some, inl, inr, pos, ◌==◌, lookup}
use aergia_controller.Stdlib.{Stdlib}
use aergia_controller.Kube.{Namespace, Deployment, Patch, Result, ok, Cluster}
use aergia_controller.Kube.Lawful.{IsLawful}
use aergia_controller.World.{World, patch_namespace}
use aergia_controller.World.Keeps.{IsPreorder, Keeps}
use aergia_controller.World.Changed.{ChangedAt, Changed, patch_namespace-Changed}
use aergia_controller.Idler.Service.{kubernetes_service_idler}
use aergia_controller.Idler.Service.OnlyIdles.{
  IsIdled, service_idler-Changed, kubernetes_service_idler-Changed,
}
use aergia_controller.Idler.Cli.OnlyScales.{ScaledAt, OnlyScaled, cli_idler-OnlyScaled}
use aergia_controller.Unidler.Unidle.{unidle}
use aergia_controller.Unidler.Unidle.RoundTrip.{idled_key}
use aergia_controller.Unidler.Unidle.OnlyUnidles.{IsUnidled, unidle-Changed}
use aergia_controller.Controllers.Acts.{differ}
use aergia_controller.Controllers.Walk.{reconcile-Keeps}
use aergia_controller.Main.{Task, run_cli_idler, run_service_idler, Program}
use aergia_controller.Main.Events.{
  run_task, after_goroutine, Event, fires, requested, reconciled, unidled, Events, done, next,
}
use aergia_controller.Main.DryRun.{request-Changed}

-- A deployment that is labelled as idled is idled: scaled to zero, found by the unidler, and with a
-- number of replicas to go back to.
abbrev pub IsRestorable : Deployment → Type 0
IsRestorable d = lookup idled_key d.labels ≡ some "true" → IsIdled d

unidled-IsRestorable : (d : Deployment) → IsUnidled d → IsRestorable d
unfolding ◌==◌
unidled-IsRestorable d u e = absurd (differ "false" "true" refl (sym u.unidled ∙ e))

scaled-IsRestorable :
    (d : Deployment) → IsRestorable d → IsRestorable (record d { replicas = some (pos 0) })
scaled-IsRestorable d r e =
    let i = r e in record { scaled = refl; watched = i.watched; idled = i.idled; saved = i.saved }

module _ (K : Cluster) where
  pub record AllRestorable (w : World K) : Type 0 where
    pub at :
        (ns name : String) (d : Deployment)
        → K.get_deployment w.cluster ns name ≡ ok d
        → IsRestorable d

  -- The invariant goes from one state to the other.
  record StaysRestorable (w w' : World K) : Type 0 where
    step : AllRestorable w → AllRestorable w'

  StaysRestorable-IsPreorder : IsPreorder StaysRestorable
  StaysRestorable-IsPreorder = record {
    reflexive = λ w. record { step = λ a. a };
    transitive = λ u v w p q. record { step = λ a. q.step (p.step a) };
  }

  read_as : (d e : Deployment) (r : Result Deployment) → r ≡ ok d → r ≡ ok e → d ≡ e
  read_as d e r p q = cc

  Changed-StaysRestorable :
      (Q : Deployment → Type 0) (w w' : World K)
      → ((d : Deployment) → Q d → IsRestorable d)
      → Changed K Q w w'
      → StaysRestorable w w'
  Changed-StaysRestorable Q w w' made c = record {
    step = λ a. record { at = λ ns name d e. by_change a ns name d e (c.at ns name) };
  }
    where
      by_change :
          AllRestorable w
          → (ns name : String) (d : Deployment) → K.get_deployment w'.cluster ns name ≡ ok d
          → ChangedAt K Q w.cluster w'.cluster ns name
          → IsRestorable d
      by_change a ns name d e (inl same) = a.at ns name d (sym same ∙ e)
      by_change a ns name d e (inr (d', f, q)) =
          rw (sym (read_as d' d (K.get_deployment w'.cluster ns name) f e)) (made d' q)

  OnlyScaled-StaysRestorable : (w w' : World K) → OnlyScaled K w w' → StaysRestorable w w'
  OnlyScaled-StaysRestorable w w' c = record {
    step = λ a. record { at = λ ns name d e. by_change a ns name d e (c.deployments ns name) };
  }
    where
      by_change :
          AllRestorable w
          → (ns name : String) (d : Deployment) → K.get_deployment w'.cluster ns name ≡ ok d
          → ScaledAt K w.cluster w'.cluster ns name
          → IsRestorable d
      by_change a ns name d e (inl same) = a.at ns name d (sym same ∙ e)
      by_change a ns name d e (inr (d', f, g)) =
          rw
            (sym (
              read_as (record d' { replicas = some (pos 0) }) d
                (K.get_deployment w'.cluster ns name) g e))
            (scaled-IsRestorable d' (a.at ns name d' f))

module _ (K : Cluster) (law : IsLawful K)
    (quiet : (condition : K.State → Result Bool) (s : K.State) (ns name : String)
      → K.get_deployment (K.poll condition s).0 ns name ≡ K.get_deployment s ns name)
    (L : Stdlib) (p : Program) where
  abbrev R : World K → World K → Type 0
  R = StaysRestorable K

  of_idled : (w w' : World K) → Changed K IsIdled w w' → R w w'
  of_idled w w' = Changed-StaysRestorable K IsIdled w w' (λ d i _. i)

  of_unidled : (w w' : World K) → Changed K IsUnidled w w' → R w w'
  of_unidled w w' = Changed-StaysRestorable K IsUnidled w w' unidled-IsRestorable

  service-Keeps :
      (ns : Namespace) (project : String) (fi fs : Bool)
      → Keeps R (kubernetes_service_idler K L p.idler ns project fi fs)
  service-Keeps ns project fi fs = record {
    at = λ w.
        of_idled w _ ((kubernetes_service_idler-Changed K law L p.idler ns project fi fs).at w);
  }

  unidle-Keeps : (ns : Namespace) → Keeps R (unidle K ns)
  unidle-Keeps ns = record { at = λ w. of_unidled w _ (unidle-Changed K law quiet ns w) }

  label-Keeps : (ns : String) (patch : Patch) → Keeps R (patch_namespace K ns patch)
  label-Keeps ns patch = record {
    at = λ w. of_idled w _ ((patch_namespace-Changed K IsIdled law ns patch).at w);
  }

  Task-StaysRestorable : (t : Task) (w : World K) → R w (run_task K L p t w).1
  unfolding run_task
  Task-StaysRestorable run_cli_idler w =
      OnlyScaled-StaysRestorable K w _ (cli_idler-OnlyScaled K law p.idler w)
  Task-StaysRestorable run_service_idler w = of_idled w _ (service_idler-Changed K law L p.idler w)

  Event-StaysRestorable : (v w : World K) → Event K L p v w → R v w
  Event-StaysRestorable v _ (fires j _ m) = Task-StaysRestorable j.task v
  Event-StaysRestorable v _ (requested path r _) =
      of_unidled v _ (request-Changed K law quiet L p path r v)
  Event-StaysRestorable v _ (reconciled e name _ _) =
      (reconcile-Keeps K L p.idler (StaysRestorable-IsPreorder K) label-Keeps service-Keeps
          unidle-Keeps name).at
        v
  Event-StaysRestorable v _ (unidled ns _ m) =
      let whole = unidle-Changed K law quiet ns v in
      unfold after_goroutine in of_unidled v _ (record { at = whole.at })

  Events-StaysRestorable : (u w : World K) → Events K L p u w → R u w
  Events-StaysRestorable u _ (done _) = (StaysRestorable-IsPreorder K).reflexive u
  Events-StaysRestorable u _ (next _ v w before event) =
      (StaysRestorable-IsPreorder K).transitive u v w (Events-StaysRestorable u v before)
        (Event-StaysRestorable v w event)

  -- That every deployment which is labelled as idled can be restored, because it is scaled to zero,
  -- has the label that the unidler looks for and has a positive number of replicas saved, is kept
  -- by whatever sequence of cron jobs of both idlers, requests, reconciled namespaces and unidlings
  -- a started program handles, one after another and whatever goes wrong in them, over a lawful
  -- cluster, if nothing else changes deployments while it polls.
  pub Events-AllRestorable :
      (u w : World K) → Events K L p u w → AllRestorable K u → AllRestorable K w
  Events-AllRestorable u w events = (Events-StaysRestorable u w events).step
