-- ===== src/Controllers/Idles.antt =====
-- The forced idling of a namespace that a label asks for, from the label to the patches.
use aergia_controller.Base.{
  String, ◌≡◌, refl, ◌∙◌, ap, Bool, true, false, not, ◌||◌, Option, none, some, List, if◌then◌else◌,
  ◌==◌, lookup, value_at,
}
use aergia_controller.Stdlib.{Stdlib}
use aergia_controller.Kube.{Namespace, Deployment, Ingress, Patch, ok, Cluster}
use aergia_controller.Kube.Lawful.{IsLawful, accepted}
use aergia_controller.World.{World, returned, Action, continue, gets, ◌>>=◌, on_reply, read}
use aergia_controller.Idler.Config.{Idler}
use aergia_controller.Idler.Service.{kubernetes_service_idler}
use aergia_controller.Idler.Service.Forced.{
  FindsDeployments, FindsIngresses, HasNoBuild, IdledEnvironment, kubernetes_service_idler_forced,
}
use aergia_controller.Unidler.Unidle.{is_true}
use aergia_controller.Controllers.{act_and_remove_label, reconcile_namespace, reconcile}
use aergia_controller.Controllers.Labels.{asked, Lacks}
use aergia_controller.Controllers.Acts.{differ, after_label}

-- The label of a forced scaling, or else of a forced idling.
abbrev pub forced_label : Bool → String
forced_label force_scale =
    if force_scale then "idling.amazee.io/force-scaled" else "idling.amazee.io/force-idled"

chosen :
    {A : Type 0} (a b c fs : Bool) (x y z n : A)
    → (if a
        then some "idling.amazee.io/force-scaled"
        else if b
        then some "idling.amazee.io/force-idled"
        else if c
        then some "idling.amazee.io/unidle"
        else none)
      ≡ some (forced_label fs)
    → (if a then x else if b then y else if c then z else n) ≡ (if fs then x else y)
unfolding ◌==◌
chosen true b c true x y z n e = refl
chosen true b c false x y z n e = absurd (differ _ (forced_label false) refl e)
chosen false true c true x y z n e = absurd (differ _ (forced_label true) refl e)
chosen false true c false x y z n e = refl
chosen false false true true x y z n e = absurd (differ _ (forced_label true) refl e)
chosen false false true false x y z n e = absurd (differ _ (forced_label false) refl e)
chosen false false false fs x y z n e = absurd (cc)

module _ (K : Cluster) (law : IsLawful K)
    (accepts : (s : K.State) (ns name : String) (p : Patch) (d : Deployment)
      → K.get_deployment s ns name ≡ ok d
      → accepted (K.patch_deployment s ns name p).1 ≡ true)
    (accepts_ingress : (s : K.State) (ns name : String) (p : Patch) (i : Ingress)
      → K.get_ingress s ns name ≡ ok i
      → accepted (K.patch_ingress s ns name p).1 ≡ true)
    (accepts_namespace : (s : K.State) (name : String) (p : Patch) (n : Namespace)
      → K.get_namespace s name ≡ ok n
      → accepted (K.patch_namespace s name p).1 ≡ true)
    (L : Stdlib) (h : Idler) (dry : h.dry_run ≡ false)
    (patching : h.selectors.service.skip_ingress_patch ≡ false) where
  -- What the label asks for.
  abbrev act : Namespace → Bool → Action (World K) (Unit {0})
  act ns fs =
      kubernetes_service_idler K L h ns (value_at h.selectors.labels.project_name ns.labels)
        (not fs) fs

  by_label :
      (ns : Namespace) (fs : Bool) (w : World K)
      → (if fs
            then act_and_remove_label K L h ns "idling.amazee.io/force-scaled" (act ns true)
            else act_and_remove_label K L h ns "idling.amazee.io/force-idled" (act ns false))
          w
        ≡ act_and_remove_label K L h ns (forced_label fs) (act ns fs) w
  by_label ns true w = refl
  by_label ns false w = refl

  -- It is the idling, and then the removal of the label.
  reconcile_of_asked :
      (name : String) (ns : Namespace) (fs : Bool) (w : World K)
      → K.get_namespace w.cluster name ≡ ok ns
      → asked ns ≡ some (forced_label fs)
      → reconcile K L h name w ≡ act_and_remove_label K L h ns (forced_label fs) (act ns fs) w
  unfolding reconcile ◌>>=◌ read gets continue on_reply reconcile_namespace
  reconcile_of_asked name ns fs w e a = rw e (
      ap {A = Action (World K) (Option String)} (λ act. act w)
        (chosen (is_true (lookup "idling.amazee.io/force-scaled" ns.labels))
          (is_true (lookup "idling.amazee.io/force-idled" ns.labels))
          (is_true (lookup "idling.amazee.io/unidle" ns.labels)) fs _ _ _ _ a)
      ∙ by_label ns fs w)

  forced : (fs : Bool) → (not fs || fs) ≡ true
  forced true = refl
  forced false = refl

  -- Over a lawful cluster, a namespace whose label asks for a forced idling or scaling is idled by
  -- the reconciler, whatever the ages of its pods and its hits are: if no build runs or waits, its
  -- deployments and ingresses are found, each once, the deployments have a number of replicas and
  -- the name of the middleware has no comma, no patch of an existing object is refused, and this is
  -- no dry run and the patch of ingresses is not switched off, then the reconciler returns without
  -- an error, the label is gone from the namespace, each deployment is scaled to zero with its
  -- number of replicas saved, or 1 where that is not positive, and each ingress lists the code 503
  -- and the middleware of aergia.
  pub reconcile_idle :
      (ns : Namespace) (fs : Bool) (ds : List Deployment) (is : List Ingress) (w : World K)
      → K.get_namespace w.cluster ns.name ≡ ok ns
      → asked ns ≡ some (forced_label fs)
      → HasNoBuild K h L ns.name w
      → FindsDeployments K h w ns.name ds
      → FindsIngresses K h w ns.name is
      → let y = reconcile K L h ns.name w in
        (y.0 ≡ returned none)
        × Lacks K law accepts_namespace (forced_label fs) y.1.cluster ns.name
        × IdledEnvironment K ds is y.1
  reconcile_idle ns fs ds is w e a no_build f g =
      let (acted, done) =
        kubernetes_service_idler_forced K law accepts accepts_ingress accepts_namespace L h dry
          patching ns ns (value_at h.selectors.labels.project_name ns.labels) ds is (not fs) fs w
          (forced fs) e no_build f g in
      let (returns, gone, kept) =
        after_label K law accepts_namespace L h ns (forced_label fs) (act ns fs) w acted in
      rw (reconcile_of_asked ns.name ns fs w e a) (
        returns,
        gone,
        record {
          idled = λ d m.
              let (d', x, q) = done.idled d m in (d', kept.deployments d.namespace d.name ∙ x, q);
          routed = λ i m.
              let (i', x, q) = done.routed i m in (i', kept.ingresses i.namespace i.name ∙ x, q);
        },
      )
