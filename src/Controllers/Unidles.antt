-- ===== src/Controllers/Unidles.antt =====
-- The unidling of a namespace that a label asks for, from the label to the deployments.
use mathlib.Core.List.{Memᴰ}
use aergia_controller.Base.{
  String, ◌≡◌, refl, ◌∙◌, ap, Bool, true, false, Option, none, some, List, [], ◌∷◌, if◌then◌else◌,
  ◌==◌, lookup,
}
use aergia_controller.Stdlib.{Stdlib}
use aergia_controller.Kube.{Namespace, Deployment, Patch, Result, ok, requirements, Cluster}
use aergia_controller.Kube.Lawful.{IsLawful, accepted}
use aergia_controller.World.{World, returned, Action, continue, gets, ◌>>=◌, on_reply, read}
use aergia_controller.World.Each.{deployments, AreApart, MadeOf}
use aergia_controller.Idler.Config.{Idler}
use aergia_controller.Idler.Service.EachIdled.{HasReplicas}
use aergia_controller.Unidler.Unidle.{is_true, unidle}
use aergia_controller.Unidler.Unidle.EachUnidled.{UnidledFrom, unidle_each}
use aergia_controller.Unidler.Unidle.NoPanic.{unidle_returns}
use aergia_controller.Controllers.{act_and_remove_label, reconcile_namespace, reconcile}
use aergia_controller.Controllers.Labels.{asked, Lacks}
use aergia_controller.Controllers.Acts.{differ, after_label}

abbrev pub unidle_label : String
unidle_label = "idling.amazee.io/unidle"

chosen :
    {A : Type 0} (a b c : Bool) (x y z n : A)
    → (if a
        then some "idling.amazee.io/force-scaled"
        else if b
        then some "idling.amazee.io/force-idled"
        else if c
        then some unidle_label
        else none)
      ≡ some unidle_label
    → (if a then x else if b then y else if c then z else n) ≡ z
unfolding ◌==◌
chosen true b c x y z n e = absurd (differ _ unidle_label refl e)
chosen false true c x y z n e = absurd (differ _ unidle_label refl e)
chosen false false true x y z n e = refl
chosen false false false x y z n e = absurd (cc)

module _ (K : Cluster) (law : IsLawful K)
    (quiet : (condition : K.State → Result Bool) (s : K.State) (ns name : String)
      → K.get_deployment (K.poll condition s).0 ns name ≡ K.get_deployment s ns name)
    (accepts : (s : K.State) (ns name : String) (p : Patch) (d : Deployment)
      → K.get_deployment s ns name ≡ ok d
      → accepted (K.patch_deployment s ns name p).1 ≡ true)
    (accepts_namespace : (s : K.State) (name : String) (p : Patch) (ns : Namespace)
      → K.get_namespace s name ≡ ok ns
      → accepted (K.patch_namespace s name p).1 ≡ true)
    (L : Stdlib) (h : Idler) where
  -- It is the unidling, and then the removal of the label.
  reconcile_of_asked :
      (name : String) (ns : Namespace) (w : World K)
      → K.get_namespace w.cluster name ≡ ok ns
      → asked ns ≡ some unidle_label
      → reconcile K L h name w ≡ act_and_remove_label K L h ns unidle_label (unidle K ns) w
  unfolding reconcile ◌>>=◌ read gets continue on_reply reconcile_namespace
  reconcile_of_asked name ns w e a = rw e (
      ap {A = Action (World K) (Option String)} (λ act. act w)
        (chosen (is_true (lookup "idling.amazee.io/force-scaled" ns.labels))
          (is_true (lookup "idling.amazee.io/force-idled" ns.labels))
          (is_true (lookup "idling.amazee.io/unidle" ns.labels)) _ _ _ _ a))

  -- Over a lawful cluster, a namespace whose labels ask for an unidling is unidled by the
  -- reconciler: if its deployments can be listed, exist under names of their own and have a number
  -- of replicas, no patch of an existing deployment or namespace is refused, and nothing else
  -- changes deployments while the unidler polls, then the reconciler returns without an error, the
  -- label is gone, and each of the deployments that was labelled as idled with no replicas has the
  -- number of replicas that was saved, or 1, and is labelled as not idled, and each other one is as
  -- it was.
  pub reconcile_unidle :
      (name : String) (ns : Namespace) (r : K.Requirement) (ds : List Deployment) (w : World K)
      → K.get_namespace w.cluster name ≡ ok ns
      → asked ns ≡ some unidle_label
      → K.new_requirement "idling.amazee.io/watch" "=" ("true" ∷ []) ≡ some r
      → K.list_deployments w.cluster ns.name (requirements (r ∷ [])) ≡ ok ds
      → AreApart (deployments K) ds
      → ((d : Deployment) → Memᴰ d ds → HasReplicas d)
      → ((d : Deployment) → Memᴰ d ds → K.get_deployment w.cluster d.namespace d.name ≡ ok d)
      → let y = reconcile K L h name w in
        (y.0 ≡ returned none)
        × Lacks K law accepts_namespace unidle_label y.1.cluster ns.name
        × ((d : Deployment) → Memᴰ d ds → MadeOf (deployments K) HasReplicas UnidledFrom d y.1)
  reconcile_unidle name ns r ds w e a made listed apart pre there =
      let (returns, gone, kept) =
        after_label K law accepts_namespace L h ns unidle_label (unidle K ns) w
          (unidle_returns K ns r ds w made listed pre) in
      rw (reconcile_of_asked name ns w e a) (
        returns,
        gone,
        λ d m.
            let (d', e, q) =
              unidle_each K law quiet accepts ns r ds w made listed apart pre there d m in
            (d', kept.deployments d.namespace d.name ∙ e, q),
      )
