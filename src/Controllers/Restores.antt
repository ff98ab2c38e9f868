-- ===== src/Controllers/Restores.antt =====
-- A namespace that a label has idled and that another label unidles.
use mathlib.Core.List.{Memᴰ}
use mathlib.Core.Option.{some-injective}
use aergia_controller.Base.{
  ℕ, suc, ◌^◌, ◌<◌, String, ◌≡◌, sym, ◌∙◌, ap, Bool, true, false, some, inl, inr, List, [], ◌∷◌,
  pos, ◌==◌, lookup,
}
use aergia_controller.Strings.Decimal.{itoa}
use aergia_controller.Stdlib.{Stdlib}
use aergia_controller.Kube.{
  Namespace, Deployment, Ingress, Patch, Result, ok, requirements, Cluster,
}
use aergia_controller.Kube.Lawful.{IsLawful, accepted}
use aergia_controller.World.{World}
use aergia_controller.World.Unchanged.{DeploymentsSame}
use aergia_controller.World.Each.{deployments, AreApart, MadeOf}
use aergia_controller.Idler.Config.{Idler}
use aergia_controller.Idler.Patches.{saved_replicas}
use aergia_controller.Idler.Service.OnlyIdles.{IsIdled}
use aergia_controller.Idler.Service.EachIdled.{HasReplicas, IdledFrom}
use aergia_controller.Idler.Service.Forced.{FindsDeployments, FindsIngresses, HasNoBuild}
use aergia_controller.Unidler.Unidle.{new_replicas}
use aergia_controller.Unidler.Unidle.RoundTrip.{replicas_key, new_replicas-itoa}
use aergia_controller.Unidler.Unidle.OnlyUnidles.{IsUnidled}
use aergia_controller.Unidler.Unidle.EachUnidled.{was_idled, UnidledFrom}
use aergia_controller.Controllers.{reconcile}
use aergia_controller.Controllers.Labels.{asked}
use aergia_controller.Controllers.Idles.{forced_label, reconcile_idle}
use aergia_controller.Controllers.Unidles.{unidle_label, reconcile_unidle}

-- As many replicas as before, and no label of an idling.
abbrev pub RunsAgain : Deployment → Deployment → Type 0
RunsAgain d u = (u.replicas ≡ d.replicas) × IsUnidled u

idled-was_idled : (d : Deployment) → IsIdled d → was_idled d ≡ true
unfolding ◌==◌
idled-was_idled d i = rw (i.idled, i.scaled)

restored :
    (d d1 d2 : Deployment) (n : ℕ)
    → d.replicas ≡ some (pos (suc n))
    → suc n < 2 ^ 63
    → IdledFrom d d1
    → UnidledFrom d1 d2
    → RunsAgain d d2
restored d d1 d2 n r lt (m, e, i, saved) (inl (other, _)) =
    let was = idled-was_idled d1 i in absurd (cc)
restored d d1 d2 n r lt (m, e, i, saved) (inr (_, u, x)) =
    let same = some-injective m (pos (suc n)) (sym e ∙ r) in
    let s : lookup replicas_key d1.annotations ≡ some (itoa (pos (suc n))) =
      saved ∙ ap (λ k. some (itoa (saved_replicas k))) same in
    (x ∙ ap some (ap new_replicas s ∙ new_replicas-itoa n lt) ∙ sym r, u)

-- The deployments that the unidler finds in a namespace: all that are watched, each once.
pub record FindsWatched (K : Cluster) (w : World K) (ns : String) (ds : List Deployment)
    : Type 0 where
  pub requirement : K.Requirement
  pub made : K.new_requirement "idling.amazee.io/watch" "=" ("true" ∷ []) ≡ some requirement
  pub listed : K.list_deployments w.cluster ns (requirements (requirement ∷ [])) ≡ ok ds
  pub apart : AreApart (deployments K) ds
  pub filled : (d : Deployment) → Memᴰ d ds → HasReplicas d
  pub there : (d : Deployment) → Memᴰ d ds → K.get_deployment w.cluster d.namespace d.name ≡ ok d
  pub complete :
      (d : Deployment) (name : String)
      → K.get_deployment w.cluster ns name ≡ ok d
      → lookup "idling.amazee.io/watch" d.labels ≡ some "true"
      → Memᴰ d ds

module _ (K : Cluster) (law : IsLawful K)
    (named : (s : K.State) (ns name : String) (d : Deployment)
      → K.get_deployment s ns name ≡ ok d
      → (d.namespace ≡ ns) × (d.name ≡ name))
    (quiet : (condition : K.State → Result Bool) (s : K.State) (ns name : String)
      → K.get_deployment (K.poll condition s).0 ns name ≡ K.get_deployment s ns name)
    (accepts : (s : K.State) (ns name : String) (p : Patch) (d : Deployment)
      → K.get_deployment s ns name ≡ ok d
      → accepted (K.patch_deployment s ns name p).1 ≡ true)
    (accepts_ingress : (s : K.State) (ns name : String) (p : Patch) (i : Ingress)
      → K.get_ingress s ns name ≡ ok i
      → accepted (K.patch_ingress s ns name p).1 ≡ true)
    (accepts_namespace : (s : K.State) (name : String) (p : Patch) (n : Namespace)
      → K.get_namespace s name ≡ ok n
      → accepted (K.patch_namespace s name p).1 ≡ true)
    (L : Stdlib) (h : Idler) (dry : h.dry_run ≡ false)
    (patching : h.selectors.service.skip_ingress_patch ≡ false) where
  -- A deployment that is idled is unidled with the others that are watched.
  unidled_again :
      (name : String) (u : Namespace) (ds : List Deployment) (d : Deployment) (n : ℕ) (w : World K)
      → K.get_namespace w.cluster name ≡ ok u
      → asked u ≡ some unidle_label
      → FindsWatched K w name ds
      → MadeOf (deployments K) HasReplicas IdledFrom d w
      → d.namespace ≡ name
      → d.replicas ≡ some (pos (suc n))
      → suc n < 2 ^ 63
      → MadeOf (deployments K) HasReplicas RunsAgain d (reconcile K L h name w).1
  unidled_again name u ds d n w e a f (d1, there, q) in_ns r lt =
      let (x, y) = named w.cluster d.namespace d.name d1 there in
      let (_, _, i, _) = q in
      let listed =
        ap (λ k. K.list_deployments w.cluster k (requirements (f.requirement ∷ [])))
          (law.named w.cluster name u e)
        ∙ f.listed in
      let (_, _, made) =
        reconcile_unidle K law quiet accepts accepts_namespace L h name u f.requirement ds w e a
          f.made listed f.apart f.filled f.there in
      let (d2, there2, p) = made d1 (f.complete d1 d.name (rw in_ns at there) i.watched) in
      (d2, rw (x, y) at there2, restored d d1 d2 n r lt q p)

  -- Over a lawful cluster, a namespace that a label has had idled by the reconciler, and that a
  -- label later has unidled, runs as before: each deployment that the idler found, with between 1
  -- and 2^63 - 1 replicas, has as many again, is labelled as not idled and has no label of a forced
  -- idling. It is assumed that nothing else changes deployments between the two and while the
  -- unidler polls; that no build runs; that the deployments and ingresses are found, each once and
  -- under its own name and namespace, and by the unidler every deployment of the namespace that is
  -- labelled to be watched; that no patch of an existing object is refused; and that this is no dry
  -- run and the patch of ingresses is not switched off.
  pub reconcile_unidle-reconcile_idle :
      (ns u : Namespace) (fs : Bool) (ds watched : List Deployment) (is : List Ingress)
      (w w2 : World K)
      → K.get_namespace w.cluster ns.name ≡ ok ns
      → asked ns ≡ some (forced_label fs)
      → HasNoBuild K h L ns.name w
      → FindsDeployments K h w ns.name ds
      → FindsIngresses K h w ns.name is
      → DeploymentsSame K (reconcile K L h ns.name w).1 w2
      → K.get_namespace w2.cluster ns.name ≡ ok u
      → asked u ≡ some unidle_label
      → FindsWatched K w2 ns.name watched
      → (d : Deployment) (n : ℕ) → Memᴰ d ds
      → d.namespace ≡ ns.name
      → d.replicas ≡ some (pos (suc n))
      → suc n < 2 ^ 63
      → MadeOf (deployments K) HasReplicas RunsAgain d (reconcile K L h ns.name w2).1
  reconcile_unidle-reconcile_idle ns u fs ds watched is w w2 e a no_build f g same e2 a2 f2 d n m
        in_ns r lt =
      let (_, _, done) =
        reconcile_idle K law accepts accepts_ingress accepts_namespace L h dry patching ns fs ds is
          w e a no_build f g in
      let (d1, there, q) = done.idled d m in
      unidled_again ns.name u watched d n w2 e2 a2 f2 (d1, same.at d.namespace d.name ∙ there, q)
        in_ns r lt
