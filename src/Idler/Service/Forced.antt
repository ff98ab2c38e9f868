-- ===== src/Idler/Service/Forced.antt =====
-- A forced idling of a namespace, from the check of builds to the patches.
use mathlib.Core.List.{Memᴰ}
use aergia_controller.Base.{
  String, ◌≡◌, refl, ◌∙◌, ap, Bool, true, false, ◌||◌, if◌then◌else◌, some, List, [], ◌∷◌, ℤ, arith,
}
use aergia_controller.Stdlib.{Stdlib}
use aergia_controller.Kube.{
  Namespace, Deployment, Pod, Ingress, Patch, Result, ok, err, matching, requirements, Cluster,
}
use aergia_controller.Kube.Lawful.{IsLawful, accepted}
use aergia_controller.World.{World, returned, pure, continue, gets, deref, ◌>>=◌, on_reply, read}
use aergia_controller.World.Keeps.{
  Keeps, Keeps-pure, Keeps-deref, Keeps-bind, Keeps-for_each, Keeps-if,
}
use aergia_controller.World.Unchanged.{
  DeploymentsSame-IsPreorder, patch_ingress-DeploymentsSame, patch_namespace-DeploymentsSame,
  count-DeploymentsSame, IngressesSame, IngressesSame-IsPreorder, patch_deployment-IngressesSame,
}
use aergia_controller.World.Each.{deployments, ingresses, AreApart, MadeOf}
use aergia_controller.Idler.Config.{Idler}
use aergia_controller.Idler.Helpers.{generate_label_requirements}
use aergia_controller.Idler.Checks.{mark_idle}
use aergia_controller.Idler.Service.{
  idle_deployment, idle_deployments, patch_all_ingress, patch_and_idle, idle_if_no_hits,
  check_deployments, idle_environment, running_build, kubernetes_service_idler,
}
use aergia_controller.Idler.Service.Walk.{Keeps-read, patch_all_ingress-Keeps}
use aergia_controller.Idler.Service.EachIdled.{HasReplicas, IdledFrom, idle_deployments_each}
use aergia_controller.Idler.Service.Ingresses.{IsNamed, RoutedFrom, patch_all_ingress_each}

forced_if :
    {A : Type 0} (b fi fs : Bool) (x y : A)
    → (fi || fs) ≡ true
    → (if b || fi || fs then x else y) ≡ x
forced_if b fi fs x y e = ground (arith, e)

module _ (K : Cluster) (h : Idler) where
  -- The ingresses that the idler finds in a namespace: each once and under its own name.
  pub record FindsIngresses (w : World K) (ns : String) (is : List Ingress) : Type 0 where
    pub reqs : List K.Requirement
    pub made : generate_label_requirements K h.selectors.service.ingress w ≡ (returned reqs, w)
    pub listed : K.list_ingresses w.cluster ns (requirements reqs) ≡ ok is
    pub apart : AreApart (ingresses K) is
    pub named : (i : Ingress) → Memᴰ i is → IsNamed i
    pub there : (i : Ingress) → Memᴰ i is → K.get_ingress w.cluster i.namespace i.name ≡ ok i

  -- The deployments that the idler finds in a namespace.
  pub record FindsDeployments (w : World K) (ns : String) (ds : List Deployment) : Type 0 where
    pub reqs : List K.Requirement
    pub made : generate_label_requirements K h.selectors.service.deployments w ≡ (returned reqs, w)
    pub listed : K.list_deployments w.cluster ns (requirements reqs) ≡ ok ds
    pub apart : AreApart (deployments K) ds
    pub filled : (d : Deployment) → Memᴰ d ds → HasReplicas d
    pub there : (d : Deployment) → Memᴰ d ds → K.get_deployment w.cluster d.namespace d.name ≡ ok d

  -- No build runs or waits, as far as the builds can be listed.
  abbrev pub HasNoBuild : Stdlib → String → World K → Type 0
  HasNoBuild L ns w =
      (reqs : List K.Requirement) × (generate_label_requirements K h.selectors.service.builds w
        ≡ (returned reqs, w))
      × (running_build K L h ns reqs w ≡ (returned false, w))

module _ (K : Cluster) (L : Stdlib) (h : Idler) where
  -- The look at the pods changes nothing.
  check_deployments_eq :
      (ns : String) (i : ℤ) (ds : List Deployment) (idle : Bool) (w : World K)
      → ((d : Deployment) → Memᴰ d ds → HasReplicas d)
      → (b : Bool) × (check_deployments K L h ns i ds idle w ≡ (returned b, w))
  unfolding check_deployments ◌>>=◌ continue deref pure read gets on_reply
  check_deployments_eq ns i [] idle w pre = (idle, refl)
  check_deployments_eq ns i (d ∷ ds) idle w pre =
      by_reply (pre d (Memᴰ.head refl))
        (λ idle'. check_deployments_eq ns i ds idle' w (λ c m. pre c (Memᴰ.tail m))) _ refl
    where
      by_reply :
          HasReplicas d
          → ((idle' : Bool)
              → (b : Bool) × (check_deployments K L h ns i ds idle' w ≡ (returned b, w)))
          → (r : Result (List Pod))
          → K.list_pods w.cluster (some ns) (matching ((h.selectors.service_name, d.name) ∷ [])) ≡ r
          → (b : Bool) × (check_deployments K L h ns i (d ∷ ds) idle w ≡ (returned b, w))
      by_reply (n, e) next (ok pods) p =
          let (b, rest) = next (mark_idle i (K.now w.cluster) idle pods) in (b, rw e (rw p rest))
      by_reply (n, e) next (err x) p = (idle, rw e (rw p))

  idle_if_no_hits_eq :
      (ns : Namespace) (j : ℤ) (ds : List Deployment) (fi fs : Bool)
      → (fi || fs) ≡ true
      → idle_if_no_hits K L h ns j ds fi fs ≡ patch_and_idle K L h ns ds fi fs
  unfolding idle_if_no_hits
  idle_if_no_hits_eq ns j ds fi fs force =
      forced_if h.selectors.service.skip_hit_check fi fs (patch_and_idle K L h ns ds fi fs) _ force

  -- A forced action asks nobody about hits, and does not need an old pod.
  idle_environment_eq :
      (ns : Namespace) (i j : ℤ) (ds : List Deployment) (fi fs : Bool) (w : World K)
      → (fi || fs) ≡ true
      → FindsDeployments K h w ns.name ds
      → idle_environment K L h ns i j fi fs w ≡ patch_and_idle K L h ns ds fi fs w
  unfolding idle_environment ◌>>=◌ continue read gets on_reply
  idle_environment_eq ns i j ds fi fs w force f =
      let (b, e) = check_deployments_eq ns.name i ds false w f.filled in
      rw f.made (
        rw f.listed (
          rw e (
            ap (λ act. act w)
              (forced_if b fi fs (idle_if_no_hits K L h ns j ds fi fs) (pure tt) force
                ∙ idle_if_no_hits_eq ns j ds fi fs force))))

  kubernetes_service_idler_eq :
      (ns : Namespace) (project : String) (ds : List Deployment) (fi fs : Bool) (w : World K)
      → (fi || fs) ≡ true
      → HasNoBuild K h L ns.name w
      → FindsDeployments K h w ns.name ds
      → kubernetes_service_idler K L h ns project fi fs w ≡ patch_and_idle K L h ns ds fi fs w
  unfolding kubernetes_service_idler ◌>>=◌ continue
  kubernetes_service_idler_eq ns project ds fi fs w force (reqs, made, no_build) f =
      rw made (rw no_build (idle_environment_eq ns _ _ ds fi fs w force f))

-- What has become of the deployments and of the ingresses.
pub record IdledEnvironment (K : Cluster) (ds : List Deployment) (is : List Ingress) (w : World K)
    : Type 0 where
  pub idled : (d : Deployment) → Memᴰ d ds → MadeOf (deployments K) HasReplicas IdledFrom d w
  pub routed : (i : Ingress) → Memᴰ i is → MadeOf (ingresses K) IsNamed RoutedFrom i w

module _ (K : Cluster) (law : IsLawful K)
    (accepts : (s : K.State) (ns name : String) (p : Patch) (d : Deployment)
      → K.get_deployment s ns name ≡ ok d
      → accepted (K.patch_deployment s ns name p).1 ≡ true)
    (accepts_ingress : (s : K.State) (ns name : String) (p : Patch) (i : Ingress)
      → K.get_ingress s ns name ≡ ok i
      → accepted (K.patch_ingress s ns name p).1 ≡ true)
    (accepts_namespace : (s : K.State) (name : String) (p : Patch) (n : Namespace)
      → K.get_namespace s name ≡ ok n
      → accepted (K.patch_namespace s name p).1 ≡ true)
    (L : Stdlib) (h : Idler) (dry : h.dry_run ≡ false)
    (patching : h.selectors.service.skip_ingress_patch ≡ false) where
  idle_deployments-IngressesSame :
      (ds : List Deployment) (fi fs : Bool)
      → Keeps (IngressesSame K) (idle_deployments K L h ds fi fs)
  unfolding idle_deployments idle_deployment
  idle_deployments-IngressesSame ds fi fs =
      search
        (
          patch_deployment-IngressesSame K law,
          Keeps-pure (IngressesSame-IsPreorder K),
          Keeps-read K (IngressesSame-IsPreorder K),
          Keeps-deref (IngressesSame-IsPreorder K),
          Keeps-bind (IngressesSame-IsPreorder K),
          Keeps-for_each (IngressesSame-IsPreorder K),
          Keeps-if,
        )
        depth 12

  patch_and_idle_eq :
      (ns : Namespace) (ds : List Deployment) (fi fs : Bool) (w : World K)
      → (patch_all_ingress K L h ns w).0 ≡ returned (ok tt)
      → patch_and_idle K L h ns ds fi fs w
        ≡ idle_deployments K L h ds fi fs (patch_all_ingress K L h ns w).1
  unfolding patch_and_idle ◌>>=◌ continue on_reply
  patch_and_idle_eq ns ds fi fs w e = rw e

  patch_and_idle_each :
      (ns m : Namespace) (ds : List Deployment) (is : List Ingress) (fi fs : Bool) (w : World K)
      → K.get_namespace w.cluster ns.name ≡ ok m
      → FindsDeployments K h w ns.name ds
      → FindsIngresses K h w ns.name is
      → ((patch_and_idle K L h ns ds fi fs w).0 ≡ returned tt)
        × IdledEnvironment K ds is (patch_and_idle K L h ns ds fi fs w).1
  patch_and_idle_each ns m ds is fi fs w there f g =
      let (ok_all, routed) =
        patch_all_ingress_each K law accepts_ingress L h dry accepts_namespace ns m w g.reqs is
          patching g.made g.listed there g.apart g.named g.there in
      let w1 : World K = (patch_all_ingress K L h ns w).1 in
      let kept =
        (patch_all_ingress-Keeps K L h (DeploymentsSame-IsPreorder K)
            (patch_ingress-DeploymentsSame K law) (patch_namespace-DeploymentsSame K law)
            (count-DeploymentsSame K law) ns).at
          w in
      let (returns, idled) =
        idle_deployments_each K law accepts L h dry fi fs ds w1 f.apart f.filled
          (λ d mem. kept.at d.namespace d.name ∙ f.there d mem) in
      let same = (idle_deployments-IngressesSame ds fi fs).at w1 in
      rw (patch_and_idle_eq ns ds fi fs w ok_all) (
        returns,
        record {
          idled = idled;
          routed =
              λ i mem. let (i', e, q) = routed i mem in (i', same.at i.namespace i.name ∙ e, q);
        },
      )

  -- A namespace of which a build neither runs nor waits is idled by a forced action, whatever its
  -- pods and its hits are: if this is no dry run, the patch of ingresses is not switched off, the
  -- deployments and ingresses that are found exist, each once, and no patch of an existing object
  -- is refused, then the service idler returns, each deployment is scaled to zero with its number
  -- of replicas saved, and each ingress lists the code 503 and the middleware of aergia.
  pub kubernetes_service_idler_forced :
      (ns m : Namespace) (project : String) (ds : List Deployment) (is : List Ingress)
      (fi fs : Bool) (w : World K)
      → (fi || fs) ≡ true
      → K.get_namespace w.cluster ns.name ≡ ok m
      → HasNoBuild K h L ns.name w
      → FindsDeployments K h w ns.name ds
      → FindsIngresses K h w ns.name is
      → let y = kubernetes_service_idler K L h ns project fi fs w in
        (y.0 ≡ returned tt) × IdledEnvironment K ds is y.1
  kubernetes_service_idler_forced ns m project ds is fi fs w force there no_build f g =
      rw (kubernetes_service_idler_eq K L h ns project ds fi fs w force no_build f)
        (patch_and_idle_each ns m ds is fi fs w there f g)
