-- ===== src/Idler/Service/NoPanic.antt =====
-- The panics of the service idler.
use mathlib.Core.List.{Memᴰ}
use aergia_controller.Base.{String, ◌≡◌, refl, Bool, false, ◌||◌, some, List, [], ◌∷◌, ℤ}
use aergia_controller.Stdlib.{Stdlib}
use aergia_controller.Kube.{Namespace, Deployment, Ingress, ok, Selector, requirements, Cluster}
use aergia_controller.World.{World, returned, pure}
use aergia_controller.World.Returns.{
  Returns, Returns-pure, Returns-deref, Returns-bind, Returns-for_each, Returns-if,
  Returns-on_reply, Returns-on_error, Returns-read, Returns-count, Returns-patch_deployment,
  Returns-patch_ingress, Returns-patch_namespace, Returns-answered,
}
use aergia_controller.Idler.Config.{Idler, IdlerSelector}
use aergia_controller.Idler.Helpers.{generate_selector, generate_label_requirements}
use aergia_controller.Idler.Service.EachIdled.{HasReplicas}
use aergia_controller.Idler.Service.{
  idle_deployment, idle_deployments, patch_ingresses, label_idled, patch_all_ingress,
  check_deployments, count_hits, patch_and_idle, idle_if_no_hits, idle_environment, running_build,
  kubernetes_service_idler, service_idler,
}

-- Each selector of the list makes a requirement.
abbrev pub AreValid : (K : Cluster) → List IdlerSelector → Type 0
AreValid K ss =
    (s : IdlerSelector)
    → Memᴰ s ss
    → (r : K.Requirement) × (K.new_requirement s.name s.operator s.values ≡ some r)

module _ (K : Cluster) where
  pub generate-Returns :
      (ss : List IdlerSelector) → AreValid K ss → Returns (generate_label_requirements K ss)
  unfolding generate_label_requirements generate_selector
  generate-Returns [] valid = Returns-pure []
  generate-Returns (s ∷ ss) valid =
      let (r, e) = valid s (Memᴰ.head refl) in
      Returns-bind _ _ (Returns-deref _ r e) (λ r.
        Returns-bind _ _ (generate-Returns ss (λ t m. valid t (Memᴰ.tail m)))
          (λ rs. Returns-pure _))

module _ (K : Cluster) (L : Stdlib) (h : Idler)
    (filled : (s : K.State) (ns : String) (sel : Selector K.Requirement) (ds : List Deployment)
      → K.list_deployments s ns sel ≡ ok ds
      → (d : Deployment) → Memᴰ d ds
      → HasReplicas d) where
  idle_deployment-Returns :
      (fi fs : Bool) (d : Deployment) → HasReplicas d → Returns (idle_deployment K L h fi fs d)
  unfolding idle_deployment
  idle_deployment-Returns fi fs d (n, e) =
      search
        (
          Returns-deref d.replicas n e,
          Returns-read K,
          Returns-patch_deployment K,
          Returns-pure,
          Returns-bind,
          Returns-if,
        )
        depth 10

  patch_ingresses-Returns :
      (is : List Ingress) (patched : Bool) → Returns (patch_ingresses K L h is patched)
  unfolding patch_ingresses
  patch_ingresses-Returns [] patched = Returns-pure _
  patch_ingresses-Returns (i ∷ is) patched =
      search
        (
          patch_ingresses-Returns is,
          Returns-patch_ingress K,
          Returns-pure,
          Returns-bind,
          Returns-if,
          Returns-on_error,
        )
        depth 9

  label_idled-Returns : (ns : Namespace) (patched : Bool) → Returns (label_idled K L h ns patched)
  unfolding label_idled
  label_idled-Returns ns patched =
      search
        (
          Returns-count K,
          Returns-patch_namespace K,
          Returns-pure,
          Returns-bind,
          Returns-if,
          Returns-on_error,
        )
        depth 9

  check_deployments-Returns :
      (ns : String) (i : ℤ) (ds : List Deployment) (idle : Bool)
      → ((d : Deployment) → Memᴰ d ds → HasReplicas d)
      → Returns (check_deployments K L h ns i ds idle)
  unfolding check_deployments
  check_deployments-Returns ns i [] idle pre = Returns-pure _
  check_deployments-Returns ns i (d ∷ ds) idle pre =
      let (n, e) = pre d (Memᴰ.head refl) in
      Returns-bind _ _ (Returns-deref d.replicas n e) λ _. Returns-bind _ _ (Returns-read K _) λ r.
        Returns-bind _ _ (Returns-read K _) λ now.
          Returns-on_reply r _ _
            (λ pods. check_deployments-Returns ns i ds _ (λ c m. pre c (Memᴰ.tail m)))
            (λ _. Returns-pure _)

  count_hits-Returns : (ns : String) (i : ℤ) → Returns (count_hits K L h ns i)
  unfolding count_hits
  count_hits-Returns ns i =
      search (Returns-pure, Returns-read K, Returns-bind, Returns-on_reply) depth 9

  running_build-Returns :
      (ns : String) (reqs : List K.Requirement) → Returns (running_build K L h ns reqs)
  unfolding running_build
  running_build-Returns ns reqs =
      search (Returns-pure, Returns-read K, Returns-bind, Returns-if) depth 9

  module _ (ingress : AreValid K h.selectors.service.ingress)
      (deployments : AreValid K h.selectors.service.deployments)
      (builds : AreValid K h.selectors.service.builds) where
    patch_all_ingress-Returns : (ns : Namespace) → Returns (patch_all_ingress K L h ns)
    unfolding patch_all_ingress
    patch_all_ingress-Returns ns =
        Returns-if h.selectors.service.skip_ingress_patch (pure (ok tt)) _ (Returns-pure _) (
          Returns-bind _ _ (generate-Returns K h.selectors.service.ingress ingress) λ reqs.
            Returns-bind _ _ (Returns-read K _) λ r.
              Returns-on_reply r _ _
                (λ is.
                  Returns-bind _ _ (patch_ingresses-Returns is false)
                    λ p. Returns-on_reply p _ _ (label_idled-Returns ns) (λ e. Returns-pure _))
                (λ _. Returns-pure _))

    patch_and_idle-Returns :
        (ns : Namespace) (ds : List Deployment) (fi fs : Bool)
        → ((d : Deployment) → Memᴰ d ds → HasReplicas d)
        → Returns (patch_and_idle K L h ns ds fi fs)
    unfolding patch_and_idle idle_deployments
    patch_and_idle-Returns ns ds fi fs pre = Returns-bind _ _ (patch_all_ingress-Returns ns) (λ r.
        Returns-on_reply r _ _
          (λ _. Returns-for_each ds _ (λ d m. idle_deployment-Returns fi fs d (pre d m)))
          (λ _. Returns-pure tt))

    idle_if_no_hits-Returns :
        (ns : Namespace) (i : ℤ) (ds : List Deployment) (fi fs : Bool)
        → ((d : Deployment) → Memᴰ d ds → HasReplicas d)
        → Returns (idle_if_no_hits K L h ns i ds fi fs)
    unfolding idle_if_no_hits
    idle_if_no_hits-Returns ns i ds fi fs pre =
        Returns-if (h.selectors.service.skip_hit_check || fi || fs) _ _
          (patch_and_idle-Returns ns ds fi fs pre)
          (Returns-bind _ _ (count_hits-Returns ns.name i) λ r.
            Returns-on_reply r _ _
              (λ hits. Returns-if _ _ _ (patch_and_idle-Returns ns ds fi fs pre) (Returns-pure tt))
              (λ _. Returns-pure tt))

    idle_environment-Returns :
        (ns : Namespace) (i j : ℤ) (fi fs : Bool) → Returns (idle_environment K L h ns i j fi fs)
    unfolding idle_environment
    idle_environment-Returns ns i j fi fs =
        Returns-bind _ _ (generate-Returns K h.selectors.service.deployments deployments) λ reqs.
          Returns-answered K (λ c. K.list_deployments c ns.name (requirements reqs)) _ _
            (λ c ds e.
              let pre = filled c ns.name (requirements reqs) ds e in
              Returns-bind _ _ (check_deployments-Returns ns.name i ds false pre) λ idle.
                Returns-if (idle || fi || fs) _ _ (idle_if_no_hits-Returns ns j ds fi fs pre)
                  (Returns-pure tt))
            (λ _. Returns-pure tt)

    -- One namespace.
    kubernetes_service_idler-Returns :
        (ns : Namespace) (project : String) (fi fs : Bool)
        → Returns (kubernetes_service_idler K L h ns project fi fs)
    unfolding kubernetes_service_idler
    kubernetes_service_idler-Returns ns project fi fs =
        Returns-bind _ _ (generate-Returns K h.selectors.service.builds builds) λ reqs.
          Returns-bind _ _ (running_build-Returns ns.name reqs) λ running.
            Returns-if running _ _ (Returns-pure tt) (idle_environment-Returns ns _ _ fi fs)

    -- A pass of the service idler returns and does not panic, whatever else the cluster answers, if
    -- every selector that it is configured with is valid and every deployment that the cluster
    -- lists has a number of replicas.
    pub service_idler-Returns :
        AreValid K h.selectors.service.namespace
        → (w : World K) → (service_idler K L h w).0 ≡ returned tt
    unfolding service_idler
    service_idler-Returns namespaces w =
        let whole : Returns (service_idler K L h) =
          Returns-bind _ _ (generate-Returns K h.selectors.service.namespace namespaces) λ reqs.
            Returns-bind _ _ (Returns-read K _) λ r.
              Returns-on_reply r _ _
                (λ nss. Returns-for_each nss _ (λ ns _.
                  Returns-if _ _ _ (kubernetes_service_idler-Returns ns _ false false)
                    (Returns-pure tt)))
                (λ _. Returns-pure tt) in
        (whole.at w).1
