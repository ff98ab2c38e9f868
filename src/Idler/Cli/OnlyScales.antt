-- ===== src/Idler/Cli/OnlyScales.antt =====
-- What the cli idler changes.
use aergia_controller.Base.{
  String, ◌≡◌, refl, sym, ◌∙◌, ap, Bool, true, false, some, ◌⊎◌, inl, inr, pos, if◌then◌else◌,
}
use aergia_controller.Kube.{Deployment, Result, ok, err, Cluster}
use aergia_controller.Kube.Lawful.{IsLawful, merge, merge_deployment, on_ok}
use aergia_controller.World.{Metrics, World, count, patch_deployment}
use aergia_controller.World.Keeps.{
  IsPreorder, Keeps, Keeps-pure, Keeps-bind, Keeps-if, Keeps-modify,
}
use aergia_controller.Idler.Config.{Idler}
use aergia_controller.Idler.Service.DryRun.{Same-IsPreorder}
use aergia_controller.Idler.Cli.{scale_patch, scale_cli, cli_idler}
use aergia_controller.Idler.Cli.Walk.{cli_idler-Keeps}

-- In a dry run a pass of the cli idler changes neither the cluster nor a counter.
pub cli_idler_dry :
    (K : Cluster) (h : Idler) (w : World K) → h.dry_run ≡ true → (cli_idler K h w).1 ≡ w
cli_idler_dry K h w dry =
    (cli_idler-Keeps K h Same-IsPreorder
        (λ d. unfold scale_cli in rw dry (Keeps-pure Same-IsPreorder tt))).at
      w

-- What is read, with zero replicas.
abbrev rescaled : Result Deployment → Result Deployment
rescaled (ok d) = ok (record d { replicas = some (pos 0) })
rescaled (err e) = err e

module _ (K : Cluster) where
  abbrev pub ScaledAt : K.State → K.State → String → String → Type 0
  ScaledAt s t ns name =
      (K.get_deployment t ns name ≡ K.get_deployment s ns name)
      ⊎ ((d : Deployment) × (K.get_deployment s ns name ≡ ok d)
          × (K.get_deployment t ns name ≡ ok (record d { replicas = some (pos 0) })))

  -- A deployment is the same or has zero replicas and is the same otherwise; every ingress and
  -- namespace is the same.
  pub record OnlyScaled (w w' : World K) : Type 0 where
    pub deployments : (ns name : String) → ScaledAt w.cluster w'.cluster ns name
    pub ingresses :
        (ns name : String) → K.get_ingress w'.cluster ns name ≡ K.get_ingress w.cluster ns name
    pub namespaces :
        (name : String) → K.get_namespace w'.cluster name ≡ K.get_namespace w.cluster name

  ScaledAt-trans :
      (s t u : K.State) (ns name : String)
      → ScaledAt s t ns name
      → ScaledAt t u ns name
      → ScaledAt s u ns name
  ScaledAt-trans s t u ns name (inl p) (inl q) = inl (q ∙ p)
  ScaledAt-trans s t u ns name (inl p) (inr (d, e, f)) = inr (d, sym p ∙ e, f)
  ScaledAt-trans s t u ns name (inr (d, e, f)) (inl q) = inr (d, e, q ∙ f)
  ScaledAt-trans s t u ns name (inr (d, e, f)) (inr (d', e', f')) =
      inr (d, e, f' ∙ ap rescaled (sym e' ∙ f))

  OnlyScaled-IsPreorder : IsPreorder OnlyScaled
  OnlyScaled-IsPreorder = record {
    reflexive = λ w. record {
      deployments = λ ns name. inl refl;
      ingresses = λ ns name. refl;
      namespaces = λ name. refl;
    };
    transitive = λ a b c p q. record {
      deployments = λ ns name.
          ScaledAt-trans a.cluster b.cluster c.cluster ns name (p.deployments ns name)
            (q.deployments ns name);
      ingresses = λ ns name. q.ingresses ns name ∙ p.ingresses ns name;
      namespaces = λ name. q.namespaces name ∙ p.namespaces name;
    };
  }

  scaled_if :
      (b : Bool) (s t : K.State) (ns name : String)
      → K.get_deployment t ns name ≡ (
          if b
          then on_ok (merge_deployment scale_patch) (K.get_deployment s ns name)
          else K.get_deployment s ns name)
      → ScaledAt s t ns name
  scaled_if false s t ns name e = inl e
  scaled_if true s t ns name e = by_reply (K.get_deployment s ns name) refl
    where
      by_reply : (r : Result Deployment) → K.get_deployment s ns name ≡ r → ScaledAt s t ns name
      by_reply (ok d) f = inr (d, f, e ∙ rw f (unfold merge in refl))
      by_reply (err x) f = inl (e ∙ rw f)

module _ (K : Cluster) (law : IsLawful K) (h : Idler) where
  scale-OnlyScaled :
      (ns name : String) → Keeps (OnlyScaled K) (patch_deployment K ns name scale_patch)
  unfolding patch_deployment
  scale-OnlyScaled ns name = record {
    at = λ w. record {
      deployments = λ ns' name'.
          scaled_if K _ _ _ ns' name'
            (law.deployment-patch_deployment w.cluster ns name scale_patch ns' name');
      ingresses = λ ns' name'. law.ingress-patch_deployment w.cluster ns name scale_patch ns' name';
      namespaces = λ name'. law.namespace-patch_deployment w.cluster ns name scale_patch name';
    };
  }

  count-OnlyScaled : (f : Metrics → Metrics) → Keeps (OnlyScaled K) (count K f)
  unfolding count
  count-OnlyScaled f = Keeps-modify _ λ w. record {
    deployments = λ ns name. inl refl;
    ingresses = λ ns name. refl;
    namespaces = λ name. refl;
  }

  scale_cli-OnlyScaled : (d : Deployment) → Keeps (OnlyScaled K) (scale_cli K h d)
  unfolding scale_cli
  scale_cli-OnlyScaled d =
      search
        (
          scale-OnlyScaled,
          count-OnlyScaled,
          Keeps-pure (OnlyScaled-IsPreorder K),
          Keeps-bind (OnlyScaled-IsPreorder K),
          Keeps-if,
        )
        depth 8

  -- A pass of the cli idler over a lawful cluster changes deployments alone, and of these the
  -- number of replicas alone, which it takes to zero.
  pub cli_idler-OnlyScaled : (w : World K) → OnlyScaled K w (cli_idler K h w).1
  cli_idler-OnlyScaled w = (cli_idler-Keeps K h (OnlyScaled-IsPreorder K) scale_cli-OnlyScaled).at w
