-- ===== src/World/Unchanged.antt =====
-- Actions that change no deployment, no ingress or no namespace.
use aergia_controller.Base.{String, ◌≡◌, refl, ◌∙◌}
use aergia_controller.Kube.{Patch, Cluster}
use aergia_controller.Kube.Lawful.{IsLawful}
use aergia_controller.World.{
  Metrics, World, count, patch_deployment, patch_ingress, patch_namespace,
}
use aergia_controller.World.Keeps.{IsPreorder, Keeps, Keeps-modify}

module _ (K : Cluster) where
  -- Every deployment is read as before.
  pub record DeploymentsSame (w w' : World K) : Type 0 where
    pub at :
        (ns name : String)
        → K.get_deployment w'.cluster ns name ≡ K.get_deployment w.cluster ns name

  pub DeploymentsSame-IsPreorder : IsPreorder DeploymentsSame
  DeploymentsSame-IsPreorder = record {
    reflexive = λ w. record { at = λ ns name. refl };
    transitive = λ a b c p q. record { at = λ ns name. q.at ns name ∙ p.at ns name };
  }

module _ (K : Cluster) (law : IsLawful K) where
  pub patch_ingress-DeploymentsSame :
      (ns name : String) (p : Patch) → Keeps (DeploymentsSame K) (patch_ingress K ns name p)
  unfolding patch_ingress
  patch_ingress-DeploymentsSame ns name p = record {
    at = λ w. record {
      at = λ ns' name'. law.deployment-patch_ingress w.cluster ns name p ns' name';
    };
  }

  pub patch_namespace-DeploymentsSame :
      (ns : String) (p : Patch) → Keeps (DeploymentsSame K) (patch_namespace K ns p)
  unfolding patch_namespace
  patch_namespace-DeploymentsSame ns p = record {
    at = λ w. record { at = λ ns' name'. law.deployment-patch_namespace w.cluster ns p ns' name' };
  }

  pub count-DeploymentsSame : (f : Metrics → Metrics) → Keeps (DeploymentsSame K) (count K f)
  unfolding count
  count-DeploymentsSame f = Keeps-modify _ λ w. record { at = λ ns name. refl }

module _ (K : Cluster) where
  -- Every ingress is read as before.
  pub record IngressesSame (w w' : World K) : Type 0 where
    pub at : (ns name : String) → K.get_ingress w'.cluster ns name ≡ K.get_ingress w.cluster ns name

  pub IngressesSame-IsPreorder : IsPreorder IngressesSame
  IngressesSame-IsPreorder = record {
    reflexive = λ w. record { at = λ ns name. refl };
    transitive = λ a b c p q. record { at = λ ns name. q.at ns name ∙ p.at ns name };
  }

  -- Every namespace is read as before.
  pub record NamespacesSame (w w' : World K) : Type 0 where
    pub at : (name : String) → K.get_namespace w'.cluster name ≡ K.get_namespace w.cluster name

  pub NamespacesSame-IsPreorder : IsPreorder NamespacesSame
  NamespacesSame-IsPreorder = record {
    reflexive = λ w. record { at = λ name. refl };
    transitive = λ a b c p q. record { at = λ name. q.at name ∙ p.at name };
  }

module _ (K : Cluster) (law : IsLawful K) where
  pub patch_deployment-IngressesSame :
      (ns name : String) (p : Patch) → Keeps (IngressesSame K) (patch_deployment K ns name p)
  unfolding patch_deployment
  patch_deployment-IngressesSame ns name p = record {
    at = λ w. record {
      at = λ ns' name'. law.ingress-patch_deployment w.cluster ns name p ns' name';
    };
  }

  pub patch_ingress-NamespacesSame :
      (ns name : String) (p : Patch) → Keeps (NamespacesSame K) (patch_ingress K ns name p)
  unfolding patch_ingress
  patch_ingress-NamespacesSame ns name p = record {
    at = λ w. record { at = λ name'. law.namespace-patch_ingress w.cluster ns name p name' };
  }
