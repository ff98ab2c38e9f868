-- ===== src/World/Changed.antt =====
-- What holds of deployments across a sequence of patches.
use aergia_controller.Base.{String, ◌≡◌, refl, ◌∙◌, Bool, true, false, ◌⊎◌, inl, inr, if◌then◌else◌}
use aergia_controller.Kube.{Deployment, Patch, Result, ok, err, Cluster}
use aergia_controller.Kube.Lawful.{IsLawful, merge_deployment, on_ok}
use aergia_controller.World.{
  Metrics, World, count, patch_deployment, patch_ingress, patch_namespace,
}
use aergia_controller.World.Keeps.{IsPreorder, Keeps, Keeps-modify}

module _ (K : Cluster) (Q : Deployment → Type 0) where
  -- A deployment is left alone, or it is as a patch makes it.
  abbrev pub ChangedAt : K.State → K.State → String → String → Type 0
  ChangedAt s t ns name =
      (K.get_deployment t ns name ≡ K.get_deployment s ns name)
      ⊎ ((d : Deployment) × (K.get_deployment t ns name ≡ ok d) × Q d)

  pub record Changed (w w' : World K) : Type 0 where
    pub at : (ns name : String) → ChangedAt w.cluster w'.cluster ns name

  ChangedAt-trans :
      (s t u : K.State) (ns name : String)
      → ChangedAt s t ns name
      → ChangedAt t u ns name
      → ChangedAt s u ns name
  ChangedAt-trans s t u ns name p (inr q) = inr q
  ChangedAt-trans s t u ns name (inl p) (inl q) = inl (q ∙ p)
  ChangedAt-trans s t u ns name (inr (d, e, i)) (inl q) = inr (d, q ∙ e, i)

  pub Changed-IsPreorder : IsPreorder Changed
  Changed-IsPreorder = record {
    reflexive = λ w. record { at = λ ns name. inl refl };
    transitive = λ a b c p q. record {
      at = λ ns name.
          ChangedAt-trans a.cluster b.cluster c.cluster ns name (p.at ns name) (q.at ns name);
    };
  }

  -- What a merge does to what is read.
  on_ok-ChangedAt :
      (p : Patch)
      → ((d : Deployment) → Q (merge_deployment p d))
      → (b : Bool) (s t : K.State) (ns name : String)
      → K.get_deployment t ns name ≡ (
          if b
          then on_ok (merge_deployment p) (K.get_deployment s ns name)
          else K.get_deployment s ns name)
      → ChangedAt s t ns name
  on_ok-ChangedAt p made false s t ns name e = inl e
  on_ok-ChangedAt p made true s t ns name e = by_reply (K.get_deployment s ns name) refl
    where
      by_reply : (r : Result Deployment) → K.get_deployment s ns name ≡ r → ChangedAt s t ns name
      by_reply (ok d) f = inr (merge_deployment p d, e ∙ rw f, made d)
      by_reply (err x) f = inl (e ∙ rw f)

module _ (K : Cluster) (Q : Deployment → Type 0) (law : IsLawful K) where
  pub patch_deployment-Changed :
      (ns name : String) (p : Patch)
      → ((d : Deployment) → Q (merge_deployment p d))
      → Keeps (Changed K Q) (patch_deployment K ns name p)
  unfolding patch_deployment
  patch_deployment-Changed ns name p made = record {
    at = λ w. record {
      at = λ ns' name'.
          on_ok-ChangedAt K Q p made _ _ _ ns' name'
            (law.deployment-patch_deployment w.cluster ns name p ns' name');
    };
  }

  pub patch_ingress-Changed :
      (ns name : String) (p : Patch) → Keeps (Changed K Q) (patch_ingress K ns name p)
  unfolding patch_ingress
  patch_ingress-Changed ns name p = record {
    at = λ w. record {
      at = λ ns' name'. inl (law.deployment-patch_ingress w.cluster ns name p ns' name');
    };
  }

  pub patch_namespace-Changed :
      (ns : String) (p : Patch) → Keeps (Changed K Q) (patch_namespace K ns p)
  unfolding patch_namespace
  patch_namespace-Changed ns p = record {
    at = λ w. record {
      at = λ ns' name'. inl (law.deployment-patch_namespace w.cluster ns p ns' name');
    };
  }

  pub count-Changed : (f : Metrics → Metrics) → Keeps (Changed K Q) (count K f)
  unfolding count
  count-Changed f = Keeps-modify _ λ w. record { at = λ ns name. inl refl }
