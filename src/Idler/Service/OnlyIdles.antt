-- ===== src/Idler/Service/OnlyIdles.antt =====
-- What the service idler does to deployments.
use aergia_controller.Base.{
  zero, suc, String, ◌≡◌, refl, Bool, true, false, some, ℕ, ℤ, pos, negsuc, ◌==◌, lookup,
  lookup-insert,
}
use aergia_controller.Strings.Decimal.{itoa}
use aergia_controller.Stdlib.{Stdlib}
use aergia_controller.Kube.{Namespace, Deployment, Cluster}
use aergia_controller.Kube.Lawful.{IsLawful, merge, merge_deployment}
use aergia_controller.World.{World}
use aergia_controller.World.Changed.{
  Changed, Changed-IsPreorder, patch_deployment-Changed, patch_ingress-Changed,
  patch_namespace-Changed, count-Changed,
}
use aergia_controller.World.Keeps.{Keeps, Keeps-pure, Keeps-deref, Keeps-bind, Keeps-if}
use aergia_controller.Idler.Config.{Idler}
use aergia_controller.Idler.Patches.{saved_replicas, idle_deployment_patch}
use aergia_controller.Idler.Service.{idle_deployment, kubernetes_service_idler, service_idler}
use aergia_controller.Idler.Service.Walk.{
  Keeps-read, patch_all_ingress-Keeps, kubernetes_service_idler-Keeps, service_idler-Keeps,
}

-- Scaled to zero, found by the unidler, and with a positive number of replicas to go back to.
pub record IsIdled (d : Deployment) : Type 0 where
  pub scaled : d.replicas ≡ some (pos 0)
  pub watched : lookup "idling.amazee.io/watch" d.labels ≡ some "true"
  pub idled : lookup "idling.amazee.io/idled" d.labels ≡ some "true"
  pub saved :
      (n : ℕ) × (lookup "idling.amazee.io/unidle-replicas" d.annotations
        ≡ some (itoa (pos (suc n))))

saved_replicas_pos : (n : ℤ) → (k : ℕ) × (saved_replicas n ≡ pos (suc k))
saved_replicas_pos (pos zero) = (0, refl)
saved_replicas_pos (pos (suc n)) = (n, refl)
saved_replicas_pos (negsuc n) = (0, refl)

merge-saved :
    (n : ℤ) (at : String) (fi fs : Bool) (d : Deployment)
    → (k : ℕ) × (lookup "idling.amazee.io/unidle-replicas"
          (merge_deployment (idle_deployment_patch n at fi fs) d).annotations
        ≡ some (itoa (pos (suc k))))
unfolding idle_deployment_patch merge ◌==◌
merge-saved n at fi fs d = let (k, e) = saved_replicas_pos n in (k, simp (lookup-insert, e))

merge-watched :
    (n : ℤ) (at : String) (fi fs : Bool) (d : Deployment)
    → let m = (merge_deployment (idle_deployment_patch n at fi fs) d).labels in
      (lookup "idling.amazee.io/watch" m ≡ some "true")
      × (lookup "idling.amazee.io/idled" m ≡ some "true")
unfolding idle_deployment_patch merge ◌==◌
merge-watched n at true true d = (simp lookup-insert, simp lookup-insert)
merge-watched n at true false d = (simp lookup-insert, simp lookup-insert)
merge-watched n at false true d = (simp lookup-insert, simp lookup-insert)
merge-watched n at false false d = (simp lookup-insert, simp lookup-insert)

pub merge-IsIdled :
    (n : ℤ) (at : String) (fi fs : Bool) (d : Deployment)
    → IsIdled (merge_deployment (idle_deployment_patch n at fi fs) d)
merge-IsIdled n at fi fs d =
    let (w, i) = merge-watched n at fi fs d in
    record {
      scaled = unfold idle_deployment_patch in refl;
      watched = w;
      idled = i;
      saved = merge-saved n at fi fs d;
    }

module _ (K : Cluster) (law : IsLawful K) (L : Stdlib) (h : Idler) where
  idle_deployment-Changed :
      (fi fs : Bool) (d : Deployment) → Keeps (Changed K IsIdled) (idle_deployment K L h fi fs d)
  unfolding idle_deployment
  idle_deployment-Changed fi fs d =
      search
        (
          λ (n : ℤ) (t : String).
              (patch_deployment-Changed K IsIdled law) d.namespace d.name
                (idle_deployment_patch n t fi fs) (merge-IsIdled n t fi fs),
          Keeps-pure (Changed-IsPreorder K IsIdled),
          Keeps-read K (Changed-IsPreorder K IsIdled),
          Keeps-deref (Changed-IsPreorder K IsIdled),
          Keeps-bind (Changed-IsPreorder K IsIdled),
          Keeps-if,
        )
        depth 10

  -- Whatever goes wrong in a pass of the service idler over a lawful cluster, each deployment is as
  -- it was or it is idled: scaled to zero, with the labels that the unidler looks for and a
  -- positive number of replicas saved.
  pub service_idler-Changed : (w : World K) → Changed K IsIdled w (service_idler K L h w).1
  service_idler-Changed w =
      (service_idler-Keeps K L h (Changed-IsPreorder K IsIdled)
          (patch_all_ingress-Keeps K L h (Changed-IsPreorder K IsIdled)
            (patch_ingress-Changed K IsIdled law) (patch_namespace-Changed K IsIdled law)
            (count-Changed K IsIdled law))
          idle_deployment-Changed).at
        w

  pub kubernetes_service_idler-Changed :
      (ns : Namespace) (project : String) (fi fs : Bool)
      → Keeps (Changed K IsIdled) (kubernetes_service_idler K L h ns project fi fs)
  kubernetes_service_idler-Changed =
      kubernetes_service_idler-Keeps K L h (Changed-IsPreorder K IsIdled)
        (patch_all_ingress-Keeps K L h (Changed-IsPreorder K IsIdled)
          (patch_ingress-Changed K IsIdled law) (patch_namespace-Changed K IsIdled law)
          (count-Changed K IsIdled law))
        idle_deployment-Changed
