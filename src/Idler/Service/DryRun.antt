-- ===== src/Idler/Service/DryRun.antt =====
-- The service idler in a dry run.
use aergia_controller.Base.{String, ◌≡◌, refl, ◌∙◌, Bool, true, false, List, [], ◌∷◌}
use aergia_controller.Stdlib.{Stdlib}
use aergia_controller.Kube.{Namespace, Deployment, Ingress, ok, err, Cluster}
use aergia_controller.World.{World, pure, ◌>>=◌, on_reply}
use aergia_controller.World.Keeps.{
  IsPreorder, Keeps, Keeps-pure, Keeps-bind, Keeps-if, Keeps-on_reply,
}
use aergia_controller.Idler.Config.{Idler}
use aergia_controller.Idler.Service.Walk.{
  Keeps-read, generate-Keeps, kubernetes_service_idler-Keeps, service_idler-Keeps,
}
use aergia_controller.Idler.Service.{
  idle_deployment, patch_ingresses, label_idled, patch_all_ingress, kubernetes_service_idler,
  service_idler,
}

abbrev pub Same : {S : Type 0} → S → S → Type 0
Same s t = t ≡ s

pub Same-IsPreorder : {S : Type 0} → IsPreorder {S = S} Same
Same-IsPreorder = record { reflexive = λ s. refl; transitive = λ s t u p q. q ∙ p }

module _ (K : Cluster) (L : Stdlib) (h : Idler) (dry : h.dry_run ≡ true) where
  abbrev P : IsPreorder {S = World K} Same
  P = Same-IsPreorder

  idle_deployment-Same :
      (fi fs : Bool) (d : Deployment) → Keeps Same (idle_deployment K L h fi fs d)
  unfolding idle_deployment
  idle_deployment-Same fi fs d = rw dry (Keeps-pure P tt)

  -- No ingress counts as patched.
  patch_ingresses_dry :
      (is : List Ingress) (patched : Bool) → patch_ingresses K L h is patched ≡ pure (ok patched)
  unfolding patch_ingresses
  patch_ingresses_dry [] patched = refl
  patch_ingresses_dry (i ∷ is) patched = rw dry (patch_ingresses_dry is patched)

  label_no_ingress :
      (ns : Namespace) (is : List Ingress)
      → Keeps Same (
          patch_ingresses K L h is false >>= λ p.
          on_reply p (label_idled K L h ns) (λ e. pure (err e)))
  label_no_ingress ns is =
      rw (patch_ingresses_dry is false)
        (unfold ◌>>=◌ on_reply label_idled in record { at = λ w. refl })

  patch_all_ingress-Same : (ns : Namespace) → Keeps Same (patch_all_ingress K L h ns)
  unfolding patch_all_ingress
  patch_all_ingress-Same ns =
      search
        (
          label_no_ingress ns,
          generate-Keeps K P,
          Keeps-read K P,
          Keeps-pure P,
          Keeps-bind P,
          Keeps-if,
          Keeps-on_reply,
        )
        depth 12

  -- In a dry run a pass of the service idler over all namespaces changes neither the cluster nor a
  -- counter.
  pub service_idler_dry : (w : World K) → (service_idler K L h w).1 ≡ w
  service_idler_dry w =
      (service_idler-Keeps K L h P patch_all_ingress-Same idle_deployment-Same).at w

  -- In a dry run the idling of one namespace, forced or not, changes neither the cluster nor a
  -- counter.
  pub kubernetes_service_idler_dry :
      (ns : Namespace) (project : String) (fi fs : Bool) (w : World K)
      → (kubernetes_service_idler K L h ns project fi fs w).1 ≡ w
  kubernetes_service_idler_dry ns project fi fs w =
      (kubernetes_service_idler-Keeps K L h P patch_all_ingress-Same idle_deployment-Same ns project
          fi fs).at
        w
