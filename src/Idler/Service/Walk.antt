-- ===== src/Idler/Service/Walk.antt =====
-- One walk through the service idler: what its patches keep, the whole of it keeps.
use aergia_controller.Base.{String, Bool, List, [], ◌∷◌, ℤ}
use aergia_controller.Stdlib.{Stdlib}
use aergia_controller.Kube.{Namespace, Deployment, Ingress, Patch, Cluster}
use aergia_controller.World.{Metrics, World, read, count, patch_ingress, patch_namespace}
use aergia_controller.World.Keeps.{
  IsPreorder, Keeps, Keeps-pure, Keeps-gets, Keeps-deref, Keeps-bind, Keeps-for_each, Keeps-if,
  Keeps-on_reply, Keeps-on_error,
}
use aergia_controller.Idler.Config.{Idler, IdlerSelector}
use aergia_controller.Idler.Helpers.{generate_label_requirements}
use aergia_controller.Idler.Service.{
  idle_deployment, idle_deployments, patch_ingresses, label_idled, patch_all_ingress,
  check_deployments, count_hits, patch_and_idle, idle_if_no_hits, idle_environment, running_build,
  kubernetes_service_idler, service_idler,
}

module _ (K : Cluster) {R : World K → World K → Type 0} (P : IsPreorder R) where
  pub Keeps-read : {A : Type 0} (f : K.State → A) → Keeps R (read K f)
  unfolding read
  Keeps-read f = Keeps-gets P _

  pub generate-Keeps : (ss : List IdlerSelector) → Keeps R (generate_label_requirements K ss)
  unfolding generate_label_requirements
  generate-Keeps [] = Keeps-pure P _
  generate-Keeps (s ∷ ss) =
      Keeps-bind P _ _ (Keeps-deref P _)
        λ r. Keeps-bind P _ _ (generate-Keeps ss) λ rs. Keeps-pure P _

module _ (K : Cluster) (L : Stdlib) (h : Idler) {R : World K → World K → Type 0}
    (P : IsPreorder R) where
  check_deployments-Keeps :
      (ns : String) (i : ℤ) (ds : List Deployment) (idle : Bool)
      → Keeps R (check_deployments K L h ns i ds idle)
  unfolding check_deployments
  check_deployments-Keeps ns i [] idle = Keeps-pure P _
  check_deployments-Keeps ns i (d ∷ ds) idle = Keeps-bind P _ _ (Keeps-deref P _) λ _.
      Keeps-bind P _ _ (Keeps-read K P _) λ r. Keeps-bind P _ _ (Keeps-read K P _) λ now.
        Keeps-on_reply r _ _ (λ pods. check_deployments-Keeps ns i ds _) (λ _. Keeps-pure P _)

  count_hits-Keeps : (ns : String) (i : ℤ) → Keeps R (count_hits K L h ns i)
  unfolding count_hits
  count_hits-Keeps ns i =
      search (Keeps-pure P, Keeps-read K P, Keeps-bind P, Keeps-on_reply) depth 9

  running_build-Keeps :
      (ns : String) (reqs : List K.Requirement) → Keeps R (running_build K L h ns reqs)
  unfolding running_build
  running_build-Keeps ns reqs =
      search (Keeps-pure P, Keeps-read K P, Keeps-bind P, Keeps-if) depth 9

  module _
      (keeps_patch_ingress : (ns name : String) (p : Patch) → Keeps R (patch_ingress K ns name p))
      (keeps_patch_namespace : (ns : String) (p : Patch) → Keeps R (patch_namespace K ns p))
      (keeps_count : (f : Metrics → Metrics) → Keeps R (count K f)) where
    patch_ingresses-Keeps :
        (is : List Ingress) (patched : Bool) → Keeps R (patch_ingresses K L h is patched)
    unfolding patch_ingresses
    patch_ingresses-Keeps [] patched = Keeps-pure P _
    patch_ingresses-Keeps (i ∷ is) patched =
        search
          (
            patch_ingresses-Keeps is,
            keeps_patch_ingress,
            Keeps-pure P,
            Keeps-bind P,
            Keeps-if,
            Keeps-on_error,
          )
          depth 9

    label_idled-Keeps : (ns : Namespace) (patched : Bool) → Keeps R (label_idled K L h ns patched)
    unfolding label_idled
    label_idled-Keeps ns patched =
        search
          (keeps_count, keeps_patch_namespace, Keeps-pure P, Keeps-bind P, Keeps-if, Keeps-on_error)
          depth 9

    pub patch_all_ingress-Keeps : (ns : Namespace) → Keeps R (patch_all_ingress K L h ns)
    unfolding patch_all_ingress
    patch_all_ingress-Keeps ns =
        search
          (
            patch_ingresses-Keeps,
            label_idled-Keeps,
            generate-Keeps K P,
            Keeps-read K P,
            Keeps-pure P,
            Keeps-bind P,
            Keeps-if,
            Keeps-on_reply,
          )
          depth 12

  module _ (keeps_ingress : (ns : Namespace) → Keeps R (patch_all_ingress K L h ns))
      (keeps_deployment : (fi fs : Bool) (d : Deployment)
        → Keeps R (idle_deployment K L h fi fs d)) where
    patch_and_idle-Keeps :
        (ns : Namespace) (ds : List Deployment) (fi fs : Bool)
        → Keeps R (patch_and_idle K L h ns ds fi fs)
    unfolding patch_and_idle idle_deployments
    patch_and_idle-Keeps ns ds fi fs =
        search
          (
            keeps_ingress,
            keeps_deployment,
            Keeps-pure P,
            Keeps-bind P,
            Keeps-on_reply,
            Keeps-for_each P,
          )
          depth 9

    idle_if_no_hits-Keeps :
        (ns : Namespace) (i : ℤ) (ds : List Deployment) (fi fs : Bool)
        → Keeps R (idle_if_no_hits K L h ns i ds fi fs)
    unfolding idle_if_no_hits
    idle_if_no_hits-Keeps ns i ds fi fs =
        search
          (
            patch_and_idle-Keeps,
            count_hits-Keeps,
            Keeps-pure P,
            Keeps-bind P,
            Keeps-on_reply,
            Keeps-if,
          )
          depth 9

    idle_environment-Keeps :
        (ns : Namespace) (i j : ℤ) (fi fs : Bool) → Keeps R (idle_environment K L h ns i j fi fs)
    unfolding idle_environment
    idle_environment-Keeps ns i j fi fs =
        search
          (
            idle_if_no_hits-Keeps,
            check_deployments-Keeps,
            generate-Keeps K P,
            Keeps-read K P,
            Keeps-pure P,
            Keeps-bind P,
            Keeps-on_reply,
            Keeps-if,
          )
          depth 12

    pub kubernetes_service_idler-Keeps :
        (ns : Namespace) (project : String) (fi fs : Bool)
        → Keeps R (kubernetes_service_idler K L h ns project fi fs)
    unfolding kubernetes_service_idler
    kubernetes_service_idler-Keeps ns project fi fs =
        search
          (
            idle_environment-Keeps,
            running_build-Keeps,
            generate-Keeps K P,
            Keeps-pure P,
            Keeps-bind P,
            Keeps-if,
          )
          depth 12

    pub service_idler-Keeps : Keeps R (service_idler K L h)
    unfolding service_idler
    service_idler-Keeps =
        search
          (
            kubernetes_service_idler-Keeps,
            generate-Keeps K P,
            Keeps-read K P,
            Keeps-pure P,
            Keeps-bind P,
            Keeps-on_reply,
            Keeps-for_each P,
            Keeps-if,
          )
          depth 12
