-- ===== src/Unidler/Unidle/Walk.antt =====
-- One walk through the unidling: what its patches and polls keep, its body keeps.
use aergia_controller.Base.{String, Bool, List}
use aergia_controller.Kube.{Namespace, Deployment, Ingress, Patch, Result, Cluster}
use aergia_controller.World.{Metrics, World, count, poll, patch_ingress, patch_namespace}
use aergia_controller.World.Keeps.{
  IsPreorder, Keeps, Keeps-pure, Keeps-deref, Keeps-bind, Keeps-for_each, Keeps-if, Keeps-on_reply,
}
use aergia_controller.Idler.Service.Walk.{Keeps-read}
use aergia_controller.Unidler.Checks.{restore_ingress, remove_code_from_ingress}
use aergia_controller.Unidler.Unidle.{
  unidle_deployment, wait_for_pods, finish_unidle, unidle_all, unidle_watched,
}

module _ (K : Cluster) {R : World K → World K → Type 0} (P : IsPreorder R)
    (keeps_patch_ingress : (ns name : String) (p : Patch) → Keeps R (patch_ingress K ns name p))
    (keeps_patch_namespace : (ns : String) (p : Patch) → Keeps R (patch_namespace K ns p))
    (keeps_count : (f : Metrics → Metrics) → Keeps R (count K f))
    (keeps_poll : (condition : K.State → Result Bool) → Keeps R (poll K condition)) where
  restore_ingress-Keeps : (i : Ingress) → Keeps R (restore_ingress K i)
  unfolding restore_ingress
  restore_ingress-Keeps i =
      search (keeps_patch_ingress, Keeps-pure P, Keeps-bind P, Keeps-if) depth 8

  remove_code_from_ingress-Keeps : (ns : String) → Keeps R (remove_code_from_ingress K ns)
  unfolding remove_code_from_ingress
  remove_code_from_ingress-Keeps ns =
      search
        (
          restore_ingress-Keeps,
          Keeps-read K P,
          Keeps-pure P,
          Keeps-bind P,
          Keeps-on_reply,
          Keeps-for_each P,
        )
        depth 8

  wait_for_pods-Keeps : (ns : String) (d : Deployment) → Keeps R (wait_for_pods K ns d)
  unfolding wait_for_pods
  wait_for_pods-Keeps ns d = search (keeps_poll, Keeps-pure P, Keeps-bind P) depth 8

  pub finish_unidle-Keeps :
      (ns : Namespace) (ds : List Deployment) → Keeps R (finish_unidle K ns ds)
  unfolding finish_unidle
  finish_unidle-Keeps ns ds =
      search
        (
          wait_for_pods-Keeps,
          remove_code_from_ingress-Keeps,
          keeps_count,
          keeps_patch_namespace,
          Keeps-pure P,
          Keeps-bind P,
          Keeps-for_each P,
        )
        depth 12

  module _ (keeps_deployment : (d : Deployment) → Keeps R (unidle_deployment K d)) where
    unidle_all-Keeps : (ns : Namespace) (ds : List Deployment) → Keeps R (unidle_all K ns ds)
    unfolding unidle_all
    unidle_all-Keeps ns ds =
        search (keeps_deployment, finish_unidle-Keeps, Keeps-pure P, Keeps-bind P, Keeps-for_each P)
          depth 12

    pub unidle_watched-Keeps : (ns : Namespace) → Keeps R (unidle_watched K ns)
    unfolding unidle_watched
    unidle_watched-Keeps ns =
        search
          (
            unidle_all-Keeps,
            Keeps-read K P,
            Keeps-deref P,
            Keeps-pure P,
            Keeps-bind P,
            Keeps-on_reply,
          )
          depth 9
