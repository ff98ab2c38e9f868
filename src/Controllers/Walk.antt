-- ===== src/Controllers/Walk.antt =====
-- One walk through the reconciler: what its actions keep, the whole of it keeps.
use aergia_controller.Base.{String, Bool}
use aergia_controller.Stdlib.{Stdlib}
use aergia_controller.Kube.{Namespace, Patch, Cluster}
use aergia_controller.World.{World, Action, patch_namespace}
use aergia_controller.World.Keeps.{
  IsPreorder, Keeps, Keeps-pure, Keeps-bind, Keeps-if, Keeps-on_reply,
}
use aergia_controller.Idler.Config.{Idler}
use aergia_controller.Idler.Service.{kubernetes_service_idler}
use aergia_controller.Idler.Service.Walk.{Keeps-read}
use aergia_controller.Unidler.Unidle.{unidle}
use aergia_controller.Controllers.{
  remove_label_patch, act_and_remove_label, reconcile_namespace, reconcile,
}

module _ (K : Cluster) (L : Stdlib) (h : Idler) {R : World K → World K → Type 0} (P : IsPreorder R)
    (keeps_patch_namespace : (ns : String) (p : Patch) → Keeps R (patch_namespace K ns p))
    (keeps_service : (ns : Namespace) (project : String) (fi fs : Bool)
      → Keeps R (kubernetes_service_idler K L h ns project fi fs))
    (keeps_unidle : (ns : Namespace) → Keeps R (unidle K ns)) where
  act-Keeps :
      (ns : Namespace) (label : String) (act : Action (World K) (Unit {0}))
      → Keeps R act
      → Keeps R (act_and_remove_label K L h ns label act)
  unfolding act_and_remove_label
  act-Keeps ns label act kept = Keeps-bind P act _ kept λ _.
      Keeps-bind P (patch_namespace K ns.name (remove_label_patch label)) _
        (keeps_patch_namespace ns.name _) (λ _. Keeps-pure P _)

  reconcile_namespace-Keeps : (ns : Namespace) → Keeps R (reconcile_namespace K L h ns)
  unfolding reconcile_namespace
  reconcile_namespace-Keeps ns =
      search (act-Keeps, keeps_service, keeps_unidle, Keeps-pure P, Keeps-if) depth 12

  pub reconcile-Keeps : (name : String) → Keeps R (reconcile K L h name)
  unfolding reconcile
  reconcile-Keeps name =
      search (reconcile_namespace-Keeps, Keeps-read K P, Keeps-pure P, Keeps-bind P, Keeps-on_reply)
        depth 9
