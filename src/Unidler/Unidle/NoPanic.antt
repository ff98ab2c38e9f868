-- ===== src/Unidler/Unidle/NoPanic.antt =====
-- The unidling returns.
use mathlib.Core.List.{Memᴰ}
use aergia_controller.Base.{String, ◌≡◌, some, List, [], ◌∷◌}
use aergia_controller.Kube.{Namespace, Deployment, Ingress, ok, requirements, Cluster}
use aergia_controller.World.{World, returned, pure, gets, continue, ◌>>=◌, deref, on_reply, read}
use aergia_controller.World.Returns.{
  Returns, Returns-pure, Returns-deref, Returns-bind, Returns-for_each, Returns-if,
  Returns-on_reply, Returns-read, Returns-count, Returns-patch_deployment, Returns-patch_ingress,
  Returns-patch_namespace, Returns-poll,
}
use aergia_controller.Idler.Service.EachIdled.{HasReplicas}
use aergia_controller.Unidler.Checks.{restore_ingress, remove_code_from_ingress}
use aergia_controller.Unidler.Unidle.{
  unidle_deployment, wait_for_pods, finish_unidle, unidle_all, unidle_watched, defer_unlock, unidle,
}

module _ (K : Cluster) where
  pub unidle_deployment-Returns : (d : Deployment) → HasReplicas d → Returns (unidle_deployment K d)
  unfolding unidle_deployment
  unidle_deployment-Returns d (n, e) =
      search
        (
          Returns-deref d.replicas n e,
          Returns-patch_deployment K,
          Returns-pure,
          Returns-bind,
          Returns-if,
        )
        depth 10

  restore_ingress-Returns : (i : Ingress) → Returns (restore_ingress K i)
  unfolding restore_ingress
  restore_ingress-Returns i =
      search (Returns-patch_ingress K, Returns-pure, Returns-bind, Returns-if) depth 8

  pub remove_code_from_ingress-Returns : (ns : String) → Returns (remove_code_from_ingress K ns)
  unfolding remove_code_from_ingress
  remove_code_from_ingress-Returns ns = Returns-bind _ _ (Returns-read K _) λ r.
      Returns-on_reply r _ _ (λ is. Returns-for_each is _ (λ i _. restore_ingress-Returns i))
        (λ _. Returns-pure tt)

  pub wait_for_pods-Returns : (ns : String) (d : Deployment) → Returns (wait_for_pods K ns d)
  unfolding wait_for_pods
  wait_for_pods-Returns ns d = Returns-bind _ _ (Returns-poll K _) (λ _. Returns-pure tt)

  finish_unidle-Returns : (ns : Namespace) (ds : List Deployment) → Returns (finish_unidle K ns ds)
  unfolding finish_unidle
  finish_unidle-Returns ns ds =
      Returns-bind _ _ (Returns-for_each ds _ (λ d _. wait_for_pods-Returns ns.name d)) λ _.
        Returns-bind _ _ (remove_code_from_ingress-Returns ns.name) λ _.
          Returns-bind _ _ (Returns-count K _)
            λ _. Returns-bind _ _ (Returns-patch_namespace K _ _) (λ _. Returns-pure tt)

  unidle_all-Returns :
      (ns : Namespace) (ds : List Deployment)
      → ((d : Deployment) → Memᴰ d ds → HasReplicas d)
      → Returns (unidle_all K ns ds)
  unfolding unidle_all
  unidle_all-Returns ns ds pre =
      Returns-bind _ _ (Returns-for_each ds _ (λ d m. unidle_deployment-Returns d (pre d m)))
        (λ _. finish_unidle-Returns ns ds)

  -- Where the deployments can be listed and have a number of replicas.
  pub unidle_returns :
      (ns : Namespace) (r : K.Requirement) (ds : List Deployment) (w : World K)
      → K.new_requirement "idling.amazee.io/watch" "=" ("true" ∷ []) ≡ some r
      → K.list_deployments w.cluster ns.name (requirements (r ∷ [])) ≡ ok ds
      → ((d : Deployment) → Memᴰ d ds → HasReplicas d)
      → (unidle K ns w).0 ≡ returned tt
  unfolding unidle defer_unlock unidle_watched ◌>>=◌ continue deref pure read gets on_reply
  unidle_returns ns r ds w made listed pre =
      rw made (rw listed ((unidle_all-Returns ns ds pre).at w).1)
