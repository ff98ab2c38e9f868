-- ===== src/Unidler/Checks.antt =====
-- internal/handlers/unidler/checks.go. Log lines are left out.
pub mod RoundTrip
pub mod Clears
use aergia_controller.Base.{
  String, ◌<>◌, Bool, true, false, not, ◌&&◌, ◌||◌, Option, none, some, List, [], ◌∷◌, ◌++◌, ◌==◌,
  if◌then◌else◌, StringMap, lookup, or_empty,
}
use aergia_controller.Kube.{
  Deployment, Pod, Ingress, Changes, Patch, Result, ok, err, requirements, matching, Cluster,
}
use aergia_controller.World.{
  World, Action, pure, ◌>>=◌, ◌>>◌, for_each, deref, on_reply, patch_ingress, read,
}
use aergia_controller.Idler.Patches.{custom_http_errors, router_middlewares, middleware}
use aergia_controller.Unidler.Helpers.{remove_status_code}

-- The value of an annotation without a part of it; none stands for the removal of the annotation,
-- and for an annotation that is not there.
abbrev pub strip : Option String → String → Option String
strip none code = none
strip (some value) code = remove_status_code value code

-- The change of an annotation, if the stripped value is another one.
abbrev pub change_of : String → Option String → Option String → Changes
change_of key value none = (key, none) ∷ []
change_of key value (some stripped) =
    if stripped == or_empty value then [] else (key, some stripped) ∷ []

unfoldable pub unidle_ingress_patch : Ingress → Patch
unfolding remove_status_code middleware
unidle_ingress_patch i =
    let ingress_value = lookup custom_http_errors i.annotations in
    let traefik_value = lookup router_middlewares i.annotations in
    record {
      replicas = none;
      labels = ("idling.amazee.io/idled", some "false") ∷ [];
      annotations =
          ("idling.amazee.io/idled-at", none)
          ∷ (change_of custom_http_errors ingress_value (strip ingress_value "503")
              ++ change_of router_middlewares traefik_value
                  (strip traefik_value (middleware i.namespace)));
    }

abbrev is_some : Option String → Bool
is_some none = false
is_some (some v) = true

-- One of the two annotations is there.
unfoldable pub needs_patch : Ingress → Bool
needs_patch i =
    is_some (lookup custom_http_errors i.annotations)
    || is_some (lookup router_middlewares i.annotations)

-- The phase of the first pod.
unfoldable pub is_first_running : List Pod → Bool
is_first_running [] = false
is_first_running (pod ∷ pods) = pod.phase == "Running"

-- The condition of the poll. The pods are looked for in every namespace. The selector of the
-- deployment, a pointer that is dereferenced here, is taken as always there.
unfoldable pub has_running_pod : (K : Cluster) → String → String → K.State → Result Bool
unfolding is_first_running on_reply
has_running_pod K ns deployment s =
    on_reply (K.get_deployment s ns deployment)
      (λ d.
        on_reply (K.list_pods s none (matching d.match_labels)) (λ pods. ok (is_first_running pods))
          (λ e. err e))
      (λ e. err e)

module _ (K : Cluster) where
  unfoldable pub check_force_scaled : String → Action (World K) Bool
  check_force_scaled ns = do
    requirement ← deref (K.new_requirement "idling.amazee.io/force-scaled" "=" ("true" ∷ []))
    r ← read K (λ c. K.list_deployments c ns (requirements (requirement ∷ [])))
    pure (on_reply r (elim [ [] ↦ false | d ∷ ds ↦ true ]) (λ _. false))

  -- An error of the patch is logged, and the loop goes on.
  unfoldable pub restore_ingress : Ingress → Action (World K) (Unit {0})
  restore_ingress i =
      if not (needs_patch i)
      then pure tt
      else do patch_ingress K i.namespace i.name (unidle_ingress_patch i); pure tt

  unfoldable pub remove_code_from_ingress : String → Action (World K) (Unit {0})
  remove_code_from_ingress ns = do
    r ← read K (λ c. K.list_ingresses c ns (requirements []))
    on_reply r (λ is. for_each is restore_ingress) (λ _. pure tt)
