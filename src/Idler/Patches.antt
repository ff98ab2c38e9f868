-- ===== src/Idler/Patches.antt =====
-- The merge patches that service-kubernetes.go of internal/handlers/idler sends.
use aergia_controller.Base.{
  String, ◌<>◌, Bool, none, some, [], ◌∷◌, ℤ, pos, is_positive, if◌then◌else◌, lookup, value_at,
}
use aergia_controller.Strings.Dashes.{collapse_dashes}
use aergia_controller.Strings.Decimal.{itoa}
use aergia_controller.Kube.{Ingress, Changes, Patch}
use aergia_controller.Idler.Helpers.{add_status_code}

abbrev pub custom_http_errors : String
custom_http_errors = "nginx.ingress.kubernetes.io/custom-http-errors"

abbrev pub router_middlewares : String
router_middlewares = "traefik.ingress.kubernetes.io/router.middlewares"

-- The name of the middleware in a namespace, which traefik normalizes.
unfoldable pub middleware : String → String
unfolding collapse_dashes
middleware ns = collapse_dashes ns <> "-aergia@kubernetescrd"

-- The labels of a forced action.
abbrev forced : String → Bool → Changes → Changes
forced label force cs = if force then (label, some "true") ∷ cs else cs

-- What is saved for the unidler: 1 where nothing runs.
abbrev pub saved_replicas : ℤ → ℤ
saved_replicas n = if is_positive n then n else pos 1

unfoldable pub idle_deployment_patch : ℤ → String → Bool → Bool → Patch
unfolding itoa
idle_deployment_patch n at force_idle force_scale = record {
  replicas = some (pos 0);
  labels =
      ("idling.amazee.io/watch", some "true")
      ∷ ("idling.amazee.io/idled", some "true")
      ∷ forced "idling.amazee.io/force-idled" force_idle
          (forced "idling.amazee.io/force-scaled" force_scale []);
  annotations =
      ("idling.amazee.io/idled-at", some at)
      ∷ ("idling.amazee.io/unidle-replicas", some (itoa (saved_replicas n)))
      ∷ [];
}

unfoldable pub idle_ingress_patch : Ingress → Patch
unfolding add_status_code middleware lookup
idle_ingress_patch i = record {
  replicas = none;
  labels = ("idling.amazee.io/idled", some "true") ∷ [];
  annotations =
      (custom_http_errors, some (add_status_code (value_at custom_http_errors i.annotations) "503"))
      ∷ (
        router_middlewares,
        some (add_status_code (value_at router_middlewares i.annotations) (middleware i.namespace)),
      )
      ∷ [];
}

abbrev pub idled_namespace_patch : Patch
idled_namespace_patch = record {
  replicas = none;
  labels = ("idling.amazee.io/idled", some "true") ∷ [];
  annotations = [];
}
