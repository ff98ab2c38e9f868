-- ===== src/Tests/Restoring.antt =====
-- A namespace whose label asks for an unidling, and its ingresses.
use mathlib.Core.List.{Memᴰ}
use aergia_controller.Base.{
  String, ◌<>◌, ◌≡◌, refl, none, [], ◌∷◌, pos, eqb, ◌%◌, ◌==◌, if◌then◌else◌, lookup,
}
use aergia_controller.Strings.Decimal.{itoa}
use aergia_controller.Kube.{Namespace, Deployment, Ingress, ok}
use aergia_controller.World.{World, returned}
use aergia_controller.World.Each.{deployments, MadeOf}
use aergia_controller.Idler.Cli.{scale_cli, check_processes}
use aergia_controller.Idler.Cli.Processes.{check_processes-itoa}
use aergia_controller.Idler.Service.EachIdled.{HasReplicas}
use aergia_controller.Unidler.Checks.Clears.{IsClear}
use aergia_controller.Unidler.Unidle.{unidle}
use aergia_controller.Unidler.Unidle.EachUnidled.{UnidledFrom}
use aergia_controller.Unidler.Unidle.Ingresses.{unidle_ingresses}
use aergia_controller.Controllers.{reconcile}
use aergia_controller.Controllers.Labels.{Lacks}
use aergia_controller.Controllers.Unidles.{unidle_label, reconcile_unidle}
use aergia_controller.Tests.Memory.{find, filter, selects, memory}
use aergia_controller.Tests.Memory.Laws.{
  memory-IsLawful, memory_accepts_deployment, memory_accepts_namespace,
}
use aergia_controller.Tests.Loops.{replicas_of_idled_nginx, idled_nginx_there}
use aergia_controller.Tests.Single.{
  single, single-IsLawful, single_accepts_ingress, single-ListsIngresses,
}
use aergia_controller.Tests.Samples.{
  stdlib, main_namespace, nginx, idled_nginx, main_ingress, world, idled_world, idler,
}

check_processes-itoa_example :
    check_processes memory idler nginx (itoa (pos 20) <> "\n", "") world
    ≡ (if eqb (20 % 10) 0 then scale_cli memory idler nginx world else (returned tt, world))
check_processes-itoa_example = check_processes-itoa memory idler nginx 20 "" world

-- The namespace asks for an unidling.
abbrev pub asking : Namespace
asking = record { name = "main"; labels = (unidle_label, "true") ∷ []; annotations = [] }

abbrev asking_world : World memory
asking_world = record idled_world {
  cluster = record idled_world.cluster { namespaces = asking ∷ [] };
}

reconcile_unidle_example :
    let y = reconcile memory stdlib idler "main" asking_world in
    (y.0 ≡ returned none)
    × Lacks memory memory-IsLawful memory_accepts_namespace unidle_label y.1.cluster "main"
    × ((d : Deployment)
        → Memᴰ d (idled_nginx ∷ [])
        → MadeOf (deployments memory) HasReplicas UnidledFrom d y.1)
unfolding find filter selects ◌==◌ lookup
reconcile_unidle_example =
    reconcile_unidle memory memory-IsLawful (λ c s ns name. refl) memory_accepts_deployment
      memory_accepts_namespace stdlib idler "main" asking
      (record { key = "idling.amazee.io/watch"; values = "true" ∷ [] }) (idled_nginx ∷ [])
      asking_world refl refl refl refl (λ e m. elim m [ ], tt) replicas_of_idled_nginx
      idled_nginx_there

-- An ingress of an idled namespace: the code and the middleware are listed.
abbrev idled_ingress : Ingress
idled_ingress = record main_ingress {
  annotations =
      ("nginx.ingress.kubernetes.io/custom-http-errors", "404,503")
      ∷ ("traefik.ingress.kubernetes.io/router.middlewares", "main-aergia@kubernetescrd")
      ∷ [];
}

abbrev single_world : World single
single_world = record {
  cluster = record idled_world.cluster { ingresses = idled_ingress ∷ [] };
  metrics = idled_world.metrics;
  locks = [];
  goroutines = [];
}

unidle_ingresses_example :
    ((unidle single main_namespace single_world).0 ≡ returned tt)
    × ((name : String) (i : Ingress)
        → single.get_ingress (unidle single main_namespace single_world).1.cluster "main" name
          ≡ ok i
        → IsClear i)
unfolding filter selects ◌==◌ lookup
unidle_ingresses_example =
    unidle_ingresses single single-IsLawful single-ListsIngresses single_accepts_ingress
      main_namespace (λ s. (_, refl))
      (record { key = "idling.amazee.io/watch"; values = "true" ∷ [] }) (idled_nginx ∷ [])
      single_world refl refl replicas_of_idled_nginx
