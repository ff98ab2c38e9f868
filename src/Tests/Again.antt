-- ===== src/Tests/Again.antt =====
-- A namespace that is idled by one label and unidled by another.
use mathlib.Core.List.{Memᴰ}
use aergia_controller.Base.{
  ◌≡◌, refl, sym, ap, Bool, Bool-cases, inl, inr, arith, true, false, none, [], ◌∷◌, pos, ◌==◌,
  lookup, insert,
}
use aergia_controller.Strings.Decimal.{itoa}
use aergia_controller.Strings.Split.{split}
use aergia_controller.Strings.Dashes.{collapse_dashes}
use aergia_controller.Kube.{Deployment, Ingress, ok}
use aergia_controller.Kube.Lawful.{merge, merge_deployment}
use aergia_controller.World.{
  World, returned, pure, panic, gets, modify, continue, ◌>>=◌, for_each, deref, on_reply, on_error,
  patch_namespace, patch_deployment, patch_ingress, read, count,
}
use aergia_controller.World.Each.{deployments, MadeOf}
use aergia_controller.Idler.Helpers.{
  generate_selector, generate_label_requirements, add_status_code,
}
use aergia_controller.Idler.Checks.{interval_override, has_running_build, mark_idle}
use aergia_controller.Idler.Patches.{middleware, idle_deployment_patch, idle_ingress_patch}
use aergia_controller.Idler.Service.{
  idle_deployment, idle_deployments, patch_ingresses, label_idled, patch_all_ingress,
  check_deployments, patch_and_idle, idle_if_no_hits, running_build, idle_environment,
  kubernetes_service_idler,
}
use aergia_controller.World.Unchanged.{DeploymentsSame}
use aergia_controller.Idler.Service.EachIdled.{HasReplicas}
use aergia_controller.Idler.Service.Ingresses.{IsNamed}
use aergia_controller.Idler.Service.Forced.{
  FindsDeployments, FindsIngresses, HasNoBuild, IdledEnvironment,
}
use aergia_controller.Controllers.Labels.{Lacks}
use aergia_controller.Controllers.Idles.{forced_label, reconcile_idle}
use aergia_controller.Controllers.Restores.{
  RunsAgain, FindsWatched, reconcile_unidle-reconcile_idle,
}
use aergia_controller.Tests.Memory.Laws.{
  memory-IsLawful, memory_accepts_deployment, memory_accepts_ingress, memory_accepts_namespace,
  memory_names_deployment,
}
use aergia_controller.Tests.Loops.{replicas_of_nginx, nginx_there}
use aergia_controller.Tests.Unidling.{middleware-LacksComma}
use aergia_controller.Tests.Restoring.{asking}
use aergia_controller.Controllers.{reconcile_namespace, reconcile}
use aergia_controller.Controllers.{act_and_remove_label}
use aergia_controller.Tests.Memory.{find, filter, update, meets, selects, deployment_at, memory}
use aergia_controller.Tests.Samples.{
  stdlib, main_namespace, nginx, main_ingress, world, world_of, idler,
}

-- As the forced scaling leaves it.
abbrev scaled_nginx : Deployment
scaled_nginx =
    merge_deployment (idle_deployment_patch (pos 3) "2024-02-01T12:00:00Z" false true) nginx

first_deployments :
    (reconcile memory stdlib idler "main" world).1.cluster.deployments ≡ scaled_nginx ∷ []
unfolding reconcile reconcile_namespace act_and_remove_label kubernetes_service_idler
    idle_environment running_build idle_if_no_hits patch_and_idle check_deployments
    patch_all_ingress label_idled patch_ingresses idle_deployments idle_deployment
    idle_ingress_patch idle_deployment_patch middleware mark_idle has_running_build
    interval_override add_status_code generate_label_requirements generate_selector count read
    patch_ingress patch_deployment patch_namespace on_error on_reply deref for_each ◌>>=◌ continue
    modify gets panic pure merge collapse_dashes split itoa find filter update meets selects ◌==◌
    lookup
first_deployments = refl

main_ingress_there :
    (i : Ingress)
    → Memᴰ i (main_ingress ∷ [])
    → memory.get_ingress world.cluster i.namespace i.name ≡ ok i
unfolding find ◌==◌
main_ingress_there i (Memᴰ.head e) = rw e
main_ingress_there i (Memᴰ.tail m) = elim m [ ]

middleware_of_main : (i : Ingress) → Memᴰ i (main_ingress ∷ []) → IsNamed i
middleware_of_main i (Memᴰ.head e) = rw e middleware-LacksComma
middleware_of_main i (Memᴰ.tail m) = elim m [ ]

abbrev finds_deployments : FindsDeployments memory idler world "main" (nginx ∷ [])
unfolding generate_label_requirements generate_selector deref ◌>>=◌ continue pure filter meets
    selects ◌==◌ lookup
finds_deployments = record {
  reqs = record { key = "idling.amazee.io/watch"; values = "true" ∷ [] } ∷ [];
  made = refl;
  listed = refl;
  apart = (λ e m. elim m [ ], tt);
  filled = replicas_of_nginx;
  there = nginx_there;
}

abbrev finds_ingresses : FindsIngresses memory idler world "main" (main_ingress ∷ [])
unfolding generate_label_requirements pure filter meets selects ◌==◌ lookup
finds_ingresses = record {
  reqs = [];
  made = refl;
  listed = refl;
  apart = (λ e m. elim m [ ], tt);
  named = middleware_of_main;
  there = main_ingress_there;
}

no_build : HasNoBuild memory idler stdlib "main" world
unfolding generate_label_requirements running_build has_running_build ◌>>=◌ continue read gets
    on_reply pure filter ◌==◌
no_build = ([], refl, refl)

reconcile_idle_example :
    let y = reconcile memory stdlib idler "main" world in
    (y.0 ≡ returned none)
    × Lacks memory memory-IsLawful memory_accepts_namespace (forced_label true) y.1.cluster "main"
    × IdledEnvironment memory (nginx ∷ []) (main_ingress ∷ []) y.1
unfolding find lookup ◌==◌
reconcile_idle_example =
    reconcile_idle memory memory-IsLawful memory_accepts_deployment memory_accepts_ingress
      memory_accepts_namespace stdlib idler refl refl main_namespace true (nginx ∷ [])
      (main_ingress ∷ []) world refl refl no_build finds_deployments finds_ingresses

-- Later the namespace asks for an unidling.
abbrev later : World memory
later =
    world_of (record world.cluster { namespaces = asking ∷ []; deployments = scaled_nginx ∷ [] })

unchanged : DeploymentsSame memory (reconcile memory stdlib idler "main" world).1 later
unchanged = record { at = λ ns name. ap (find (deployment_at ns name)) (sym first_deployments) }

scaled_nginx_there :
    (d : Deployment)
    → Memᴰ d (scaled_nginx ∷ [])
    → memory.get_deployment later.cluster d.namespace d.name ≡ ok d
unfolding find ◌==◌
scaled_nginx_there d (Memᴰ.head e) = rw e
scaled_nginx_there d (Memᴰ.tail m) = elim m [ ]

replicas_of_scaled_nginx : (d : Deployment) → Memᴰ d (scaled_nginx ∷ []) → HasReplicas d
unfolding idle_deployment_patch
replicas_of_scaled_nginx d (Memᴰ.head e) = rw e (pos 0, refl)
replicas_of_scaled_nginx d (Memᴰ.tail m) = elim m [ ]

pub found_one :
    (is : Deployment → Bool) (x d : Deployment) → find is (x ∷ []) ≡ ok d → Memᴰ d (x ∷ [])
unfolding find
found_one is x d e = elim (Bool-cases (is x)) [
  | inl f ↦ let same : d ≡ x = cc (rw f at e) in Memᴰ.head same
  | inr f ↦ absurd (cc (rw f at e))
]

finds_watched : FindsWatched memory later "main" (scaled_nginx ∷ [])
unfolding filter meets selects merge idle_deployment_patch ◌==◌ lookup insert
finds_watched = record {
  requirement = record { key = "idling.amazee.io/watch"; values = "true" ∷ [] };
  made = refl;
  listed = refl;
  apart = (λ e m. elim m [ ], tt);
  filled = replicas_of_scaled_nginx;
  there = scaled_nginx_there;
  complete = λ d name e _. found_one _ scaled_nginx d e;
}

reconcile_unidle-reconcile_idle_example :
    MadeOf
      (deployments memory)
      HasReplicas
      RunsAgain
      nginx
      (reconcile memory stdlib idler "main" later).1
unfolding find lookup ◌==◌
reconcile_unidle-reconcile_idle_example =
    reconcile_unidle-reconcile_idle memory memory-IsLawful memory_names_deployment
      (λ c s ns name. refl) memory_accepts_deployment memory_accepts_ingress
      memory_accepts_namespace stdlib idler refl refl main_namespace asking true (nginx ∷ [])
      (scaled_nginx ∷ []) (main_ingress ∷ []) world later refl refl no_build finds_deployments
      finds_ingresses unchanged refl refl finds_watched nginx 2 (Memᴰ.head refl) refl refl
      (omega arith)
