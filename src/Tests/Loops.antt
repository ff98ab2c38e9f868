-- ===== src/Tests/Loops.antt =====
-- Runs of the loops over deployments and ingresses.
use mathlib.Core.List.{Memᴰ}
use aergia_controller.Base.{◌≡◌, refl, false, some, [], ◌∷◌, pos, ◌==◌, lookup}
use aergia_controller.Kube.{Deployment, ok, Cluster}
use aergia_controller.Kube.Lawful.{IsLawful}
use aergia_controller.World.{World, pure}
use aergia_controller.World.Each.{deployments, MadeOf}
use aergia_controller.Idler.Helpers.{generate_label_requirements}
use aergia_controller.Idler.Service.{patch_and_idle}
use aergia_controller.Idler.Service.EachIdled.{HasReplicas}
use aergia_controller.Idler.Service.Refused.{patch_and_idle_refused}
use aergia_controller.Unidler.Unidle.{unidle}
use aergia_controller.Unidler.Unidle.EachUnidled.{UnidledFrom, unidle_each}
use aergia_controller.Tests.Memory.{find, filter, selects, memory}
use aergia_controller.Tests.Memory.Laws.{memory-IsLawful, memory_accepts_deployment}
use aergia_controller.Tests.Samples.{
  stdlib, main_namespace, nginx, idled_nginx, main_ingress, world, idled_world, idler,
}

pub replicas_of_nginx : (d : Deployment) → Memᴰ d (nginx ∷ []) → HasReplicas d
replicas_of_nginx d (Memᴰ.head e) = rw e (pos 3, refl)
replicas_of_nginx d (Memᴰ.tail m) = elim m [ ]

pub nginx_there :
    (d : Deployment)
    → Memᴰ d (nginx ∷ [])
    → memory.get_deployment world.cluster d.namespace d.name ≡ ok d
unfolding find ◌==◌
nginx_there d (Memᴰ.head e) = rw e
nginx_there d (Memᴰ.tail m) = elim m [ ]

pub replicas_of_idled_nginx : (d : Deployment) → Memᴰ d (idled_nginx ∷ []) → HasReplicas d
replicas_of_idled_nginx d (Memᴰ.head e) = rw e (pos 0, refl)
replicas_of_idled_nginx d (Memᴰ.tail m) = elim m [ ]

pub idled_nginx_there :
    (d : Deployment)
    → Memᴰ d (idled_nginx ∷ [])
    → memory.get_deployment idled_world.cluster d.namespace d.name ≡ ok d
unfolding find ◌==◌
idled_nginx_there d (Memᴰ.head e) = rw e
idled_nginx_there d (Memᴰ.tail m) = elim m [ ]

unidle_each_example :
    MadeOf
      (deployments memory)
      HasReplicas
      UnidledFrom
      idled_nginx
      (unidle memory main_namespace idled_world).1
unfolding filter selects ◌==◌ lookup
unidle_each_example =
    unidle_each memory memory-IsLawful (λ c s ns name. refl) memory_accepts_deployment
      main_namespace (record { key = "idling.amazee.io/watch"; values = "true" ∷ [] })
      (idled_nginx ∷ []) idled_world refl refl (λ e m. elim m [ ], tt) replicas_of_idled_nginx
      idled_nginx_there idled_nginx (Memᴰ.head refl)

-- A cluster that refuses every patch of an ingress.
abbrev refusing : Cluster
refusing = record memory { patch_ingress = λ s ns name p. (s, some "refused") }

refusing-IsLawful : IsLawful refusing
refusing-IsLawful =
    let law = memory-IsLawful in
    record {
      named = law.named;
      deployment-patch_deployment = law.deployment-patch_deployment;
      ingress-patch_ingress = λ s ns name p ns' name'. refl;
      namespace-patch_namespace = law.namespace-patch_namespace;
      deployment-patch_ingress = λ s ns name p ns' name'. refl;
      deployment-patch_namespace = law.deployment-patch_namespace;
      ingress-patch_deployment = law.ingress-patch_deployment;
      ingress-patch_namespace = law.ingress-patch_namespace;
      namespace-patch_deployment = law.namespace-patch_deployment;
      namespace-patch_ingress = λ s ns name p ns'. refl;
    }

abbrev refusing_world : World refusing
refusing_world = record {
  cluster = world.cluster;
  metrics = world.metrics;
  locks = [];
  goroutines = [];
}

patch_and_idle_refused_example :
    refusing.get_deployment
      (patch_and_idle refusing stdlib idler main_namespace
        (nginx ∷ [])
        false
        false
        refusing_world).1.cluster
      "main"
      "nginx"
    ≡ refusing.get_deployment refusing_world.cluster "main" "nginx"
unfolding generate_label_requirements pure filter selects ◌==◌
patch_and_idle_refused_example =
    patch_and_idle_refused refusing stdlib idler refl refusing-IsLawful main_namespace (nginx ∷ [])
      false false refusing_world [] (main_ingress ∷ []) main_ingress refl refl refl (Memᴰ.head refl)
      (λ s. ("refused", refl)) "main" "nginx"
