-- ===== src/Tests/Ages.antt =====
-- A run of the service idler on a pod that is young.
use mathlib.Core.List.{Memᴰ}
use mathlib.Core.Path.{subst}
use mathlib.Core.Option.{some-injective}
use aergia_controller.Base.{
  ◌≡◌, refl, sym, true, false, some, List, [], ◌∷◌, pos, sub_ℕ, lt_ℤ, ◌==◌, lookup,
}
use aergia_controller.Kube.{Deployment, Pod, ok}
use aergia_controller.World.{World, returned, pure, deref, continue, ◌>>=◌}
use aergia_controller.Idler.Helpers.{generate_selector, generate_label_requirements}
use aergia_controller.Idler.Service.{idle_environment}
use aergia_controller.Idler.Service.Young.{IsOld, IsYoung, idle_environment_young}
use aergia_controller.Tests.Memory.{filter, selects, memory}
use aergia_controller.Tests.Loops.{replicas_of_nginx}
use aergia_controller.Tests.Samples.{stdlib, main_namespace, nginx, store_of, world_of, idler}

-- It has run for 40 minutes.
abbrev young_pod : Pod
young_pod = record {
  namespace = "main";
  name = "nginx-1";
  phase = "Running";
  start_time = some 84000000000000;
}

abbrev young_world : World memory
young_world = world_of (store_of nginx (young_pod ∷ []))

not-IsOld : ¬ IsOld (pos 14400000000000) 86400000000000 young_pod
not-IsOld (start, e, old) =
    let at : 84000000000000 ≡ start = some-injective _ _ e in
    let late : lt_ℤ (pos 14400000000000) (sub_ℕ 86400000000000 84000000000000) ≡ true =
      subst (λ s. lt_ℤ (pos 14400000000000) (sub_ℕ 86400000000000 s) ≡ true) (sym at) old in
    cc

listed_not-IsOld :
    (pods : List Pod) (p : Pod)
    → ok (young_pod ∷ []) ≡ ok pods
    → Memᴰ p pods
    → ¬ IsOld (pos 14400000000000) 86400000000000 p
listed_not-IsOld pods p e m = let same : young_pod ∷ [] ≡ pods = cc in from_list p (rw same m)
  where
    from_list : (p : Pod) → Memᴰ p (young_pod ∷ []) → ¬ IsOld (pos 14400000000000) 86400000000000 p
    from_list p (Memᴰ.head e) = rw e not-IsOld
    from_list p (Memᴰ.tail m) = elim m [ ]

young :
    (d : Deployment)
    → Memᴰ d (nginx ∷ [])
    → IsYoung memory stdlib idler "main" (pos 14400000000000) young_world d
unfolding filter ◌==◌
young d m = λ pods e p k. listed_not-IsOld pods p e k

idle_environment_young_example :
    idle_environment memory stdlib idler main_namespace
      (pos 14400000000000)
      (pos 14400000000000)
      false
      false
      young_world
    ≡ (returned tt, young_world)
unfolding generate_label_requirements generate_selector deref continue ◌>>=◌ pure filter selects
    ◌==◌ lookup
idle_environment_young_example =
    idle_environment_young memory stdlib idler main_namespace (pos 14400000000000)
      (pos 14400000000000) young_world
      (record { key = "idling.amazee.io/watch"; values = "true" ∷ [] } ∷ []) (nginx ∷ []) refl refl
      replicas_of_nginx young
