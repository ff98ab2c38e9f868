-- ===== src/Tests/Idling.antt =====
-- Runs of the idlers.
use mathlib.Core.List.{Memᴰ}
use aergia_controller.Base.{◌≡◌, sym, arith, refl, true, false, [], ◌∷◌, inl, pos, ◌==◌}
use aergia_controller.Strings.Decimal.{atoi}
use aergia_controller.Kube.{PromValue, vector, ok, Cluster}
use aergia_controller.World.{World, returned, pure}
use aergia_controller.World.Changed.{Changed}
use aergia_controller.Idler.Helpers.{generate_label_requirements}
use aergia_controller.Idler.Checks.{add_hits}
use aergia_controller.Idler.Service.{idle_if_no_hits, kubernetes_service_idler, service_idler}
use aergia_controller.Idler.Service.OnlyIdles.{IsIdled, service_idler-Changed}
use aergia_controller.Idler.Service.DryRun.{service_idler_dry}
use aergia_controller.Idler.Service.Guards.{
  NoHits, kubernetes_service_idler_build, idle_if_no_hits_kept,
}
use aergia_controller.Idler.Cli.{check_cli_deployment, cli_idler}
use aergia_controller.Idler.Cli.OnlyScales.{OnlyScaled, cli_idler-OnlyScaled}
use aergia_controller.Idler.Cli.Guards.{check_cli_deployment_crons}
use aergia_controller.Tests.Memory.{filter, memory}
use aergia_controller.Tests.Memory.Laws.{memory-IsLawful}
use aergia_controller.Tests.Samples.{
  stdlib, main_namespace, nginx, build, world, building_world, idler, dry_idler,
}

service_idler-Changed_example :
    Changed memory IsIdled world (service_idler memory stdlib idler world).1
service_idler-Changed_example = service_idler-Changed memory memory-IsLawful stdlib idler world

service_idler_dry_example : (service_idler memory stdlib dry_idler world).1 ≡ world
service_idler_dry_example = service_idler_dry memory stdlib dry_idler refl world

kubernetes_service_idler_build_example :
    kubernetes_service_idler memory stdlib idler main_namespace "project" true false building_world
    ≡ (returned tt, building_world)
unfolding generate_label_requirements pure filter ◌==◌
kubernetes_service_idler_build_example =
    kubernetes_service_idler_build memory stdlib idler main_namespace "project" true false
      building_world [] (build ∷ []) build refl refl refl (Memᴰ.head refl) (inl refl)

-- Prometheus counts five hits in each of its answers.
abbrev visited : Cluster
visited = record memory { query = λ s q. ok (vector ("5" ∷ [])) }

abbrev visited_world : World visited
visited_world = record {
  cluster = world.cluster;
  metrics = world.metrics;
  locks = [];
  goroutines = [];
}

five_and_five : add_hits (add_hits 0 (vector ("5" ∷ []))) (vector ("5" ∷ [])) ≡ 10
unfolding add_hits atoi
five_and_five = refl

not_none :
    (v u : PromValue)
    → ok (vector ("5" ∷ [])) ≡ ok v
    → ok (vector ("5" ∷ [])) ≡ ok u
    → ¬ (add_hits (add_hits 0 v) u ≡ 0)
not_none v u p q z =
    let p' : vector ("5" ∷ []) ≡ v = cc in
    let q' : vector ("5" ∷ []) ≡ u = cc in
    let t : add_hits (add_hits 0 v) u ≡ 10 = rw (sym p', sym q') five_and_five in
    absurd (omega arith)

has_hits : ¬ NoHits visited stdlib idler "main" (pos 14400000000000) visited_world
has_hits n = not_none n.nginx n.traefik n.nginx_answer n.traefik_answer n.none_counted

idle_if_no_hits_kept_example :
    idle_if_no_hits visited stdlib idler main_namespace
      (pos 14400000000000)
      (nginx ∷ [])
      false
      false
      visited_world
    ≡ (returned tt, visited_world)
idle_if_no_hits_kept_example =
    idle_if_no_hits_kept visited stdlib idler main_namespace (pos 14400000000000) (nginx ∷ [])
      visited_world refl has_hits

cli_idler-OnlyScaled_example : OnlyScaled memory world (cli_idler memory idler world).1
cli_idler-OnlyScaled_example = cli_idler-OnlyScaled memory memory-IsLawful idler world

check_cli_deployment_crons_example :
    (check_cli_deployment memory idler "main" nginx world).1 ≡ world
check_cli_deployment_crons_example =
    check_cli_deployment_crons memory idler "main" nginx world
      (record { env = ("CRONJOBS", "* * * * * drush cron") ∷ [] }) "* * * * * drush cron" refl
      (Memᴰ.head refl) (Memᴰ.head refl) (λ e. cc)
